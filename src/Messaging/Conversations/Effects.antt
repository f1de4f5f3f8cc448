-- ===== src/Messaging/Conversations/Effects.antt =====
-- What the creation of a conversation leaves behind.
use teri_chat.Prelude.{
  ℕ, ◌≡◌, ap, ◌∙◌, ◌&&◌, is_some, ◌⊎◌, inl, inr, refl, Bool, true, false, none, some, List, [], ◌∷◌,
  ok, arith, ◌==◌, Result-cases,
}
use mathlib.Core.Path.{subst, sym}
use teri_chat.Prelude.Text.{Text}
use teri_chat.Table.{find, exists, count}
use teri_chat.Table.Laws.{exists-eq-is_some}
use teri_chat.Messaging.Schema.{
  MsgDb, ConversationRow, ParticipantRow, ConversationInfo, conversation_row, seat_in,
}
use teri_chat.Messaging.Conversations.{
  insert_conversation_row, insert_participant, insert_participants, insert_conversation,
  with_creator,
}

-- The seats of a state, after new seats in the conversation `c`.
abbrev pub Seats : ℕ → MsgDb → MsgDb → Type 0
Seats c s s' =
    (k u : ℕ) (p : ParticipantRow)
    → find (seat_in k u) s'.participants ≡ some p
    → (find (seat_in k u) s.participants ≡ some p) ⊎ ((k ≡ c) × (p.last_read_seq ≡ 0))

abbrev pub KeepsSeats : MsgDb → MsgDb → Type 0
KeepsSeats s s' =
    (k u : ℕ) (p : ParticipantRow)
    → find (seat_in k u) s.participants ≡ some p
    → find (seat_in k u) s'.participants ≡ some p

-- Counts of rows outside the conversation `c` are the same.
abbrev pub OthersStay : ℕ → MsgDb → MsgDb → Type 0
OthersStay c s s' =
    (q : ParticipantRow → Bool)
    → ((p : ParticipantRow) → p.conversation_id ≡ c → q p ≡ false)
    → count q s'.participants ≡ count q s.participants

pub record Seated (c : ℕ) (s s' : MsgDb) : Type 0 where
  pub same_conversations : s'.conversations ≡ s.conversations
  pub same_messages : s'.messages ≡ s.messages
  pub same_outbox : s'.outbox ≡ s.outbox
  pub same_users : s'.users ≡ s.users
  pub new_seats : Seats c s s'
  pub keeps : KeepsSeats s s'
  pub others : OthersStay c s s'

insert_participant-Seats :
    (c u : ℕ) (s s' : MsgDb) (x : Unit {0}) → insert_participant c u s ≡ ok (x, s') → Seats c s s'
unfolding insert_participant find
insert_participant-Seats c u s s' x h k v p f = ground arith

exists-found :
    {A : Type 0} (q : A → Bool) (rows : List A) {p : A}
    → find q rows ≡ some p
    → exists q rows ≡ true
exists-found q rows f = exists-eq-is_some q rows ∙ ap is_some f

same_seat :
    (c u k v : ℕ) (rows : List ParticipantRow)
    → (c == k && u == v) ≡ true
    → exists (seat_in c u) rows ≡ exists (seat_in k v) rows
same_seat c u k v rows h = ground arith

insert_participant-keeps :
    (c u : ℕ) (s s' : MsgDb) (x : Unit {0})
    → insert_participant c u s ≡ ok (x, s')
    → KeepsSeats s s'
unfolding insert_participant find
insert_participant-keeps c u s s' x h k v p f =
    ground
      (arith, exists-found (seat_in k v) s.participants {p = p} f, same_seat c u k v s.participants)

insert_participant-others :
    (c u : ℕ) (s s' : MsgDb) (x : Unit {0})
    → insert_participant c u s ≡ ok (x, s')
    → OthersStay c s s'
unfolding insert_participant count
insert_participant-others c u s s' x h q n = ground (
  arith,
  n (record { conversation_id = c; user_id = u; last_read_seq = 0; last_read_at = none }) refl,
)

insert_participant-Seated :
    (c u : ℕ) (s s' : MsgDb) (x : Unit {0}) → insert_participant c u s ≡ ok (x, s') → Seated c s s'
unfolding insert_participant
insert_participant-Seated c u s s' x h = record {
  same_conversations = ground arith;
  same_messages = ground arith;
  same_outbox = ground arith;
  same_users = ground arith;
  new_seats = insert_participant-Seats c u s s' x h;
  keeps = insert_participant-keeps c u s s' x h;
  others = insert_participant-others c u s s' x h;
}

Seated-refl : (c : ℕ) (s : MsgDb) → Seated c s s
Seated-refl c s = record {
  same_conversations = refl;
  same_messages = refl;
  same_outbox = refl;
  same_users = refl;
  new_seats = λ k u p f. inl f;
  keeps = λ k u p f. f;
  others = λ q n. refl;
}

Seated-trans : (c : ℕ) (r s t : MsgDb) → Seated c r s → Seated c s t → Seated c r t
Seated-trans c r s t a b = record {
  same_conversations = ground (arith, a.same_conversations, b.same_conversations);
  same_messages = ground (arith, a.same_messages, b.same_messages);
  same_outbox = ground (arith, a.same_outbox, b.same_outbox);
  same_users = ground (arith, a.same_users, b.same_users);
  new_seats = λ k u p f. elim (b.new_seats k u p f) [ inl e ↦ a.new_seats k u p e | inr e ↦ inr e ];
  keeps = λ k u p f. b.keeps k u p (a.keeps k u p f);
  others = λ q n. b.others q n ∙ a.others q n;
}

insert_participants-Seated :
    (c : ℕ) (us : List ℕ) (s s' : MsgDb) (x : Unit {0})
    → insert_participants c us s ≡ ok (x, s')
    → Seated c s s'
unfolding insert_participants
insert_participants-Seated c [] s s' x h = ground (arith, Seated-refl c s)
insert_participants-Seated c (u ∷ us) s s' x h = elim (Result-cases (insert_participant c u s)) [
  | inl ((y, t), e) ↦
      Seated-trans c s t s' (insert_participant-Seated c u s t y e)
        (insert_participants-Seated c us t s' x (ground arith))
  | inr (e, q) ↦ ground arith
]

-- What the creation of a conversation does to the tables.
pub record Founded (c : ℕ) (s s' : MsgDb) : Type 0 where
  pub row : ConversationRow
  pub is_new : exists (conversation_row c) s.conversations ≡ false
  pub row_id : row.id ≡ c
  pub row_next : row.next_seq ≡ 1
  pub conversations : s'.conversations ≡ row ∷ s.conversations
  pub same_messages : s'.messages ≡ s.messages
  pub same_outbox : s'.outbox ≡ s.outbox
  pub new_seats : Seats c s s'
  pub keeps : KeepsSeats s s'
  pub others : OthersStay c s s'

insert_row-ok :
    (c : ℕ) (kind : Text) (creator : ℕ) (s t : MsgDb) (x : Unit {0})
    → insert_conversation_row c kind creator s ≡ ok (x, t)
    → (exists (conversation_row c) s.conversations ≡ false)
      × (t ≡ record s {
        conversations =
            record { id = c; kind = kind; created_by = creator; next_seq = 1 } ∷ s.conversations;
      })
unfolding insert_conversation_row
insert_row-ok c kind creator s t x h = ground arith

pub insert_conversation-Founded :
    (c creator : ℕ) (kind : Text) (members : List ℕ) (s s' : MsgDb) (r : ConversationInfo)
    → insert_conversation c creator kind members s ≡ ok (r, s')
    → Founded c s s'
unfolding insert_conversation
insert_conversation-Founded c creator kind members s s' r h =
    elim (Result-cases (insert_conversation_row c kind creator s)) [
      | inr (e, q) ↦ ground arith
      | inl ((x, t), e) ↦
          elim (Result-cases (insert_participants c (with_creator creator members) t)) [
            | inr (e', q) ↦ ground arith
            | inl ((y, t'), e') ↦
                let f = insert_participants-Seated c (with_creator creator members) t t' y e' in
                let g = insert_row-ok c kind creator s t x e in
                let same : s' ≡ t' = ground arith in
                subst (λ z. Founded c s z) (sym same)
                  (record {
                    row = record { id = c; kind = kind; created_by = creator; next_seq = 1 };
                    is_new = g.0;
                    row_id = refl;
                    row_next = refl;
                    conversations = ground (arith, f.same_conversations);
                    same_messages = ground (arith, f.same_messages);
                    same_outbox = ground (arith, f.same_outbox);
                    new_seats = λ k u p q. ground (arith, f.new_seats k u p q);
                    keeps = λ k u p q. f.keeps k u p (ground arith);
                    others = λ q n.
                        f.others q n
                        ∙ ground (arith, ap (λ (z : MsgDb). count q z.participants) g.1);
                  })
          ]
    ]
