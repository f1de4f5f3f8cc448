-- ===== src/Messaging/Conversations/Direct.antt =====
-- A direct conversation of two users is found again, whoever of them asks.
use teri_chat.Prelude.{
  ℕ, ◌≡◌, ◌≢◌, ◌≤◌, ◌⊎◌, ◌∙◌, refl, true, false, none, some, List, [], ◌∷◌, arith, ok, Bool-cases,
  Option-cases, Result-cases, inl, inr,
}
use mathlib.Core.Path.{subst, sym}
use teri_chat.Prelude.Text.{text_eq}
use teri_chat.Table.{find, exists, count}
use teri_chat.Table.Laws.{exists-eq-is_some}
use teri_chat.Messaging.Schema.{
  MsgDb, MsgEnv, ConversationInfo, ParticipantRow, seat_in, in_conversation, dm_kind,
  conversation_row,
}
use teri_chat.Messaging.Conversations.{
  find_or_create_dm, find_dm, dm_of, insert_conversation, insert_conversation_row,
  insert_participants, insert_participant, contains, shared_dm, one_of, members_of,
}
use teri_chat.Messaging.Commits.{Reach}
use teri_chat.Messaging.Commits.Dms.{Reach-dm}
use teri_chat.Messaging.Commits.Numbering.{Numbered, next_of}
use teri_chat.Messaging.Conversations.Lookup.{
  is_dm, dm_with, find_dm_comm, finds_dm, found-dm_with, one_dm,
}

empty_conversation :
    (c : ℕ) (rows : List ParticipantRow)
    → ((u : ℕ) → exists (seat_in c u) rows ≡ false)
    → count (in_conversation c) rows ≡ 0
unfolding exists count
empty_conversation c [] h = refl
empty_conversation c (p ∷ rows) h =
    ground (arith, h p.user_id, empty_conversation c rows λ u. ground (arith, h u))

one_of_empty :
    (c a b : ℕ) (rows : List ParticipantRow)
    → count (in_conversation c) rows ≡ 0
    → count (one_of c a b) rows ≡ 0
unfolding count
one_of_empty c a b [] h = refl
one_of_empty c a b (p ∷ rows) h = ground (arith, one_of_empty c a b rows)

no_seat :
    (s : MsgDb) (c : ℕ)
    → Numbered s
    → exists (conversation_row c) s.conversations ≡ false
    → (u : ℕ) → exists (seat_in c u) s.participants ≡ false
unfolding next_of
no_seat s c w n u = elim (Option-cases (find (seat_in c u) s.participants)) [
  | inl e ↦ ground (arith, exists-eq-is_some (seat_in c u) s.participants)
  | inr (p, e) ↦
      absurd
        (ground (arith, w.behind c u p e, exists-eq-is_some (conversation_row c) s.conversations))
]

abbrev pub seat_new : ℕ → ℕ → ParticipantRow
seat_new c u = record { conversation_id = c; user_id = u; last_read_seq = 0; last_read_at = none }

-- The state after the creation of a direct conversation.
created_state :
    (c a b : ℕ) (s s' : MsgDb) (r : ConversationInfo)
    → a ≢ b
    → Numbered s
    → insert_conversation c a dm_kind (b ∷ []) s ≡ ok (r, s')
    → (r.id ≡ c)
      × (exists (conversation_row c) s.conversations ≡ false)
      × (s'.conversations
          ≡ record { id = c; kind = dm_kind; created_by = a; next_seq = 1 } ∷ s.conversations)
      × (s'.participants ≡ seat_new c a ∷ seat_new c b ∷ s.participants)
unfolding insert_conversation insert_conversation_row insert_participants insert_participant
    contains exists
created_state c a b s s' r d w h = elim (Bool-cases (exists (conversation_row c) s.conversations)) [
  | inl e ↦ absurd (ground arith)
  | inr e ↦ ground (arith, no_seat s c w e a, no_seat s c w e b)
]

fresh_count :
    (c a b : ℕ) (s : MsgDb)
    → Numbered s
    → exists (conversation_row c) s.conversations ≡ false
    → shared_dm a b
        (seat_new c a ∷ seat_new c b ∷ s.participants)
        (record { id = c; kind = dm_kind; created_by = a; next_seq = 1 })
      ≡ true
unfolding count text_eq
fresh_count c a b s w e =
    let n = empty_conversation c s.participants (no_seat s c w e) in
    ground (arith, n, one_of_empty c a b s.participants n)

created-dm_with :
    (c a b : ℕ) (s s' : MsgDb) (r : ConversationInfo)
    → a ≢ b
    → Numbered s
    → insert_conversation c a dm_kind (b ∷ []) s ≡ ok (r, s')
    → dm_with r.id a b s' ≡ true
unfolding exists
created-dm_with c a b s s' r d w h =
    let k = created_state c a b s s' r d w h in ground (arith, k, fresh_count c a b s w k.1)

-- After a request that has succeeded the answer is a direct conversation of the two.
answer-dm_with :
    (env : MsgEnv) (a b : ℕ) (s s' : MsgDb) (r : ConversationInfo)
    → a ≢ b
    → Numbered s
    → find_or_create_dm env a b s ≡ (ok r, s')
    → dm_with r.id a b s' ≡ true
unfolding find_or_create_dm dm_of
answer-dm_with env a b s s' r d w h = elim (Option-cases (find_dm env.pick a b s)) [
  | inr (c, f) ↦
      let same : (c ≡ r.id) × (s ≡ s') = (ground arith, ground arith) in
      subst (λ z. dm_with r.id a b z ≡ true) same.1
        (subst (λ i. dm_with i a b s ≡ true) same.0 (found-dm_with env.pick a b c s f))
  | inl f ↦ elim (Result-cases (insert_conversation env.conversation_id a dm_kind (b ∷ []) s)) [
    | inr (e, q) ↦ absurd (ground arith)
    | inl ((r', t), q) ↦
        let same : (r' ≡ r) × (t ≡ s') = (ground arith, ground arith) in
        subst (λ z. dm_with r.id a b z ≡ true) same.1
          (subst (λ (x : ConversationInfo). dm_with x.id a b t ≡ true) same.0
            (created-dm_with env.conversation_id a b s t r' d w q))
  ]
]

-- A request answers with a direct conversation of the two and changes nothing.
abbrev pub Answers : MsgEnv → ℕ → ℕ → ℕ → ℕ → MsgDb → ConversationInfo → Type 0
Answers env x y a b s r =
    (c : ℕ) × (find_or_create_dm env x y s
      ≡ (ok (record { id = c; kind = dm_kind; members = members_of c s.participants }), s))
    × (dm_with c a b s ≡ true)
    × ((c ≡ r.id) ⊎ (2 ≤ count (is_dm a b s) s.conversations))

find_or_create_dm-answers :
    (env : MsgEnv) (x y c : ℕ) (s : MsgDb)
    → find_dm env.pick x y s ≡ some c
    → find_or_create_dm env x y s
      ≡ (ok (record { id = c; kind = dm_kind; members = members_of c s.participants }), s)
unfolding find_or_create_dm dm_of
find_or_create_dm-answers env x y c s f = ground arith

-- For two users, from a well-formed state: once a request for their direct conversation has
-- succeeded, then in whatever state calls of messaging.rs and rounds of the worker lead to, the
-- request of either of them, whichever row it picks, creates nothing: it answers with a direct
-- conversation of exactly the two, with its members as they stand, and changes nothing. That is the
-- conversation of the first answer, unless there are several.
pub find_or_create_dm-again :
    (env later : MsgEnv) (a b : ℕ) (s s' t : MsgDb) (r : ConversationInfo)
    → a ≢ b
    → Numbered s
    → find_or_create_dm env a b s ≡ (ok r, s')
    → Reach s' t
    → Answers later a b a b t r × Answers later b a a b t r
find_or_create_dm-again env later a b s s' t r d w h steps =
    let known = Reach-dm r.id a b steps (answer-dm_with env a b s s' r d w h) in
    let f = finds_dm later.pick a b r.id t known in
    let same = one_dm f.0 r.id (is_dm a b t) t.conversations f.2 known in
    (
      (f.0, find_or_create_dm-answers later a b f.0 t f.1, f.2, same),
      (
        f.0,
        find_or_create_dm-answers later b a f.0 t (sym (find_dm_comm later.pick a b t) ∙ f.1),
        f.2,
        same,
      ),
    )
