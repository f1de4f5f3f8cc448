-- ===== src/Messaging/Commits/Dms.antt =====
-- A direct conversation of two users stays one, whatever messaging calls and rounds follow.
use mathlib.Core.Path.{subst, sym}
use teri_chat.Prelude.{
  ℕ, ◌≡◌, ◌≢◌, ◌∙◌, ap, refl, Bool, true, ◌&&◌, List, [], ◌∷◌, arith, ◌==◌, Bool-cases, inl, inr,
}
use teri_chat.Table.{exists, count, update}
use teri_chat.Table.Laws.{count-update}
use teri_chat.Messaging.Schema.{
  MsgDb, ConversationRow, ParticipantRow, conversation_row, in_conversation, seat_in,
}
use teri_chat.Messaging.Conversations.{shared_dm, one_of}
use teri_chat.Messaging.Conversations.Effects.{Founded}
use teri_chat.Messaging.Conversations.Lookup.{is_dm, dm_with}
use teri_chat.Messaging.Sending.{caught_up}
use teri_chat.Messaging.Sending.Effects.{bump, read_at}
use teri_chat.Messaging.Commits.{Reach, start, step}
use teri_chat.Messaging.Commits.Changes.{
  Change, same, founded, appended, marked, delivered, marker_set, Step-Change,
}

-- The counts that decide whether the conversation `i` is a direct one of the two.
abbrev SameCounts : ℕ → ℕ → ℕ → List ParticipantRow → List ParticipantRow → Type 0
SameCounts i a b rows rows' =
    (count (one_of i a b) rows' ≡ count (one_of i a b) rows)
    × (count (in_conversation i) rows' ≡ count (in_conversation i) rows)

same_dm :
    (i a b : ℕ) (rows rows' : List ParticipantRow) (row : ConversationRow)
    → SameCounts i a b rows rows'
    → row.id ≡ i
    → shared_dm a b rows' row ≡ shared_dm a b rows row
same_dm i a b rows rows' row h e = ground (
  arith,
  h,
  ap (λ k. count (one_of k a b) rows') e,
  ap (λ k. count (one_of k a b) rows) e,
  ap (λ k. count (in_conversation k) rows') e,
  ap (λ k. count (in_conversation k) rows) e,
)

-- Rows under the condition of a direct conversation, when the counts are the same.
recounted :
    (i a b : ℕ) (rows rows' : List ParticipantRow) (conversations : List ConversationRow)
    → SameCounts i a b rows rows'
    → exists (λ (row : ConversationRow). row.id == i && shared_dm a b rows' row) conversations
      ≡ exists (λ (row : ConversationRow). row.id == i && shared_dm a b rows row) conversations
unfolding exists
recounted i a b rows rows' [] h = refl
recounted i a b rows rows' (x ∷ conversations) h = elim (Bool-cases (x.id == i)) [
  | inl e ↦
      let e' : x.id ≡ i = ground arith in
      ground (arith, same_dm i a b rows rows' x h e', recounted i a b rows rows' conversations h)
  | inr e ↦ ground (arith, recounted i a b rows rows' conversations h)
]

bumped :
    (i c a b : ℕ) (rows : List ParticipantRow) (conversations : List ConversationRow)
    → exists
        (λ (row : ConversationRow). row.id == i && shared_dm a b rows row)
        (update (conversation_row c) bump conversations)
      ≡ exists (λ (row : ConversationRow). row.id == i && shared_dm a b rows row) conversations
unfolding exists update
bumped i c a b rows [] = refl
bumped i c a b rows (x ∷ conversations) = ground (arith, bumped i c a b rows conversations)

there :
    (i a b : ℕ) (rows : List ParticipantRow) (conversations : List ConversationRow)
    → exists (λ (row : ConversationRow). row.id == i && shared_dm a b rows row) conversations ≡ true
    → exists (conversation_row i) conversations ≡ true
unfolding exists
there i a b rows [] h = h
there i a b rows (x ∷ conversations) h = ground (arith, there i a b rows conversations)

Founded-dm :
    (i a b c : ℕ) (s s' : MsgDb) → Founded c s s' → dm_with i a b s ≡ true → dm_with i a b s' ≡ true
unfolding exists
Founded-dm i a b c s s' f h =
    let apart : i ≢ c = λ e. absurd (
      ground (
        arith,
        there i a b s.participants s.conversations h,
        f.is_new,
        ap (λ k. exists (conversation_row k) s.conversations) e,
      )) in
    let counts : SameCounts i a b s.participants s'.participants = (
      f.others (one_of i a b) (λ p e. ground (arith, apart)),
      f.others (in_conversation i) (λ p e. ground (arith, apart)),
    ) in
    ground (
      arith,
      ap (exists (λ (row : ConversationRow). row.id == i && is_dm a b s' row)) f.conversations,
      recounted i a b s.participants s'.participants s.conversations counts,
      h,
    )

updated_counts :
    (i a b : ℕ) (d : ParticipantRow → Bool) (f : ParticipantRow → ParticipantRow)
    (rows : List ParticipantRow)
    → ((p : ParticipantRow) → one_of i a b (f p) ≡ one_of i a b p)
    → ((p : ParticipantRow) → in_conversation i (f p) ≡ in_conversation i p)
    → SameCounts i a b rows (update d f rows)
updated_counts i a b d f rows h k =
    (count-update (one_of i a b) d f rows h, count-update (in_conversation i) d f rows k)

Change-dm :
    (i a b : ℕ) {s s' : MsgDb} → Change s s' → dm_with i a b s ≡ true → dm_with i a b s' ≡ true
Change-dm i a b (same e) h = subst (λ z. dm_with i a b z ≡ true) (sym e) h
Change-dm i a b {s} {s'} (founded c f) h = Founded-dm i a b c s s' f h
Change-dm i a b {s} (appended event_id m row f n q e) h =
    subst (λ z. dm_with i a b z ≡ true) (sym e)
      (bumped i m.conversation_id a b
          (update (caught_up m.conversation_id m.sender_id m.seq) (read_at m.seq) s.participants)
          s.conversations
        ∙ recounted i a b s.participants
            (update (caught_up m.conversation_id m.sender_id m.seq) (read_at m.seq) s.participants)
            s.conversations
            (updated_counts i a b (caught_up m.conversation_id m.sender_id m.seq) (read_at m.seq)
              s.participants (λ p. refl) (λ p. refl))
        ∙ h)
Change-dm i a b {s} (marked now v d seq row f e) h =
    subst (λ z. dm_with i a b z ≡ true) (sym e)
      (recounted i a b s.participants
          (update (seat_in d v) (marker_set now seq row.next_seq) s.participants) s.conversations
          (updated_counts i a b (seat_in d v) (marker_set now seq row.next_seq) s.participants
            (λ p. refl) (λ p. refl))
        ∙ h)
Change-dm i a b (delivered rows t e) h = subst (λ z. dm_with i a b z ≡ true) (sym e) h

pub Reach-dm :
    (i a b : ℕ) {s s' : MsgDb} → Reach s s' → dm_with i a b s ≡ true → dm_with i a b s' ≡ true
Reach-dm i a b start h = h
Reach-dm i a b (step r e) h = Change-dm i a b (Step-Change e) (Reach-dm i a b r h)
