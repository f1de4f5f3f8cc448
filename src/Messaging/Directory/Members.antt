-- ===== src/Messaging/Directory/Members.antt =====
-- The rows of the list are conversations of the user, and their members share them.
use mathlib.Core.Path.{subst}
use teri_chat.Prelude.{
  ℕ, ◌≡◌, Bool, true, false, ◌&&◌, none, some, List, [], ◌∷◌, map, arith, ◌==◌, Bool-cases,
  Option-cases, inl, inr,
}
use teri_chat.Table.{find, exists, select}
use teri_chat.Table.Laws.{find_sound}
use teri_chat.Table.Each.{All}
use teri_chat.Messaging.Schema.{
  MsgDb, ConversationRow, ParticipantRow, conversation_row, in_conversation, seat_in,
}
use teri_chat.Messaging.Directory.{ConversationListRow, list_row, join_conversations, has_profiles}

-- Whether a conversation is direct or a group.
abbrev pub with_profiles : ℕ → MsgDb → Bool
with_profiles c db = elim (find (conversation_row c) db.conversations) [
  | none ↦ false
  | some row ↦ has_profiles row.kind
]

abbrev pub shares_by : ℕ → ℕ → MsgDb → ParticipantRow → Bool
shares_by u v db p =
    p.user_id == u
    && with_profiles p.conversation_id db
    && exists (seat_in p.conversation_id v) db.participants

-- Two users who take part in the same direct conversation or group.
unfoldable pub shares : ℕ → ℕ → MsgDb → Bool
shares u v db = exists (shares_by u v db) db.participants

-- Rows of a table that are rows of another.
abbrev pub Within : List ParticipantRow → List ParticipantRow → Type 0
Within ps qs = (q : ParticipantRow → Bool) → exists q ps ≡ true → exists q qs ≡ true

module _ (u : ℕ) (db : MsgDb) where
  abbrev pub InScope : ConversationListRow → Type 0
  InScope r =
      (exists (seat_in r.id u) db.participants ≡ true)
      × ((v : ℕ)
          → has_profiles r.kind ≡ true
          → exists (seat_in r.id v) db.participants ≡ true
          → shares u v db ≡ true)

  row-InScope :
      (p : ParticipantRow) (ps : List ParticipantRow) (c : ConversationRow)
      → Within (p ∷ ps) db.participants
      → (p.user_id == u) ≡ true
      → find (conversation_row p.conversation_id) db.conversations ≡ some c
      → InScope (list_row db p c)
  unfolding exists shares
  row-InScope p ps c h e f =
      let same = find_sound (conversation_row p.conversation_id) {x = c} db.conversations f in
      (h (seat_in c.id u) (ground arith), λ v k s. h (shares_by u v db) (ground arith))

  pub join-InScope :
      (ps : List ParticipantRow)
      → Within ps db.participants
      → All InScope (join_conversations u db ps)
  unfolding join_conversations exists
  join-InScope [] h = tt
  join-InScope (p ∷ ps) h =
      let rest = join-InScope ps (λ q e. h q (ground arith)) in
      elim (Bool-cases (p.user_id == u)) [
        | inr n ↦ subst (All InScope) (ground arith) rest
        | inl e ↦ elim (Option-cases (find (conversation_row p.conversation_id) db.conversations)) [
          | inl f ↦ subst (All InScope) (ground arith) rest
          | inr (c, f) ↦
              let kept : All InScope (list_row db p c ∷ join_conversations u db ps) =
                (row-InScope p ps c h e f, rest) in
              subst (All InScope) {x = list_row db p c ∷ join_conversations u db ps} (ground arith)
                kept
        ]
      ]

  abbrev pub SeatedIn : ℕ → ℕ → Type 0
  SeatedIn c v = exists (seat_in c v) db.participants ≡ true

  pub members-SeatedIn :
      (c : ℕ) (ps : List ParticipantRow)
      → Within ps db.participants
      → All (SeatedIn c) (map (λ (p : ParticipantRow). p.user_id) (select (in_conversation c) ps))
  unfolding select exists
  members-SeatedIn c [] h = tt
  members-SeatedIn c (p ∷ ps) h =
      let rest = members-SeatedIn c ps (λ q e. h q (ground arith)) in
      elim (Bool-cases (in_conversation c p)) [
        | inr n ↦
            subst (λ rows. All (SeatedIn c) (map (λ (p : ParticipantRow). p.user_id) rows))
              (ground arith) rest
        | inl n ↦
            let kept : All (SeatedIn c)
                (map (λ (p : ParticipantRow). p.user_id) (p ∷ select (in_conversation c) ps)) =
              (h (seat_in c p.user_id) (ground arith), rest) in
            subst (λ rows. All (SeatedIn c) (map (λ (p : ParticipantRow). p.user_id) rows))
              {x = p ∷ select (in_conversation c) ps} (ground arith) kept
      ]
