-- ===== src/Messaging/Conversations.antt =====
-- Creation of conversations, the look-up of a direct conversation, and the membership gate.
--
-- The advisory lock of `find_or_create_dm` makes its transactions on one pair run one after the
-- other, so each is one step here.
pub mod Effects
pub mod Lookup
pub mod Direct
use teri_chat.Prelude.{
  ℕ, zero, suc, ◌-◌, Bool, true, false, not, ◌&&◌, ◌||◌, Option, none, some, List, [], ◌∷◌, ◌++◌,
  map, Result, ok, err, DbError, row_not_found, unique_violation, foreign_key_violation,
  check_violation, Tx, ◌>>◌, pure, raise_if, map_err, transaction, ◌==◌, if◌then◌else◌,
}
use teri_chat.Prelude.Text.{Text, text_eq}
use teri_chat.Table.{find, exists, select, count}
use teri_chat.Messaging.Schema.{
  MessagingError, not_member, database, MsgDb, MsgEnv, ConversationRow, ParticipantRow,
  ConversationInfo, user_with, conversation_row, seat_in, in_conversation, dm_kind, group_kind,
  channel_kind,
}

-- `all.contains(&x)`.
unfoldable pub contains : ℕ → List ℕ → Bool
contains x [] = false
contains x (y ∷ ys) = y == x || contains x ys

abbrev pub known_kind : Text → Bool
known_kind kind = text_eq kind dm_kind || text_eq kind group_kind || text_eq kind channel_kind

-- The given members, with the creator at the end when missing.
abbrev pub with_creator : ℕ → List ℕ → List ℕ
with_creator creator members =
    if contains creator members then members else members ++ (creator ∷ [])

-- The INSERT of a conversation, with the CHECK, the primary key and the reference to its creator.
unfoldable pub insert_conversation_row : ℕ → Text → ℕ → Tx MsgDb DbError (Unit {0})
insert_conversation_row id kind creator db = elim (known_kind kind) [
  | false ↦ err check_violation
  | true ↦ elim (exists (conversation_row id) db.conversations) [
    | true ↦ err unique_violation
    | false ↦ elim (exists (user_with creator) db.users) [
      | false ↦ err foreign_key_violation
      | true ↦ ok (
        tt,
        record db {
          conversations =
              record { id = id; kind = kind; created_by = creator; next_seq = 1 }
              ∷ db.conversations;
        },
      )
    ]
  ]
]

-- `INSERT … ON CONFLICT DO NOTHING` of one participant.
unfoldable pub insert_participant : ℕ → ℕ → Tx MsgDb DbError (Unit {0})
insert_participant c u db = elim (exists (seat_in c u) db.participants) [
  | true ↦ ok (tt, db)
  | false ↦ elim (exists (user_with u) db.users) [
    | false ↦ err foreign_key_violation
    | true ↦ ok (
      tt,
      record db {
        participants =
            record { conversation_id = c; user_id = u; last_read_seq = 0; last_read_at = none }
            ∷ db.participants;
      },
    )
  ]
]

-- `for member in &all`.
unfoldable pub insert_participants : ℕ → List ℕ → Tx MsgDb DbError (Unit {0})
insert_participants c [] db = ok (tt, db)
insert_participants c (u ∷ us) db = elim (insert_participant c u db) [
  | ok (x, s) ↦ insert_participants c us s
  | err e ↦ err e
]

abbrev pub is_empty {ℓ} : {A : Type ℓ} → List A → Bool
is_empty [] = true
is_empty (x ∷ xs) = false

unfoldable pub insert_conversation :
    ℕ → ℕ → Text → List ℕ → Tx MsgDb MessagingError ConversationInfo
insert_conversation id creator kind members = do
  raise_if (not (known_kind kind)) (database row_not_found)
  raise_if (is_empty (with_creator creator members)) (database row_not_found)
  map_err database (insert_conversation_row id kind creator)
  map_err database (insert_participants id (with_creator creator members))
  pure (record { id = id; kind = kind; members = with_creator creator members })

unfoldable pub create_conversation :
    MsgEnv → ℕ → Text → List ℕ → MsgDb → Result MessagingError ConversationInfo × MsgDb
create_conversation env creator kind members =
    transaction (insert_conversation env.conversation_id creator kind members)

-- `p.user_id IN (a, b)`, among the rows of a conversation.
abbrev pub one_of : ℕ → ℕ → ℕ → ParticipantRow → Bool
one_of c a b row = row.conversation_id == c && (row.user_id == a || row.user_id == b)

-- The groups that the look-up keeps: two of the participants are among the pair, and there are no
-- others.
abbrev pub shared_dm : ℕ → ℕ → List ParticipantRow → ConversationRow → Bool
shared_dm a b participants row =
    text_eq row.kind dm_kind
    && count (one_of row.id a b) participants == 2
    && count (one_of row.id a b) participants == count (in_conversation row.id) participants

-- `user_id` of every participant of a conversation.
abbrev pub members_of : ℕ → List ParticipantRow → List ℕ
members_of c participants =
    map (λ (p : ParticipantRow). p.user_id) (select (in_conversation c) participants)

abbrev pub conversation_id_of : Option ConversationRow → Option ℕ
conversation_id_of none = none
conversation_id_of (some row) = some row.id

-- `LIMIT 1` without an order: one of the rows, any of them.
unfoldable pub pick_row : ℕ → List ConversationRow → Option ConversationRow
pick_row n [] = none
pick_row n (row ∷ []) = some row
pick_row zero (row ∷ next ∷ rows) = some row
pick_row (suc n) (row ∷ next ∷ rows) = pick_row n (next ∷ rows)

unfoldable pub find_dm : ℕ → ℕ → ℕ → MsgDb → Option ℕ
unfolding pick_row
find_dm pick a b db =
    conversation_id_of (pick_row pick (select (shared_dm a b db.participants) db.conversations))

-- Both arms after the look-up.
unfoldable pub dm_of : ℕ → ℕ → ℕ → Option ℕ → Tx MsgDb MessagingError ConversationInfo
dm_of id a b (some c) db =
    ok (record { id = c; kind = dm_kind; members = members_of c db.participants }, db)
dm_of id a b none db = insert_conversation id a dm_kind (b ∷ []) db

unfoldable pub find_or_create_dm :
    MsgEnv → ℕ → ℕ → MsgDb → Result MessagingError ConversationInfo × MsgDb
unfolding find_dm dm_of
find_or_create_dm env a b =
    transaction (λ db. dm_of env.conversation_id a b (find_dm env.pick a b db) db)

unfoldable pub is_member : ℕ → ℕ → MsgDb → Bool
is_member c u db = exists (seat_in c u) db.participants

abbrev pub next_seq_of : Option ConversationRow → Option ℕ
next_seq_of none = none
next_seq_of (some row) = some row.next_seq

-- What `publish_typing` hands to its callback: every participant, and the highest `seq`.
unfoldable pub publish_typing : ℕ → ℕ → MsgDb → Result MessagingError (List ℕ × ℕ)
publish_typing c u db = elim (exists (seat_in c u) db.participants) [
  | false ↦ err not_member
  | true ↦ elim (next_seq_of (find (conversation_row c) db.conversations)) [
    | none ↦ err (database row_not_found)
    | some n ↦ ok (members_of c db.participants, n - 1)
  ]
]
