-- ===== src/Messaging/Commits/Numbering.antt =====
-- The messages of a conversation are numbered without gap or repeat, each has one event in the
-- outbox, and no marker is ahead of them.
use teri_chat.Prelude.{
  ℕ, ◌≡◌, ap, ◌+◌, ◌<◌, ◌≤◌, refl, true, false, none, some, List, ◌∷◌, arith, ◌==◌, if◌then◌else◌,
  ◌&&◌, ltb, leb,
}
use teri_chat.Table.{find, exists, update, count}
use teri_chat.Table.Laws.{exists-eq-is_some, find-update_hit, find-update_miss}
use teri_chat.Messaging.Schema.{
  MsgDb, ConversationRow, ParticipantRow, conversation_row, seat_in, at_seq,
}
use teri_chat.Messaging.Sending.Effects.{bump}
use teri_chat.Messaging.Commits.Changes.{announces}

-- The next number of a conversation, and 0 where there is none.
unfoldable pub next_of : ℕ → List ConversationRow → ℕ
next_of c rows = elim (find (conversation_row c) rows) [ none ↦ 0 | some row ↦ row.next_seq ]

-- 1 for the numbers that are given out, and 0 for the others.
unfoldable pub once : ℕ → ℕ → ℕ
once n next = if leb 1 n && ltb n next then 1 else 0

pub record Numbered (db : MsgDb) : Type 0 where
  pub started :
      (c : ℕ) (row : ConversationRow)
      → find (conversation_row c) db.conversations ≡ some row
      → 1 ≤ row.next_seq
  pub numbered : (c n : ℕ) → count (at_seq c n) db.messages ≡ once n (next_of c db.conversations)
  pub announced : (c n : ℕ) → count (announces c n) db.outbox ≡ once n (next_of c db.conversations)
  pub behind :
      (c u : ℕ) (p : ParticipantRow)
      → find (seat_in c u) db.participants ≡ some p
      → p.last_read_seq < next_of c db.conversations

-- A new row gives its conversation the number 1, and no other has another number.
pub next_of-new :
    (c k : ℕ) (row : ConversationRow) (rows : List ConversationRow)
    → row.id ≡ c
    → row.next_seq ≡ 1
    → exists (conversation_row c) rows ≡ false
    → next_of k (row ∷ rows) ≡ (if c == k then 1 else next_of k rows)
unfolding next_of find
next_of-new c k row rows e f n = ground arith

-- A conversation that does not exist has no number.
pub next_of-none :
    (c k : ℕ) (rows : List ConversationRow)
    → exists (conversation_row c) rows ≡ false
    → (c == k) ≡ true
    → next_of k rows ≡ 0
unfolding next_of find
next_of-none c k rows n e = ground (arith, exists-eq-is_some (conversation_row c) rows)

pub next_of-hit :
    (c : ℕ) (row : ConversationRow) (rows : List ConversationRow)
    → find (conversation_row c) rows ≡ some row
    → next_of c (update (conversation_row c) bump rows) ≡ row.next_seq + 1
unfolding next_of
next_of-hit c row rows f = ground (
  arith,
  find-update_hit (conversation_row c) (conversation_row c) bump rows (λ x h. h) (λ x. refl),
)

pub next_of-row :
    (c : ℕ) (row : ConversationRow) (rows : List ConversationRow)
    → find (conversation_row c) rows ≡ some row
    → next_of c rows ≡ row.next_seq
unfolding next_of
next_of-row c row rows f = ground arith

pub next_of-miss :
    (c k : ℕ) (rows : List ConversationRow)
    → (c == k) ≡ false
    → next_of k (update (conversation_row c) bump rows) ≡ next_of k rows
unfolding next_of
next_of-miss c k rows n =
    ap (λ o. elim o [ none ↦ 0 | some row ↦ row.next_seq ])
      (find-update_miss (conversation_row k) (conversation_row c) bump rows (λ x h. ground arith)
        (λ x. refl))

-- One more number is given out.
pub once_next :
    (n next : ℕ) → 1 ≤ next → once n (next + 1) ≡ (if next == n then 1 else 0) + once n next
unfolding once
once_next n next h = ground arith

-- No number is given out before the first.
pub once_none : (n : ℕ) → once n 0 ≡ 0
unfolding once
once_none n = ground arith

pub once_first : (n : ℕ) → once n 1 ≡ 0
unfolding once
once_first n = ground arith
