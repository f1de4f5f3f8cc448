-- ===== src/Messaging/Commits/Founding.antt =====
-- A new conversation keeps the numbering.
use teri_chat.Prelude.{ℕ, ◌≡◌, ◌<◌, ◌≤◌, inl, inr, some, arith, ◌==◌, Bool-cases}
use teri_chat.Table.{find}
use teri_chat.Messaging.Schema.{MsgDb, ConversationRow, ParticipantRow, conversation_row, seat_in}
use teri_chat.Messaging.Conversations.Effects.{Founded}
use teri_chat.Messaging.Commits.Numbering.{
  next_of, once, Numbered, next_of-new, next_of-none, once_none, once_first,
}

Founded-next :
    {s s' : MsgDb} (c k n : ℕ)
    → Founded c s s'
    → once n (next_of k s'.conversations) ≡ once n (next_of k s.conversations)
Founded-next {s} {s'} c k n f = elim (Bool-cases (c == k)) [
  | inl e ↦ ground (
    arith,
    f.conversations,
    next_of-new c k f.row s.conversations f.row_id f.row_next f.is_new,
    next_of-none c k s.conversations f.is_new e,
    once_none n,
    once_first n,
  )
  | inr e ↦
      ground
        (arith, f.conversations, next_of-new c k f.row s.conversations f.row_id f.row_next f.is_new)
]

Founded-started :
    {s s' : MsgDb} (c : ℕ)
    → Founded c s s'
    → Numbered s
    → (k : ℕ) (row : ConversationRow) → find (conversation_row k) s'.conversations ≡ some row
    → 1 ≤ row.next_seq
unfolding find
Founded-started {s} {s'} c f w k row e =
    ground (arith, f.conversations, f.row_next, w.started k row)

Founded-behind :
    {s s' : MsgDb} (c : ℕ)
    → Founded c s s'
    → Numbered s
    → (k u : ℕ) (p : ParticipantRow) → find (seat_in k u) s'.participants ≡ some p
    → p.last_read_seq < next_of k s'.conversations
Founded-behind {s} {s'} c f w k u p e = elim (f.new_seats k u p e) [
  | inl old ↦ ground (
    arith,
    f.conversations,
    next_of-new c k f.row s.conversations f.row_id f.row_next f.is_new,
    next_of-none c k s.conversations f.is_new,
    w.behind k u p old,
  )
  | inr (new_seat, zero_read) ↦
      ground
        (arith, f.conversations, next_of-new c k f.row s.conversations f.row_id f.row_next f.is_new)
]

pub Founded-Numbered : {s s' : MsgDb} (c : ℕ) → Founded c s s' → Numbered s → Numbered s'
Founded-Numbered {s} {s'} c f w = record {
  started = λ k row e. Founded-started c f w k row e;
  numbered = λ k n. ground (arith, f.same_messages, Founded-next c k n f, w.numbered k n);
  announced = λ k n. ground (arith, f.same_outbox, Founded-next c k n f, w.announced k n);
  behind = λ k u p e. Founded-behind c f w k u p e;
}
