-- ===== src/Gateway/Replay.antt =====
-- The replay of missed events: one page at a time, up to the newest event at its start.
pub mod Pages
pub mod Catchup
pub mod Complete
use teri_chat.Prelude.{
  ℕ, Bool, true, false, Option, none, some, List, [], ◌∷◌, ◌++◌, ok, err, ltb, leb, if◌then◌else◌,
  ◌==◌, not, ◌||◌,
}
use teri_chat.Prelude.Int.{ℤ, pos}
use teri_chat.Table.{exists, order_by}
use teri_chat.Workspaces.Schema.{Db, Participant}
use teri_chat.Workspaces.Healing.{ensure_all_participation}
use teri_chat.Messaging.Schema.{MsgDb, StoredEvent, OutboxEntry, ParticipantRow, seat_in}
use teri_chat.Messaging.Outbox.{events_after}
use teri_chat.Gateway.Schema.{World}

pub record Replay : Type 0 where
  pub cursor : Option ℕ
  pub ceiling : Option ℕ
  pub pending : List OutboxEntry
  pub done : Bool

abbrev pub larger_id : StoredEvent → StoredEvent → Bool
larger_id d e = ltb e.id d.id

abbrev pub first_id : List StoredEvent → Option ℕ
first_id [] = none
first_id (e ∷ es) = some e.id

-- `SELECT id FROM outbox ORDER BY id DESC LIMIT 1`.
unfoldable pub newest : List StoredEvent → Option ℕ
newest outbox = first_id (order_by larger_id outbox)

-- The seats of the user that the healing has added, in the table as messaging.rs sees it.
unfoldable pub copy_seats : ℕ → List Participant → List ParticipantRow → List ParticipantRow
copy_seats user_id [] rows = rows
copy_seats user_id (p ∷ seats) rows =
    let rest = copy_seats user_id seats rows in
    if not (p.user_id == user_id) || exists (seat_in p.conversation_id p.user_id) rest
    then rest
    else record {
      conversation_id = p.conversation_id;
      user_id = p.user_id;
      last_read_seq = 0;
      last_read_at = none;
    }
      ∷ rest

abbrev pub with_seats : ℕ → Db → World → World
with_seats user_id tables w = record w {
  tables = tables;
  messages = record (w.messages) {
    participants = copy_seats user_id tables.participants (w.messages.participants);
  };
}

unfoldable pub heal : ℕ → World → World
unfolding copy_seats
heal user_id w = elim (ensure_all_participation user_id w.tables) [
  | ok (_, tables) ↦ with_seats user_id tables w
  | err e ↦ w
]

abbrev pub is_none {ℓ} : {A : Type ℓ} → Option A → Bool
is_none none = true
is_none (some a) = false

abbrev pub replay_from : Option ℕ → Option ℕ → Replay
replay_from cursor ceiling = record {
  cursor = cursor;
  ceiling = ceiling;
  pending = [];
  done = is_none ceiling;
}

-- `Replay::start`, where `answers` says whether both of its database steps come back in time.
unfoldable pub start : Bool → ℕ → Option ℕ → World → Option Replay × World
unfolding heal newest
start false user_id cursor w = (none, w)
start true user_id cursor w =
    let healed = heal user_id w in
    (some (replay_from cursor (newest healed.messages.outbox)), healed)

-- `a >= b` on `Option<Uuid>`: `None` is the least.
abbrev pub at_least : Option ℕ → Option ℕ → Bool
at_least a none = true
at_least none (some b) = false
at_least (some a) (some b) = leb b a

abbrev pub above : Option ℕ → ℕ → Bool
above none i = false
above (some ceiling) i = ltb ceiling i

-- The loop over a page: it ends at the first event above the ceiling.
unfoldable pub absorb : List OutboxEntry → Replay → Replay
absorb [] r = r
absorb (e ∷ page) r =
    let rest = absorb page (record r { cursor = some e.id; pending = r.pending ++ (e ∷ []) }) in
    if above r.ceiling e.id then r else rest

-- `pop_front`.
abbrev pub pop : Replay → List OutboxEntry → Option OutboxEntry × Replay
pop r [] = (none, r)
pop r (e ∷ entries) = (some e, record r { pending = entries })

abbrev pub finish_if_empty : Replay → List OutboxEntry → Replay
finish_if_empty r [] = record r { done = true }
finish_if_empty r (e ∷ entries) = r

abbrev pub page_limit : ℤ
page_limit = pos 100

-- The branch of `next` with no event pending.
unfoldable pub fetch : ℕ → MsgDb → Replay → Option OutboxEntry × Replay
unfolding absorb
fetch user_id db r =
    if at_least r.cursor r.ceiling
    then (none, record r { done = true })
    else (let filled = absorb (events_after user_id r.cursor page_limit db) r in
        pop (finish_if_empty filled filled.pending) filled.pending)

abbrev pub next_of_pending : ℕ → MsgDb → Replay → List OutboxEntry → Option OutboxEntry × Replay
next_of_pending user_id db r [] = fetch user_id db r
next_of_pending user_id db r (e ∷ entries) = (some e, record r { pending = entries })

-- `Replay::next`, where the query answers.
unfoldable pub next : ℕ → MsgDb → Replay → Option OutboxEntry × Replay
unfolding fetch
next user_id db r = next_of_pending user_id db r r.pending
