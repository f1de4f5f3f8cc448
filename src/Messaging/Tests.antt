-- ===== src/Messaging/Tests.antt =====
-- The theorems on conversations, messages and the outbox at a small database.
use teri_chat.Prelude.{
  ◌≡◌, ◌≤◌, ◌-◌, ◌*◌, refl, true, false, none, some, [], ◌∷◌, List, arith, ok, map,
}
use teri_chat.Prelude.Int.{pos, negsuc}
use teri_chat.Table.{find, exists, count, delete}
use teri_chat.Table.Sorting.{range}
use teri_chat.Table.{order_by, insert_sorted, select}
use teri_chat.Messaging.Directory.{list_conversations, join_conversations, ConversationSummary}
use teri_chat.Messaging.Schema.{MsgDb, ParticipantRow, Message, ConversationInfo, seat_in, dm_kind}
use teri_chat.Messaging.Conversations.{find_or_create_dm}
use teri_chat.Messaging.Conversations.Direct.{find_or_create_dm-again, Answers}
use teri_chat.Messaging.Sending.{least, send_message, mark_read, message_history, event_of}
use teri_chat.Messaging.Sending.History.{message_history-range, seq_of, elsewhere}
use teri_chat.Messaging.Outbox.{outbox_batch, Worker, Weather, outbox_worker, is_unpublished}
use teri_chat.Messaging.Outbox.Delivery.{safe, named, waiting}
use teri_chat.Messaging.Outbox.Progress.{calm, worn}
use teri_chat.Messaging.Outbox.Rounds.{outbox_worker-drains}
use teri_chat.Messaging.Commits.{Reach, start, step, direct, send, mark, work, worked}
use teri_chat.Messaging.Commits.Outside.{outside, call, begun, unseated}
use teri_chat.Messaging.Commits.Numbering.{Numbered, next_of}
use teri_chat.Messaging.Commits.Numbered.{Reach-Numbered}
use teri_chat.Messaging.Commits.Retries.{send_message-retry}
use teri_chat.Messaging.Commits.Markers.{mark_read-lasting, mark_read-mark_read}
use teri_chat.Messaging.Sample.{
  base, opened, sent, env_at, message_20, running, sent_run, base-Numbered,
}

-- A later request of user 2 for the same conversation, a read, and a round of the worker.
abbrev read_by_2 : MsgDb
read_by_2 = (mark_read 30 2 10 (pos 9) sent).1

abbrev fine : Weather
fine = record { now = 40; locked = []; claim_fails = false; mark_fails = false }

later : Reach sent (worked fine read_by_2)
later = step (step start (mark 30 2 10 (pos 9))) (work fine)

sent-Reach : Reach base sent
sent-Reach = step (step start (direct (env_at 10) 1 2)) (send (env_at 20) 1 10 77 (5 ∷ []) none)

Reach-Numbered_example : Numbered (worked fine read_by_2)
Reach-Numbered_example = Reach-Numbered later (Reach-Numbered sent-Reach base-Numbered)

sent-Numbered : Numbered sent
sent-Numbered = Reach-Numbered sent-Reach base-Numbered

opened-Numbered : Numbered opened
opened-Numbered = Reach-Numbered (step start (direct (env_at 10) 1 2)) base-Numbered

-- Then user 2 loses the seat.
abbrev kicked_2 : MsgDb
kicked_2 = record (worked fine read_by_2) {
  participants = delete (seat_in 10 2) (worked fine read_by_2).participants;
}

send_message-retry_example :
    send_message (env_at 50) 1 10 77 (6 ∷ []) none kicked_2 ≡ (ok (message_20, false), kicked_2)
send_message-retry_example =
    send_message-retry (env_at 20) (env_at 50) 1 10 77 (5 ∷ []) (6 ∷ []) none none message_20 true
      opened sent kicked_2 sent_run
      (outside (call (call begun (mark 30 2 10 (pos 9))) (work fine)) (unseated 10 2 refl) refl)
      refl

read_run : mark_read 30 2 10 (pos 9) sent ≡ (ok 1, read_by_2)
unfolding running
read_run = refl

mark_read-lasting_example :
    (p : ParticipantRow) × (find (seat_in 10 2) (worked fine read_by_2).participants ≡ some p)
    × (1 ≤ p.last_read_seq)
mark_read-lasting_example =
    mark_read-lasting 30 2 10 (pos 9) 1 sent read_by_2 (worked fine read_by_2) read_run
      (call begun (work fine))

mark_read-mark_read_example :
    (mark_read 30 2 10 (pos 1) (mark_read 30 2 10 (pos 0) sent).1).1
    ≡ (mark_read 30 2 10 (pos 0) (mark_read 30 2 10 (pos 1) sent).1).1
mark_read-mark_read_example = mark_read-mark_read 30 2 10 (pos 0) (pos 1) sent

abbrev seat_of_2 : ParticipantRow
seat_of_2 = record { conversation_id = 10; user_id = 2; last_read_seq = 0; last_read_at = none }

seat_2 : find (seat_in 10 2) opened.participants ≡ some seat_of_2
unfolding running
seat_2 = refl

member_2 : exists (seat_in 10 2) sent.participants ≡ true
unfolding running
member_2 = refl

message_history-range_example :
    (page : List Message) × (message_history 2 10 (negsuc 0) (pos 50) sent ≡ ok page)
    × (map seq_of page ≡ range 1 (least 50 (next_of 10 sent.conversations - 1 - 0)))
    × (exists (elsewhere 10) page ≡ false)
message_history-range_example =
    message_history-range 2 10 (negsuc 0) (pos 50) sent sent-Numbered member_2

abbrev dm_10 : ConversationInfo
dm_10 = record { id = 10; kind = dm_kind; members = 2 ∷ 1 ∷ [] }

opened_run : find_or_create_dm (env_at 10) 1 2 base ≡ (ok dm_10, opened)
unfolding running
opened_run = refl

find_or_create_dm-again_example :
    Answers (env_at 60) 1 2 1 2 sent dm_10 × Answers (env_at 60) 2 1 1 2 sent dm_10
find_or_create_dm-again_example =
    find_or_create_dm-again (env_at 10) (env_at 60) 1 2 base opened sent dm_10
      (λ e. absurd (omega arith)) base-Numbered opened_run
      (step start (send (env_at 20) 1 10 77 (5 ∷ []) none))

-- The worker on the event of the message: a round in which the stamp fails, and a calm one.
abbrev waits : Worker
waits = record { outbox = event_of 20 message_20 ∷ []; sent = [] }

abbrev stormy : Weather
stormy = record { now = 39; locked = []; claim_fails = false; mark_fails = true }

waits_not_worn : exists (worn 2) waits.outbox ≡ false
unfolding exists
waits_not_worn = ground arith

waits_few : count is_unpublished waits.outbox ≤ outbox_batch * count calm (stormy ∷ fine ∷ [])
unfolding count
waits_few = ground arith

waits_for_20 : exists (waiting 20) waits.outbox ≡ true
unfolding exists
waits_for_20 = refl

waits-safe : safe 20 waits ≡ true
unfolding exists
waits-safe = refl

outbox_worker-drains_example :
    (count is_unpublished (outbox_worker (stormy ∷ fine ∷ []) waits).outbox ≡ 0)
    × (exists (named 20) (outbox_worker (stormy ∷ fine ∷ []) waits).sent ≡ true)
outbox_worker-drains_example =
    outbox_worker-drains 20 (stormy ∷ fine ∷ []) waits waits_not_worn waits_few waits_for_20

directory_run : map (λ (s : ConversationSummary). s.id) (list_conversations 2 sent) ≡ 10 ∷ []
unfolding running list_conversations join_conversations order_by insert_sorted find select
directory_run = refl
