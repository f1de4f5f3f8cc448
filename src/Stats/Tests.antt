-- ===== src/Stats/Tests.antt =====
-- The theorems on the counters at a small outbox: two messages, one of them by an unknown user, an event
-- that names nobody, and one of another topic.
use teri_chat.Prelude.{
  ℕ, ◌≡◌, ◌≤◌, ◌↔◌, refl, true, false, Option, none, some, [], ◌∷◌, arith, length, ◌*◌, ok,
  foreign_key_violation,
}
use teri_chat.Prelude.Text.{Text, codes, text_eq}
use teri_chat.Table.{find, exists, select, count, update, order_by, insert_sorted}
use teri_chat.Messaging.Conversations.{contains}
use teri_chat.Auth.Schema.{SessionRow, session_with}
use teri_chat.Auth.Management.{own_live}
use teri_chat.Workspaces.Schema.{seat_of}
use teri_chat.Workspaces.Access.{is_banned}
use teri_chat.Workspaces.Sample.{sample}
use teri_chat.Stats.Reads.{authorized_read, own_workspace_stats, sum_counts, max_last}
use teri_chat.Stats.Reads.Gates.{authorized_read_iff}
use teri_chat.Stats.Schema.{StatsDb, EventJson}
use teri_chat.Stats.Counting.{
  process_event, record_message, insert_receipt, raise_counters, upsert_user, upsert_conversation,
  event_ids,
}
use teri_chat.Stats.Counting.Totals.{conversation_total}
use teri_chat.Stats.Worker.{
  Weather, stats_worker, fold_new_events, fold_each, handle_event, reject_event, next_batch,
  pending,
}
use teri_chat.Stats.Worker.Settling.{Room}
use teri_chat.Stats.Worker.Draining.{calm_round, any_round, none_needed, Calm}
use teri_chat.Stats.Worker.Handling.{message_by, known}
use teri_chat.Stats.Worker.Reference.{Faithful, stats_worker-counts}
use teri_chat.Stats.Exact.{Exact}
use teri_chat.Stats.Exact.Reachable.{
  start, step, round, conversation_goes, without_conversation, Reach-Exact,
}

-- An id is a text of one code.
abbrev parse : Text → Option ℕ
parse [] = none
parse (c ∷ []) = some c
parse (c ∷ d ∷ s) = none

abbrev sent_by : Option Text → EventJson
sent_by actor = record { actor_id = actor; conversation_id = some (10 ∷ []) }

abbrev fresh : StatsDb
fresh = record {
  users = 1 ∷ [];
  conversations = 10 ∷ [];
  outbox =
      record { id = 4; topic = codes "message.created"; payload = sent_by (some (1 ∷ [])) }
      ∷ record { id = 3; topic = codes "typing"; payload = sent_by (some (1 ∷ [])) }
      ∷ record { id = 2; topic = codes "message.created"; payload = sent_by none }
      ∷ record { id = 1; topic = codes "message.created"; payload = sent_by (some (9 ∷ [])) }
      ∷ [];
  processed = [];
  rejected = [];
  user_stats = [];
  conversation_stats = [];
}

unfoldable running : Unit {0}
unfolding find exists select count update order_by insert_sorted text_eq contains process_event
    record_message insert_receipt raise_counters upsert_user upsert_conversation event_ids
    stats_worker fold_new_events fold_each handle_event reject_event next_batch
running = tt

abbrev calm : Weather
calm = record { query_fails = none; fails = λ i. none; now = λ i. i }

abbrev stormy : Weather
stormy = record { query_fails = none; fails = λ i. some foreign_key_violation; now = λ i. i }

-- The round counts the message, and rejects the two others.
abbrev folded : StatsDb
folded = record fresh {
  processed = record { event_id = 4; user_id = 1; conversation_id = 10 } ∷ [];
  rejected = 2 ∷ 1 ∷ [];
  user_stats = record { user_id = 1; message_count = 1; last_message_at = some 4 } ∷ [];
  conversation_stats =
      record { user_id = 1; conversation_id = 10; message_count = 1; last_message_at = some 4 }
      ∷ [];
}

worker_run : stats_worker parse (stormy ∷ calm ∷ []) none fresh ≡ folded
unfolding running
worker_run = refl

calm_lem : Calm calm
calm_lem = (refl, λ i. refl)

fresh-Room : Room (200 * length (stormy ∷ calm ∷ [])) fresh
unfolding find
fresh-Room = record { user = λ u. omega arith; conversation = λ u c. omega arith }

fresh_pending : count (pending fresh) fresh.outbox ≤ 200 * 1
unfolding running
fresh_pending = omega arith

fresh-Faithful : Faithful parse fresh
unfolding find exists count contains
fresh-Faithful = record {
  unique = λ i. ground arith;
  conversation = λ u c. ground arith;
  rejected = λ e u c i r m. ground arith;
}

one_known : known 1 10 fresh ≡ true
unfolding running
one_known = refl

stats_worker-counts_example :
    conversation_total 1 10 (stats_worker parse (stormy ∷ calm ∷ []) none fresh).conversation_stats
    ≡ count (message_by parse 1 10) fresh.outbox
stats_worker-counts_example =
    stats_worker-counts parse 1 10 none fresh
      (any_round stormy (calm_round calm calm_lem (none_needed []))) fresh-Room fresh_pending
      fresh-Faithful one_known

fresh-Exact : Exact fresh
unfolding find count
fresh-Exact = record {
  conversation = λ u c. refl;
  user = λ u. omega arith;
  single = λ i. omega arith;
}

Reach-Exact_example : Exact (without_conversation 10 (fold_new_events parse calm none fresh).db)
Reach-Exact_example =
    Reach-Exact parse (step (step start (round calm none)) (conversation_goes 10)) fresh-Exact

abbrev own_row : SessionRow
own_row = record {
  id = 70;
  user_id = 3;
  device_id = none;
  token_hash = [];
  created_at = 0;
  expires_at = 100;
  revoked_at = none;
}

one_session : count (session_with 70) (own_row ∷ []) ≤ 1
unfolding running
one_session = omega arith

authorized_read_iff_example : (authorized_read 50 3 70 10 (own_row ∷ []) sample ≡ ok tt) ↔ (
    (exists (own_live 50 3 70) (own_row ∷ []) ≡ true)
    × (is_banned 10 3 sample ≡ false)
    × (exists (seat_of 10 3) sample.members ≡ true))
authorized_read_iff_example = authorized_read_iff 50 3 70 10 (own_row ∷ []) sample one_session

-- The member of the sample reads the counters of its channel; the row of the conversation is of another.
own_run :
    own_workspace_stats 50 3 70 10 (own_row ∷ []) sample folded
    ≡ ok (record { user_id = 3; workspace_id = 10; message_count = 0; last_message_at = none })
unfolding running authorized_read own_workspace_stats is_banned sum_counts max_last
own_run = refl
