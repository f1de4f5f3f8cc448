-- ===== src/Stats/Exact/Reachable.antt =====
-- The calls that change the tables of the counters, as one step relation, and what every state keeps.
--
-- Users are never deleted. A conversation goes with its channel, and takes its receipts and its
-- counters along. An event goes with the record of its rejection.
use teri_chat.Prelude.{
  ℕ, ◌+◌, ◌≡◌, ◌≤◌, refl, Bool, Option, none, some, List, [], ◌∷◌, arith, ◌==◌, Bool-cases,
  Option-cases, Result-cases, inl, inr, if◌then◌else◌,
}
use mathlib.Core.Path.{subst}
use teri_chat.Prelude.Text.{Text}
use teri_chat.Table.{find, delete, count}
use teri_chat.Table.Laws.{find-delete_other}
use teri_chat.Stats.Schema.{
  EventJson, OutboxEvent, ConversationStats, StatsDb, Receipt, receipt_with, receipt_of, receipt_in,
  stats_in, event_with,
}
use teri_chat.Stats.Counting.{process_event}
use teri_chat.Stats.Counting.Totals.{conversation_total}
use teri_chat.Stats.Worker.{Weather, handle_event, fold_each, fold_new_events, next_batch}
use teri_chat.Stats.Exact.{Exact, Outcome-Exact, process_event-Outcome, handle_event-Outcome}

abbrev pub in_conversation : ℕ → ConversationStats → Bool
in_conversation c row = row.conversation_id == c

abbrev pub receipt_for : ℕ → Receipt → Bool
receipt_for c r = r.conversation_id == c

-- `ON DELETE CASCADE`.
abbrev pub without_conversation : ℕ → StatsDb → StatsDb
without_conversation c db = record db {
  conversations = delete (λ k. k == c) db.conversations;
  processed = delete (receipt_for c) db.processed;
  conversation_stats = delete (in_conversation c) db.conversation_stats;
}

abbrev pub without_event : ℕ → StatsDb → StatsDb
without_event i db = record db {
  outbox = delete (event_with i) db.outbox;
  rejected = delete (λ j. j == i) db.rejected;
}

module _ (parse : Text → Option ℕ) where
  pub data Step (db : StatsDb) : StatsDb → Type 0 where
    event :
        (now i : ℕ) (topic : Text) (payload : EventJson)
        → Step db (process_event parse now i topic payload db).1
    round : (w : Weather) (seen : Option ℕ) → Step db (fold_new_events parse w seen db).db
    user_joins : (u : ℕ) → Step db (record db { users = u ∷ db.users })
    conversation_opens : (c : ℕ) → Step db (record db { conversations = c ∷ db.conversations })
    conversation_goes : (c : ℕ) → Step db (without_conversation c db)
    event_comes : (e : OutboxEvent) → Step db (record db { outbox = e ∷ db.outbox })
    event_goes : (i : ℕ) → Step db (without_event i db)

  pub data Reach (db : StatsDb) : StatsDb → Type 0 where
    start : Reach db db
    step : {s s' : StatsDb} → Reach db s → Step s s' → Reach db s'

  pub fold_each-Exact :
      (w : Weather) (rows : List OutboxEvent) (n : ℕ) (seen : Option ℕ) (db : StatsDb)
      → Exact db
      → Exact (fold_each parse w rows n seen db).db
  unfolding fold_each
  fold_each-Exact w [] n seen db x = x
  fold_each-Exact w (e ∷ rows) n seen db x =
      let after = (handle_event parse w e db).1 in
      let kept = Outcome-Exact e.id db after (handle_event-Outcome parse w e db) x in
      elim (Result-cases (handle_event parse w e db).0) [
        | inr (y, f) ↦ subst Exact {x = after} (ground arith) kept
        | inl (k, f) ↦
            subst Exact {x = (fold_each parse w rows (n + k) (some e.id) after).db} (ground arith)
              (fold_each-Exact w rows (n + k) (some e.id) after kept)
      ]

  fold_new_events-Exact :
      (w : Weather) (seen : Option ℕ) (db : StatsDb)
      → Exact db
      → Exact (fold_new_events parse w seen db).db
  unfolding fold_new_events
  fold_new_events-Exact w seen db x = elim (Option-cases w.query_fails) [
    | inr (y, f) ↦ subst Exact {x = db} (ground arith) x
    | inl f ↦
        subst Exact {x = (fold_each parse w (next_batch db) 0 seen db).db} (ground arith)
          (fold_each-Exact w (next_batch db) 0 seen db x)
  ]

find_gone :
    (u c : ℕ) (rows : List ConversationStats)
    → find (stats_in u c) (delete (in_conversation c) rows) ≡ none
unfolding find delete
find_gone u c [] = refl
find_gone u c (row ∷ rows) = ground (arith, find_gone u c rows)

count_gone :
    (u c k : ℕ) (rows : List Receipt)
    → count (receipt_in u k) (delete (receipt_for c) rows)
      ≡ (if k == c then 0 else count (receipt_in u k) rows)
unfolding count delete
count_gone u c k [] = ground arith
count_gone u c k (r ∷ rows) = ground (arith, count_gone u c k rows)

count_fewer : (p d : Receipt → Bool) (rows : List Receipt) → count p (delete d rows) ≤ count p rows
unfolding count delete
count_fewer p d [] = omega arith
count_fewer p d (r ∷ rows) = ground (arith, count_fewer p d rows)

total_gone :
    (u c k : ℕ) (rows : List ConversationStats)
    → conversation_total u k (delete (in_conversation c) rows)
      ≡ (if k == c then 0 else conversation_total u k rows)
total_gone u c k rows = elim (Bool-cases (k == c)) [
  | inl e ↦ ground (arith, find_gone u c rows)
  | inr n ↦
      ground
        (arith, find-delete_other (stats_in u k) (in_conversation c) rows (λ row h. ground arith))
]

without_conversation-Exact : (c : ℕ) (db : StatsDb) → Exact db → Exact (without_conversation c db)
without_conversation-Exact c db x = record {
  conversation = λ u k. ground (
    arith,
    total_gone u c k db.conversation_stats,
    count_gone u c k db.processed,
    x.conversation u k,
  );
  user = λ u. ground (arith, count_fewer (receipt_of u) (receipt_for c) db.processed, x.user u);
  single =
      λ i. ground (arith, count_fewer (receipt_with i) (receipt_for c) db.processed, x.single i);
}

module _ (parse : Text → Option ℕ) where
  Step-Exact : {s s' : StatsDb} → Step parse s s' → Exact s → Exact s'
  Step-Exact {s} (event now i topic payload) x =
      Outcome-Exact i s (process_event parse now i topic payload s).1
        (process_event-Outcome parse now i topic payload s) x
  Step-Exact {s} (round w seen) x = fold_new_events-Exact parse w seen s x
  Step-Exact (user_joins u) x = record {
    conversation = x.conversation;
    user = x.user;
    single = x.single;
  }
  Step-Exact (conversation_opens c) x = record {
    conversation = x.conversation;
    user = x.user;
    single = x.single;
  }
  Step-Exact {s} (conversation_goes c) x = without_conversation-Exact c s x
  Step-Exact (event_comes e) x = record {
    conversation = x.conversation;
    user = x.user;
    single = x.single;
  }
  Step-Exact (event_goes i) x = record {
    conversation = x.conversation;
    user = x.user;
    single = x.single;
  }

  -- From exact counters every state that the calls reach has exact counters: the counter of a user in
  -- a conversation is the number of the receipts of the user's events for it, the counter of a user is
  -- at least the number of the receipts of the user, and no event has two receipts.
  pub Reach-Exact : {s s' : StatsDb} → Reach parse s s' → Exact s → Exact s'
  Reach-Exact start x = x
  Reach-Exact (step r e) x = Step-Exact e (Reach-Exact r x)
