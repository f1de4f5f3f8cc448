-- ===== src/Stats/Worker/Draining.antt =====
-- The rounds of the worker get through the outbox.
use mathlib.Core.Path.{subst}
use teri_chat.Prelude.{
  ℕ, ◌+◌, ◌-◌, ◌*◌, ◌≡◌, ◌≤◌, ap, refl, suc, Bool, true, false, Option, none, List, [], ◌∷◌, arith,
  Option-cases, inl, inr, drop, length, length-take-le,
}
use teri_chat.Prelude.Text.{Text}
use teri_chat.Table.{exists, select, count, order_by}
use teri_chat.Table.Counts.{count_le_length, length-drop, length-select, length-count}
use teri_chat.Table.Sorting.{count-order_by, count-take-drop}
use teri_chat.Table.Each.{All, order_by-All, select-All, take-All}
use teri_chat.Stats.Schema.{OutboxEvent, StatsDb, event_with}
use teri_chat.Stats.Worker.{
  Weather, fold_each, fold_new_events, next_batch, stats_batch, pending, smaller_event,
  stats_worker,
}
use teri_chat.Stats.Worker.Settling.{Room, less-Room}
use teri_chat.Stats.Worker.Progress.{
  Drawn, Onward, Onward-refl, Onward-then, fold_each-Onward, fold_each-Calm,
}

abbrev pub Calm : Weather → Type 0
Calm w = (w.query_fails ≡ none) × ((i : ℕ) → w.fails i ≡ none)

each_drawn :
    (outbox rows : List OutboxEvent)
    → ((q : OutboxEvent → Bool) → exists q rows ≡ true → exists q outbox ≡ true)
    → All (λ e. exists (event_with e.id) outbox ≡ true) rows
unfolding exists
each_drawn outbox [] h = tt
each_drawn outbox (e ∷ rows) h =
    (h (event_with e.id) (ground arith), each_drawn outbox rows (λ q x. h q (ground arith)))

batch-Drawn : (db : StatsDb) → All (Drawn db.outbox) (next_batch db)
unfolding next_batch
batch-Drawn db =
    take-All (Drawn db.outbox) stats_batch (order_by smaller_event (select (pending db) db.outbox))
      (order_by-All (Drawn db.outbox) smaller_event (select (pending db) db.outbox) (
        select-All (λ e. exists (event_with e.id) db.outbox ≡ true) (Drawn db.outbox) (pending db)
          db.outbox (λ e o p. (ground arith, o)) (each_drawn db.outbox db.outbox (λ q x. x))))

count_implied :
    (p q : OutboxEvent → Bool) (rows : List OutboxEvent)
    → ((e : OutboxEvent) → p e ≡ false → q e ≡ false)
    → count q rows ≤ count p rows
unfolding count
count_implied p q [] h = omega arith
count_implied p q (e ∷ rows) h = ground (arith, h e, count_implied p q rows h)

count_both :
    (p q : OutboxEvent → Bool) (rows : List OutboxEvent)
    → ((e : OutboxEvent) → p e ≡ false → q e ≡ false)
    → count q (select p rows) ≡ count q rows
unfolding count select
count_both p q [] h = refl
count_both p q (e ∷ rows) h = ground (arith, h e, count_both p q rows h)

-- Where of the batch nothing is pending any more.
batch_done :
    (db : StatsDb) (q : OutboxEvent → Bool)
    → ((e : OutboxEvent) → pending db e ≡ false → q e ≡ false)
    → count q (next_batch db) ≡ 0
    → count q db.outbox ≤ count (pending db) db.outbox - stats_batch
unfolding next_batch
batch_done db q h z =
    let rows = select (pending db) db.outbox in
    let sorted = order_by smaller_event rows in
    ground (
      arith,
      count_both (pending db) q db.outbox h,
      count-order_by q smaller_event rows,
      count-take-drop q stats_batch sorted,
      count_le_length q (drop stats_batch sorted),
      length-drop stats_batch sorted,
      length-count sorted,
      count-order_by (λ e. true) smaller_event rows,
      length-count rows,
      length-select (pending db) db.outbox,
    )

batch-length : (db : StatsDb) → length (next_batch db) ≤ stats_batch
unfolding next_batch
batch-length db =
    length-take-le stats_batch (order_by smaller_event (select (pending db) db.outbox))

module _ (parse : Text → Option ℕ) where
  round-Onward :
      (w : Weather) (seen : Option ℕ) (db : StatsDb)
      → Onward stats_batch db (fold_new_events parse w seen db).db
  unfolding fold_new_events
  round-Onward w seen db = elim (Option-cases w.query_fails) [
    | inr (y, f) ↦
        subst (Onward stats_batch db) {x = db} (ground arith)
          (Onward-then 0 stats_batch db db db (Onward-refl 0 db) (Onward-refl stats_batch db))
    | inl f ↦
        let last = (fold_each parse w (next_batch db) 0 seen db).db in
        let more = stats_batch - length (next_batch db) in
        subst (Onward stats_batch db) {x = last} (ground arith) (
          subst (λ m. Onward m db last) (omega (arith, batch-length db))
            (Onward-then (length (next_batch db)) more db last last
              (fold_each-Onward parse w (next_batch db) 0 seen db) (Onward-refl more last)))
  ]

  -- What is pending in the outbox.
  abbrev pub left : StatsDb → ℕ
  left db = count (pending db) db.outbox

  round-left :
      (w : Weather) (seen : Option ℕ) (db : StatsDb)
      → left (fold_new_events parse w seen db).db ≤ left db
  round-left w seen db =
      let after = (fold_new_events parse w seen db).db in
      let o = round-Onward w seen db in
      ground (
        arith,
        ap (count (pending after)) o.outbox,
        count_implied (pending db) (pending after) db.outbox o.settled,
      )

  round-Calm :
      (w : Weather) (seen : Option ℕ) (db : StatsDb)
      → Calm w
      → Room stats_batch db
      → left (fold_new_events parse w seen db).db ≤ left db - stats_batch
  unfolding fold_new_events
  round-Calm w seen db c r =
      let after = (fold_each parse w (next_batch db) 0 seen db).db in
      let o = fold_each-Onward parse w (next_batch db) 0 seen db in
      let z =
        fold_each-Calm parse w (next_batch db) 0 seen db c.1 (batch-Drawn db)
          (less-Room (length (next_batch db)) stats_batch db (batch-length db) r) in
      ground
        (arith, c.0, ap (count (pending after)) o.outbox, batch_done db (pending after) o.settled z)

-- Rounds among which at least `n` are calm.
pub data CalmRounds : ℕ → List Weather → Type 0 where
  none_needed : (rounds : List Weather) → CalmRounds 0 rounds
  calm_round :
      {n : ℕ} {rounds : List Weather} (w : Weather)
      → Calm w
      → CalmRounds n rounds
      → CalmRounds (suc n) (w ∷ rounds)
  any_round :
      {n : ℕ} {rounds : List Weather} (w : Weather)
      → CalmRounds n rounds
      → CalmRounds n (w ∷ rounds)

module _ (parse : Text → Option ℕ) where
  worker-left :
      (rounds : List Weather) (seen : Option ℕ) (db : StatsDb)
      → left parse (stats_worker parse rounds seen db) ≤ left parse db
  unfolding stats_worker
  worker-left [] seen db = omega arith
  worker-left (w ∷ rounds) seen db =
      let round = fold_new_events parse w seen db in
      omega (arith, worker-left rounds round.last_seen round.db, round-left parse w seen db)

  -- If among the rounds of the worker there are calm ones enough for what is pending, 200 events a round,
  -- and the counters have room for 200 events a round, then after the rounds nothing is pending: every
  -- event to be counted has a receipt or the record of its rejection, whatever the database answers in
  -- the other rounds.
  pub stats_worker-drains :
      {n : ℕ} {rounds : List Weather} (seen : Option ℕ) (db : StatsDb)
      → CalmRounds n rounds
      → Room (200 * length rounds) db
      → count (pending db) db.outbox ≤ 200 * n
      → count
          (pending (stats_worker parse rounds seen db))
          (stats_worker parse rounds seen db).outbox
        ≡ 0
  unfolding stats_worker
  stats_worker-drains seen db (none_needed rounds) r l = omega (arith, worker-left rounds seen db)
  stats_worker-drains seen db (calm_round {n} {rounds} w c k) r l =
      let round = fold_new_events parse w seen db in
      stats_worker-drains round.last_seen round.db k
        ((round-Onward parse w seen db).room (200 * length rounds) (
          less-Room (stats_batch + 200 * length rounds) (200 * suc (length rounds)) db (omega arith)
            r))
        (omega (
          arith,
          round-Calm parse w seen db c
              (less-Room stats_batch (200 * suc (length rounds)) db (omega arith) r),
        ))
  stats_worker-drains seen db (any_round {n} {rounds} w k) r l =
      let round = fold_new_events parse w seen db in
      stats_worker-drains round.last_seen round.db k
        ((round-Onward parse w seen db).room (200 * length rounds) (
          less-Room (stats_batch + 200 * length rounds) (200 * suc (length rounds)) db (omega arith)
            r))
        (omega (arith, round-left parse w seen db))
