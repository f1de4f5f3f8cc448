-- ===== src/Stats/Worker/Reference.antt =====
-- The counters against the number of the messages in the outbox.
--
-- Here the tables that others write stand still, and ids in the outbox are unique.
use mathlib.Core.Path.{subst, sym}
use teri_chat.Prelude.{
  ℕ, ◌+◌, ◌*◌, ◌≡◌, ◌≤◌, ap, refl, ◌∙◌, Bool, true, false, ◌&&◌, ◌||◌, Option, some, List, [], ◌∷◌,
  arith, ◌==◌, Bool-cases, Option-cases, Result-cases, inl, inr, length,
}
use teri_chat.Prelude.Text.{Text}
use teri_chat.Table.{exists, select, count, order_by}
use teri_chat.Stats.Worker.Settling.{Room}
use teri_chat.Stats.Worker.Draining.{CalmRounds, stats_worker-drains}
use teri_chat.Table.Each.{All, All-each, order_by-All, select-All, take-All}
use teri_chat.Messaging.Conversations.{contains}
use teri_chat.Stats.Schema.{OutboxEvent, StatsDb, receipt_with, event_with}
use teri_chat.Stats.Counting.Totals.{conversation_total, Raised}
use teri_chat.Stats.Worker.{
  Weather, handle_event, fold_each, fold_new_events, next_batch, pending, stats_worker,
  smaller_event, stats_batch,
}
use teri_chat.Stats.Exact.{with_receipt}
use teri_chat.Stats.Worker.Handling.{
  known, message_by, Handled, handle_event-Handled, kept, counts, rejects,
}
use teri_chat.Stats.Worker.Rows.{In, All-In, same_row, count_flip, count_each}

abbrev pub noted : StatsDb → OutboxEvent → Bool
noted db e = exists (receipt_with e.id) db.processed

module _ (parse : Text → Option ℕ) where
  -- The counter of a user in a conversation is the number of the noted messages, and only messages of
  -- unknown users or conversations are rejected.
  pub record Faithful (db : StatsDb) : Type 0 where
    pub unique : (i : ℕ) → count (event_with i) db.outbox ≤ 1
    pub conversation :
        (u c : ℕ)
        → conversation_total u c db.conversation_stats
          ≡ count (λ e. message_by parse u c e && noted db e) db.outbox
    pub rejected :
        (e : OutboxEvent) (u c : ℕ)
        → In e db.outbox
        → contains e.id db.rejected ≡ true
        → message_by parse u c e ≡ true
        → known u c db ≡ false

  noted_rows :
      (u c v k : ℕ) (e : OutboxEvent) (db db' : StatsDb)
      → Raised v k (with_receipt e.id v k db) db'
      → count (λ d. message_by parse u c d && noted db' d) db.outbox
        ≡ count (λ d. message_by parse u c d && (e.id == d.id || noted db d)) db.outbox
  unfolding exists
  noted_rows u c v k e db db' r =
      ap (λ rows. count (λ d. message_by parse u c d && exists (receipt_with d.id) rows) db.outbox)
        r.processed

  Handled-Faithful :
      (e : OutboxEvent) (db db' : StatsDb)
      → In e db.outbox
      → Handled parse e db db'
      → Faithful db
      → Faithful db'
  unfolding contains
  Handled-Faithful e db db' i (kept s) x = subst Faithful (sym s) x
  Handled-Faithful e db db' i (rejects h s) x = subst Faithful (sym s) (record {
    unique = x.unique;
    conversation = x.conversation;
    rejected = λ d u c j r m. elim (Bool-cases (e.id == d.id)) [
      | inr n ↦ x.rejected d u c j (ground arith) m
      | inl y ↦
          let same = same_row e d db.outbox i j y (x.unique e.id) in
          h u c (subst (λ b. message_by parse u c b ≡ true) same m)
    ];
  })
  Handled-Faithful e db db' i (counts v k f t n r) x = record {
    unique = λ j. ground (arith, r.outbox, x.unique j);
    conversation = λ u c. ground (
      arith,
      r.outbox,
      r.conversation_raised u c,
      x.conversation u c,
      x.conversation v k,
      noted_rows u c v k e db db' r,
      count_flip (message_by parse u c) (noted db) e db.outbox i n (x.unique e.id),
    );
    rejected = λ d u c j z m. ground (
      arith,
      r.users,
      r.conversations,
      x.rejected d u c (subst (In d) r.outbox j) (ground (arith, r.rejected)) m,
    );
  }

-- Tables that the worker does not write.
abbrev pub Still : StatsDb → StatsDb → Type 0
Still db db' =
    (db'.outbox ≡ db.outbox) × (db'.users ≡ db.users) × (db'.conversations ≡ db.conversations)

module _ (parse : Text → Option ℕ) where
  Handled-Still : (e : OutboxEvent) (db db' : StatsDb) → Handled parse e db db' → Still db db'
  Handled-Still e db db' (kept s) = (ground arith, ground arith, ground arith)
  Handled-Still e db db' (counts u c f t n r) = (r.outbox, r.users, r.conversations)
  Handled-Still e db db' (rejects h s) = (ground arith, ground arith, ground arith)

  abbrev pub After : StatsDb → StatsDb → Type 0
  After db db' = Still db db' × Faithful parse db'

  fold_each-After :
      (w : Weather) (rows : List OutboxEvent) (n : ℕ) (seen : Option ℕ) (db : StatsDb)
      → All (λ e. In e db.outbox) rows
      → Faithful parse db
      → After db (fold_each parse w rows n seen db).db
  unfolding fold_each
  fold_each-After w [] n seen db a x = ((refl, refl, refl), x)
  fold_each-After w (e ∷ rows) n seen db a x =
      let after = (handle_event parse w e db).1 in
      let h = handle_event-Handled parse w e db in
      let s = Handled-Still e db after h in
      let y = Handled-Faithful parse e db after a.0 h x in
      elim (Result-cases (handle_event parse w e db).0) [
        | inr (z, f) ↦ subst (After db) {x = after} (ground arith) (s, y)
        | inl (k, f) ↦
            let last = (fold_each parse w rows (n + k) (some e.id) after).db in
            let rest =
              fold_each-After w rows (n + k) (some e.id) after
                (subst (λ outbox. All (λ d. In d outbox) rows) (sym s.0) a.1) y in
            subst (After db) {x = last} (ground arith)
              ((rest.0.0 ∙ s.0, rest.0.1 ∙ s.1, rest.0.2 ∙ s.2), rest.1)
      ]

  batch-In : (db : StatsDb) → All (λ e. In e db.outbox) (next_batch db)
  unfolding next_batch
  batch-In db =
      let P = λ (e : OutboxEvent). In e db.outbox in
      take-All P stats_batch (order_by smaller_event (select (pending db) db.outbox)) (
        order_by-All P smaller_event (select (pending db) db.outbox) (
          select-All P P (pending db) db.outbox (λ e i p. i)
            (All-In db.outbox db.outbox (λ e i. i))))

  round-After :
      (w : Weather) (seen : Option ℕ) (db : StatsDb)
      → Faithful parse db
      → After db (fold_new_events parse w seen db).db
  unfolding fold_new_events
  round-After w seen db x = elim (Option-cases w.query_fails) [
    | inr (y, f) ↦ subst (After db) {x = db} (ground arith) ((refl, refl, refl), x)
    | inl f ↦
        subst (After db) {x = (fold_each parse w (next_batch db) 0 seen db).db} (ground arith)
          (fold_each-After w (next_batch db) 0 seen db (batch-In db) x)
  ]

  worker-After :
      (rounds : List Weather) (seen : Option ℕ) (db : StatsDb)
      → Faithful parse db
      → After db (stats_worker parse rounds seen db)
  unfolding stats_worker
  worker-After [] seen db x = ((refl, refl, refl), x)
  worker-After (w ∷ rounds) seen db x =
      let round = fold_new_events parse w seen db in
      let one = round-After w seen db x in
      let rest = worker-After rounds round.last_seen round.db one.1 in
      ((rest.0.0 ∙ one.0.0, rest.0.1 ∙ one.0.1, rest.0.2 ∙ one.0.2), rest.1)

module _ (parse : Text → Option ℕ) where
  settled_noted :
      (u c : ℕ) (db : StatsDb) (e : OutboxEvent)
      → Faithful parse db
      → known u c db ≡ true
      → In e db.outbox
      → pending db e ≡ false
      → (message_by parse u c e && noted db e) ≡ message_by parse u c e
  settled_noted u c db e x k i p = elim (Bool-cases (contains e.id db.rejected)) [
    | inr r ↦ ground arith
    | inl r ↦ elim (Bool-cases (message_by parse u c e)) [
      | inr m ↦ ground arith
      | inl m ↦ absurd (ground (arith, x.rejected e u c i r m))
    ]
  ]

  -- If the counters are faithful, among the rounds of the worker there are calm ones enough for what is
  -- pending, 200 events a round, and the counters have room for 200 events a round, then after the rounds
  -- the counter of a known user in a known conversation is the number of the user's messages for it in
  -- the outbox, each counted once, whatever the database answers in the other rounds.
  pub stats_worker-counts :
      {n : ℕ} {rounds : List Weather} (u c : ℕ) (seen : Option ℕ) (db : StatsDb)
      → CalmRounds n rounds
      → Room (200 * length rounds) db
      → count (pending db) db.outbox ≤ 200 * n
      → Faithful parse db
      → known u c db ≡ true
      → conversation_total u c (stats_worker parse rounds seen db).conversation_stats
        ≡ count (message_by parse u c) db.outbox
  stats_worker-counts {n} {rounds} u c seen db q r l x k =
      let after = stats_worker parse rounds seen db in
      let a = worker-After parse rounds seen db x in
      let known_after : known u c after ≡ true =
        ap (λ us. contains u us && contains c after.conversations) a.0.1
        ∙ (ap (λ cs. contains u db.users && contains c cs) a.0.2 ∙ k) in
      a.1.conversation u c
      ∙ (count_each (λ e. message_by parse u c e && noted after e) (pending after)
            (message_by parse u c) after.outbox
            (All-each (λ e. In e after.outbox)
              (λ e.
                pending after e ≡ false
                → (message_by parse u c e && noted after e) ≡ message_by parse u c e)
              after.outbox (λ e i p. settled_noted u c after e a.1 known_after i p)
              (All-In after.outbox after.outbox (λ e i. i)))
            (stats_worker-drains parse seen db q r l)
          ∙ ap (count (message_by parse u c)) a.0.0)
