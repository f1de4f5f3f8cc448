-- ===== src/Messaging/Outbox/Rounds.antt =====
-- A round of the worker, and any number of them.
use teri_chat.Prelude.{
  ℕ, ◌≡◌, refl, suc, ◌-◌, ◌*◌, ◌≤◌, true, false, ◌&&◌, List, [], ◌∷◌, arith, ◌==◌, ok, err, map,
  length, Bool-cases, inl, inr, Result,
}
use teri_chat.Table.{exists, select, update, count}
use teri_chat.Table.Laws.{count-update}
use teri_chat.Table.Sorting.{count_same}
use teri_chat.Messaging.Schema.{StoredEvent, OutboxEntry, MessagingError}
use teri_chat.Messaging.Conversations.{contains, is_empty}
use teri_chat.Messaging.Outbox.{
  Weather, Worker, is_unpublished, among, entry_of, entry_id, attempted, exhausted, published,
  claim_ids, claim_outbox, mark_published, deliver_entries, worker_round, outbox_worker,
  event_id_of, oldest, outbox_batch,
}
use teri_chat.Messaging.Outbox.Delivery.{waiting, named, outbox_worker-safe, exists-update}
use teri_chat.Messaging.Outbox.Progress.{
  calm, worn, left, left_some, left-oldest, count-mark, claimed_ids,
}

-- Every listed row of a part of the table is listed again.
left_fewer :
    (ids again : List ℕ) (rows : List StoredEvent)
    → ((i : ℕ)
        → exists (λ (e : StoredEvent). e.id == i && among ids e) rows ≡ true
        → contains i again ≡ true)
    → count (left again) rows ≤ count (left ids) rows
unfolding count exists
left_fewer ids again [] h = omega arith
left_fewer ids again (x ∷ rows) h =
    ground (arith, h x.id, left_fewer ids again rows (λ i e. h i (ground arith)))

claimed :
    (ids : List ℕ) (rows : List StoredEvent) (i : ℕ)
    → exists (λ (e : StoredEvent). e.id == i && among ids e) rows ≡ true
    → contains i (claimed_ids ids rows) ≡ true
unfolding exists select contains
claimed ids [] i h = ground arith
claimed ids (x ∷ rows) i h = ground (arith, claimed ids rows i)

worn_not_exhausted :
    (n : ℕ) (ids : List ℕ) (rows : List StoredEvent)
    → exists (worn (suc n)) rows ≡ false
    → exists (exhausted ids) rows ≡ false
unfolding exists
worn_not_exhausted n ids [] h = refl
worn_not_exhausted n ids (x ∷ rows) h = ground (arith, worn_not_exhausted n ids rows)

worn-attempted :
    (n : ℕ) (ids : List ℕ) (rows : List StoredEvent)
    → exists (worn (suc n)) rows ≡ false
    → exists (worn n) (update (among ids) attempted rows) ≡ false
unfolding exists update
worn-attempted n ids [] h = refl
worn-attempted n ids (x ∷ rows) h = ground (arith, worn-attempted n ids rows)

worn-fewer :
    (n : ℕ) (rows : List StoredEvent)
    → exists (worn (suc n)) rows ≡ false
    → exists (worn n) rows ≡ false
unfolding exists
worn-fewer n [] h = refl
worn-fewer n (x ∷ rows) h = ground (arith, worn-fewer n rows)

worn-mark :
    (n now : ℕ) (ids : List ℕ) (rows : List StoredEvent)
    → exists (worn n) (mark_published now ids rows) ≡ exists (worn n) rows
unfolding mark_published
worn-mark n now [] rows = refl
worn-mark n now (i ∷ ids) rows =
    exists-update (worn n) (among (i ∷ ids)) (published now) rows (λ x. refl)

deliver-worn :
    (n : ℕ) (w : Weather) (answer : Result MessagingError (List OutboxEntry) × List StoredEvent)
    (sent : List OutboxEntry)
    → exists (worn n) answer.1 ≡ false
    → exists (worn n) (deliver_entries w answer sent).outbox ≡ false
unfolding deliver_entries
deliver-worn n w (err e, rows) sent h = h
deliver-worn n w (ok [], rows) sent h = h
deliver-worn n w (ok (e ∷ entries), rows) sent h =
    ground (arith, worn-mark n w.now (map entry_id (e ∷ entries)) rows)

round-worn :
    (n : ℕ) (w : Weather) (s : Worker)
    → exists (worn (suc n)) s.outbox ≡ false
    → exists (worn n) (worker_round w s).outbox ≡ false
unfolding worker_round claim_outbox claim_ids
round-worn n w s h = ground (
  arith,
  worn-fewer n s.outbox h,
  worn-attempted n (map event_id_of (oldest w.locked outbox_batch s.outbox)) s.outbox h,
  deliver-worn n w (claim_outbox w.locked outbox_batch s.outbox) s.sent,
)

-- What waits after a round: no more than before, and a batch less after a calm one.
deliver-left :
    (w : Weather) (answer : Result MessagingError (List OutboxEntry) × List StoredEvent)
    (sent : List OutboxEntry)
    → count is_unpublished (deliver_entries w answer sent).outbox ≤ count is_unpublished answer.1
unfolding deliver_entries
deliver-left w (err e, rows) sent = omega arith
deliver-left w (ok [], rows) sent = omega arith
deliver-left w (ok (e ∷ entries), rows) sent = ground (
  arith,
  count-mark w.now (map entry_id (e ∷ entries)) rows,
  left_some (map entry_id (e ∷ entries)) rows,
)

deliver-calm :
    (w : Weather) (entries : List OutboxEntry) (rows : List StoredEvent) (sent : List OutboxEntry)
    → w.mark_fails ≡ false
    → count is_unpublished (deliver_entries w (ok entries, rows) sent).outbox
      ≡ count (left (map entry_id entries)) rows
unfolding deliver_entries contains
deliver-calm w [] rows sent m = count_same is_unpublished (left []) rows (λ e. ground arith)
deliver-calm w (e ∷ entries) rows sent m =
    ground (arith, count-mark w.now (map entry_id (e ∷ entries)) rows)

claim-unpublished :
    (ids : List ℕ) (rows : List StoredEvent)
    → count is_unpublished (claim_ids ids rows).1 ≡ count is_unpublished rows
unfolding claim_ids
claim-unpublished ids rows =
    ground (arith, count-update is_unpublished (among ids) attempted rows (λ x. refl))

round-left :
    (w : Weather) (s : Worker)
    → count is_unpublished (worker_round w s).outbox ≤ count is_unpublished s.outbox
unfolding worker_round claim_outbox
round-left w s = ground (
  arith,
  deliver-left w (claim_outbox w.locked outbox_batch s.outbox) s.sent,
  claim-unpublished (map event_id_of (oldest w.locked outbox_batch s.outbox)) s.outbox,
)

claim-calm :
    (w : Weather) (ids : List ℕ) (rows : List StoredEvent) (sent : List OutboxEntry)
    → w.mark_fails ≡ false
    → exists (exhausted ids) rows ≡ false
    → count is_unpublished (deliver_entries w (claim_ids ids rows) sent).outbox
      ≤ count (left ids) rows
unfolding claim_ids
claim-calm w ids rows sent m e = ground (
  arith,
  deliver-calm w (map entry_of (select (among ids) rows)) (update (among ids) attempted rows) sent
      m,
  count-update (left (claimed_ids ids rows)) (among ids) attempted rows (λ x. refl),
  left_fewer ids (claimed_ids ids rows) rows (claimed ids rows),
)

round-Calm :
    (n : ℕ) (w : Weather) (s : Worker)
    → calm w ≡ true
    → exists (worn (suc n)) s.outbox ≡ false
    → count is_unpublished (worker_round w s).outbox ≤ count is_unpublished s.outbox - outbox_batch
unfolding worker_round claim_outbox
round-Calm n w s c h =
    let ids : List ℕ = map event_id_of (oldest [] outbox_batch s.outbox) in
    let none_locked : w.locked ≡ [] = nothing_held w.locked (ground arith) in
    ground (
      arith,
      none_locked,
      claim-calm w ids s.outbox s.sent (ground arith) (worn_not_exhausted n ids s.outbox h),
      left-oldest outbox_batch s.outbox,
    )
  where
    nothing_held : (locked : List ℕ) → is_empty locked ≡ true → locked ≡ []
    nothing_held [] e = refl
    nothing_held (i ∷ locked) e = absurd (ground arith)

outbox_worker-left :
    (rounds : List Weather) (s : Worker)
    → exists (worn (length rounds)) s.outbox ≡ false
    → count is_unpublished (outbox_worker rounds s).outbox
      ≤ count is_unpublished s.outbox - outbox_batch * count calm rounds
unfolding outbox_worker count
outbox_worker-left [] s h = ground arith
outbox_worker-left (w ∷ rounds) s h = elim (Bool-cases (calm w)) [
  | inl c ↦ ground (
    arith,
    round-Calm (length rounds) w s c h,
    outbox_worker-left rounds (worker_round w s) (round-worn (length rounds) w s h),
  )
  | inr c ↦ ground (
    arith,
    round-left w s,
    outbox_worker-left rounds (worker_round w s) (round-worn (length rounds) w s h),
  )
]

none_waits :
    (i : ℕ) (rows : List StoredEvent)
    → count is_unpublished rows ≡ 0
    → exists (waiting i) rows ≡ false
unfolding count exists
none_waits i [] h = refl
none_waits i (x ∷ rows) h = ground (arith, none_waits i rows)

-- If among the rounds of the worker there are calm ones enough for what waits, 50 events a round,
-- and the count of attempts of no row leaves its 32 bits during the rounds, then after them nothing
-- waits, and each event that waited has been sent, whatever the database answers in the other
-- rounds.
pub outbox_worker-drains :
    (i : ℕ) (rounds : List Weather) (s : Worker)
    → exists (worn (length rounds)) s.outbox ≡ false
    → count is_unpublished s.outbox ≤ outbox_batch * count calm rounds
    → exists (waiting i) s.outbox ≡ true
    → (count is_unpublished (outbox_worker rounds s).outbox ≡ 0)
      × (exists (named i) (outbox_worker rounds s).sent ≡ true)
outbox_worker-drains i rounds s h u q =
    let empty : count is_unpublished (outbox_worker rounds s).outbox ≡ 0 =
      ground (arith, outbox_worker-left rounds s h) in
    ground (
      arith,
      empty,
      none_waits i (outbox_worker rounds s).outbox empty,
      outbox_worker-safe i rounds s (ground arith),
    )
