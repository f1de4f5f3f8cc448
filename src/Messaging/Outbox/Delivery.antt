-- ===== src/Messaging/Outbox/Delivery.antt =====
-- An event that waits is sent to the hub before it stops waiting.
use teri_chat.Prelude.{
  ℕ, ◌≡◌, refl, Bool, true, ◌&&◌, ◌||◌, not, List, [], ◌∷◌, arith, ◌==◌, ok, err, map, Bool-cases,
  inl, inr, Result,
}
use teri_chat.Table.{exists, update}
use teri_chat.Messaging.Schema.{StoredEvent, OutboxEntry, MessagingError}
use teri_chat.Messaging.Conversations.{contains}
use teri_chat.Messaging.Outbox.{
  Weather, Worker, is_unpublished, among, entry_id, attempted, published, claim_ids, claim_outbox,
  mark_published, send_all, deliver_entries, worker_round, outbox_worker, event_id_of, oldest,
  outbox_batch,
}

abbrev pub waiting : ℕ → StoredEvent → Bool
waiting i e = e.id == i && is_unpublished e

abbrev pub named : ℕ → OutboxEntry → Bool
named i e = e.id == i

pub exists-update :
    {A : Type 0} (p d : A → Bool) (f : A → A) (rows : List A)
    → ((x : A) → p (f x) ≡ p x)
    → exists p (update d f rows) ≡ exists p rows
unfolding exists update
exists-update p d f [] h = refl
exists-update p d f (x ∷ rows) h = ground (arith, h x, exists-update p d f rows h)

exists-published :
    (i now : ℕ) (ids : List ℕ) (rows : List StoredEvent)
    → exists (waiting i) (update (among ids) (published now) rows)
      ≡ (exists (waiting i) rows && not (contains i ids))
unfolding exists update
exists-published i now ids [] = refl
exists-published i now ids (x ∷ rows) = ground (arith, exists-published i now ids rows)

exists-send_all :
    (i : ℕ) (entries sent : List OutboxEntry)
    → exists (named i) (send_all entries sent) ≡ (exists (named i) entries || exists (named i) sent)
unfolding exists send_all
exists-send_all i [] sent = refl
exists-send_all i (e ∷ entries) sent = ground (arith, exists-send_all i entries (e ∷ sent))

contains-map :
    (i : ℕ) (entries : List OutboxEntry)
    → contains i (map entry_id entries) ≡ exists (named i) entries
unfolding exists contains
contains-map i [] = refl
contains-map i (e ∷ entries) = ground (arith, contains-map i entries)

-- The event `i` waits, or it has been sent.
abbrev pub safe : ℕ → Worker → Bool
safe i s = exists (waiting i) s.outbox || exists (named i) s.sent

claim-waiting :
    (i : ℕ) (ids : List ℕ) (rows : List StoredEvent)
    → exists (waiting i) (claim_ids ids rows).1 ≡ exists (waiting i) rows
unfolding claim_ids
claim-waiting i ids rows =
    ground (arith, exists-update (waiting i) (among ids) attempted rows (λ x. refl))

mark-waiting :
    (i now : ℕ) (ids : List ℕ) (rows : List StoredEvent)
    → exists (waiting i) (mark_published now ids rows)
      ≡ (exists (waiting i) rows && not (contains i ids))
unfolding mark_published contains
mark-waiting i now [] rows = ground arith
mark-waiting i now (k ∷ ids) rows = exists-published i now (k ∷ ids) rows

deliver-safe :
    (i : ℕ) (w : Weather) (answer : Result MessagingError (List OutboxEntry) × List StoredEvent)
    (sent : List OutboxEntry)
    → safe i (record { outbox = answer.1; sent = sent }) ≡ true
    → safe i (deliver_entries w answer sent) ≡ true
unfolding deliver_entries
deliver-safe i w (err e, rows) sent h = h
deliver-safe i w (ok [], rows) sent h = h
deliver-safe i w (ok (e ∷ entries), rows) sent h = ground (
  arith,
  mark-waiting i w.now (map entry_id (e ∷ entries)) rows,
  contains-map i (e ∷ entries),
  exists-send_all i (e ∷ entries) sent,
)

round-safe : (i : ℕ) (w : Weather) (s : Worker) → safe i s ≡ true → safe i (worker_round w s) ≡ true
unfolding worker_round claim_outbox
round-safe i w s h = elim (Bool-cases w.claim_fails) [
  | inl e ↦ ground arith
  | inr e ↦ ground (
    arith,
    deliver-safe i w (claim_outbox w.locked outbox_batch s.outbox) s.sent,
    claim-waiting i (map event_id_of (oldest w.locked outbox_batch s.outbox)) s.outbox,
  )
]

-- Whatever the database answers in each round, and whatever rows others hold locked, an event that
-- waits in the outbox still waits after the rounds, or has been sent.
pub outbox_worker-safe :
    (i : ℕ) (rounds : List Weather) (s : Worker)
    → safe i s ≡ true
    → safe i (outbox_worker rounds s) ≡ true
unfolding outbox_worker
outbox_worker-safe i [] s h = h
outbox_worker-safe i (w ∷ rounds) s h =
    outbox_worker-safe i rounds (worker_round w s) (round-safe i w s h)
