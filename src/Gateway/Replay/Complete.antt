-- ===== src/Gateway/Replay/Complete.antt =====
-- A replay from any cursor is complete.
use teri_chat.Prelude.{
  ℕ, ◌≡◌, ap, refl, suc, ◌≤◌, ◌<◌, true, not, Option, none, some, List, [], ◌∷◌, map, arith, ltb,
  length, if◌then◌else◌, Option-cases, inl, inr,
}
use teri_chat.Table.{select, count, order_by, insert_sorted}
use teri_chat.Table.Sorting.{count-order_by}
use teri_chat.Table.Counts.{select_all, count-select_le, length-count}
use teri_chat.Table.Scans.{after_key}
use teri_chat.Messaging.Schema.{MsgDb, StoredEvent}
use teri_chat.Messaging.Outbox.{entry_of, event_id_of, smaller_id}
use teri_chat.Gateway.Replay.{newest, larger_id, first_id, fetch, next, replay_from}
use teri_chat.Gateway.Replay.Pages.{feed, upcoming, UniqueIds, ahead, within, feed, concerns}
use teri_chat.Gateway.Replay.Catchup.{replay_all, replay_all-todo}

first_insert :
    (x : StoredEvent) (rows : List StoredEvent)
    → first_id (insert_sorted larger_id x rows)
      ≡ some (elim (first_id rows) [ none ↦ x.id | some m ↦ if ltb x.id m then m else x.id ])
unfolding insert_sorted
first_insert x [] = refl
first_insert x (y ∷ rows) = ground arith

newest-none : (rows : List StoredEvent) → newest rows ≡ none → rows ≡ []
unfolding newest order_by insert_sorted
newest-none [] e = refl
newest-none (x ∷ rows) e = absurd (ground (arith, first_insert x (order_by larger_id rows)))

top_grows :
    (m n : ℕ) (rows : List StoredEvent)
    → m ≤ n
    → count (λ e. not (within m e)) rows ≡ 0
    → count (λ e. not (within n e)) rows ≡ 0
unfolding count
top_grows m n [] l h = refl
top_grows m n (x ∷ rows) l h = ground (arith, top_grows m n rows)

-- No event has a larger id than the newest.
newest_top :
    (rows : List StoredEvent) (m : ℕ)
    → newest rows ≡ some m
    → count (λ e. not (within m e)) rows ≡ 0
unfolding newest order_by count
newest_top [] m e = absurd (ground arith)
newest_top (x ∷ rows) m e = elim (Option-cases (newest rows)) [
  | inl n ↦ ground (arith, newest-none rows n, first_insert x (order_by larger_id rows))
  | inr (m', n) ↦ ground (
    arith,
    n,
    first_insert x (order_by larger_id rows),
    top_grows m' m rows (ground (arith, n, first_insert x (order_by larger_id rows)))
        (newest_top rows m' n),
  )
]

pub ahead-within :
    (u : ℕ) (db : MsgDb) (c : Option ℕ) (m : ℕ)
    → newest db.outbox ≡ some m
    → upcoming u db m c ≡ map entry_of (ahead u db c)
unfolding upcoming ahead feed
ahead-within u db c m n = ap (map entry_of) (
    select_all (within m) (select (after_key event_id_of c) (feed u db)) (
      ground (
        arith,
        newest_top db.outbox m n,
        count-select_le (λ e. not (within m e)) (after_key event_id_of c) (feed u db),
        count-order_by (λ e. not (within m e)) smaller_id (select (concerns u db) db.outbox),
        count-select_le (λ e. not (within m e)) (concerns u db) db.outbox,
      )))

length-ahead : (u : ℕ) (db : MsgDb) (c : Option ℕ) → length (ahead u db c) ≤ length db.outbox
unfolding ahead feed
length-ahead u db c = ground (
  arith,
  length-count (select (after_key event_id_of c) (feed u db)),
  length-count db.outbox,
  count-select_le (λ e. true) (after_key event_id_of c) (feed u db),
  count-order_by (λ e. true) smaller_id (select (concerns u db) db.outbox),
  count-select_le (λ e. true) (concerns u db) db.outbox,
)

pub length-map : {A B : Type 0} (f : A → B) (xs : List A) → length (map f xs) ≡ length xs
length-map f [] = refl
length-map f (x ∷ xs) = ap suc (length-map f xs)

length_zero : {A : Type 0} (xs : List A) → length xs ≤ 0 → xs ≡ []
length_zero [] h = refl
length_zero (x ∷ xs) h = absurd (omega arith)

pub ahead-none : (u : ℕ) (db : MsgDb) (c : Option ℕ) → newest db.outbox ≡ none → ahead u db c ≡ []
ahead-none u db c n =
    length_zero (ahead u db c) (ground (arith, newest-none db.outbox n, length-ahead u db c))

-- Without a ceiling a replay ends at once.
replay_all-empty :
    (k u : ℕ) (db : MsgDb) (cursor : Option ℕ)
    → ((replay_all (suc k) u db (replay_from cursor none)).0 ≡ [])
      × ((replay_all (suc k) u db (replay_from cursor none)).1.done ≡ true)
unfolding replay_all next fetch
replay_all-empty k u db none = (refl, refl)
replay_all-empty k u db (some n) = (refl, refl)

-- Where the ids of the outbox are unique and the database stands still, a replay from any cursor
-- ends after as many calls as the outbox has rows and one more. It has then delivered the events of
-- the user's conversations beyond the cursor, each once and in the order of their ids.
pub replay_all_complete :
    (u : ℕ) (db : MsgDb) (cursor : Option ℕ)
    → UniqueIds db
    → ((replay_all (suc (length db.outbox)) u db (replay_from cursor (newest db.outbox))).0
        ≡ map entry_of (ahead u db cursor))
      × ((replay_all (suc (length db.outbox)) u db (replay_from cursor (newest db.outbox))).1.done
          ≡ true)
replay_all_complete u db cursor h = elim (Option-cases (newest db.outbox)) [
  | inl n ↦ ground (
    arith,
    n,
    newest-none db.outbox n,
    replay_all-empty (length db.outbox) u db cursor,
    length-ahead u db cursor,
    length_zero (ahead u db cursor),
  )
  | inr (m, n) ↦
      let bound : length (upcoming u db m cursor) < suc (length db.outbox) = ground (
        arith,
        ahead-within u db cursor m n,
        length-ahead u db cursor,
        length-map entry_of (ahead u db cursor),
      ) in
      ground (
        arith,
        n,
        ahead-within u db cursor m n,
        replay_all-todo (suc (length db.outbox)) u db m (upcoming u db m cursor)
            (replay_from cursor (some m)) h refl refl bound,
      )
]
