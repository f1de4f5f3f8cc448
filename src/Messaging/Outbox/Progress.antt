-- ===== src/Messaging/Outbox/Progress.antt =====
-- The worker empties the outbox, a batch a round.
use teri_chat.Prelude.{
  ℕ, ◌≡◌, refl, ◌+◌, ◌-◌, ◌≤◌, ◌^◌, Bool, true, ◌&&◌, not, List, [], ◌∷◌, arith, leb, map, take,
  drop,
}
use teri_chat.Table.{select, update, count, order_by}
use teri_chat.Table.Counts.{count_le_length, length-select, length-count, length-drop}
use teri_chat.Table.Sorting.{count-order_by, count-select, count-take-drop, count_same}
use teri_chat.Messaging.Schema.{StoredEvent}
use teri_chat.Messaging.Conversations.{contains, is_empty}
use teri_chat.Messaging.Outbox.{
  Weather, is_unpublished, claimable, created_earlier, among, entry_of, entry_id, published,
  mark_published, event_id_of, oldest,
}

-- A round in which the database answers and nobody else holds a row.
abbrev pub calm : Weather → Bool
calm w = not w.claim_fails && not w.mark_fails && is_empty w.locked

-- After `n` more claims the attempts of a row would leave their 32 bits.
abbrev pub worn : ℕ → StoredEvent → Bool
worn n e = leb (2 ^ 31) (e.attempts + n)

abbrev pub left : List ℕ → StoredEvent → Bool
left ids e = is_unpublished e && not (among ids e)

abbrev pub unlisted : List ℕ → StoredEvent → Bool
unlisted ids e = not (among ids e)

-- No row of a list is outside the list's ids.
pub listed_grows :
    (i : ℕ) (ids : List ℕ) (rows : List StoredEvent)
    → count (unlisted ids) rows ≡ 0
    → count (unlisted (i ∷ ids)) rows ≡ 0
unfolding count contains
listed_grows i ids [] h = refl
listed_grows i ids (x ∷ rows) h = ground (arith, listed_grows i ids rows)

pub all_listed : (rows : List StoredEvent) → count (unlisted (map event_id_of rows)) rows ≡ 0
unfolding count contains
all_listed [] = refl
all_listed (x ∷ rows) =
    ground (arith, listed_grows x.id (map event_id_of rows) rows (all_listed rows))

pub left_some :
    (ids : List ℕ) (rows : List StoredEvent) → count (left ids) rows ≤ count is_unpublished rows
unfolding count
left_some ids [] = omega arith
left_some ids (x ∷ rows) = ground (arith, left_some ids rows)

-- What the ids of the oldest leave.
pub left-oldest :
    (limit : ℕ) (rows : List StoredEvent)
    → count (left (map event_id_of (oldest [] limit rows))) rows ≤ count is_unpublished rows - limit
unfolding oldest contains
left-oldest limit rows =
    let sorted : List StoredEvent = order_by created_earlier (select (claimable []) rows) in
    let ids : List ℕ = map event_id_of (take limit sorted) in
    ground (
      arith,
      count_same (left ids) (λ e. claimable [] e && unlisted ids e) rows (λ e. ground arith),
      count-select (unlisted ids) (claimable []) rows,
      count-order_by (unlisted ids) created_earlier (select (claimable []) rows),
      count-take-drop (unlisted ids) limit sorted,
      all_listed (take limit sorted),
      count_le_length (unlisted ids) (drop limit sorted),
      length-drop limit sorted,
      length-count sorted,
      count-order_by (λ e. true) created_earlier (select (claimable []) rows),
      length-count (select (claimable []) rows),
      length-select (claimable []) rows,
      count_same (claimable []) is_unpublished rows (λ e. ground arith),
    )

pub count-published :
    (now : ℕ) (ids : List ℕ) (rows : List StoredEvent)
    → count is_unpublished (update (among ids) (published now) rows) ≡ count (left ids) rows
unfolding count update
count-published now ids [] = refl
count-published now ids (x ∷ rows) = ground (arith, count-published now ids rows)

pub count-mark :
    (now : ℕ) (ids : List ℕ) (rows : List StoredEvent)
    → count is_unpublished (mark_published now ids rows) ≡ count (left ids) rows
unfolding mark_published contains
count-mark now [] rows = count_same is_unpublished (left []) rows (λ e. ground arith)
count-mark now (i ∷ ids) rows = count-published now (i ∷ ids) rows

-- The ids of the claimed rows.
abbrev pub claimed_ids : List ℕ → List StoredEvent → List ℕ
claimed_ids ids rows = map entry_id (map entry_of (select (among ids) rows))
