-- ===== src/Auth/Management/Pages.antt =====
-- The pages of the sessions of an account, one after the other by their cursors.
use mathlib.Core.Path.{sym}
use teri_chat.Prelude.{
  ℕ, ◌≡◌, ◌∙◌, ap, refl, suc, ◌≤◌, Bool, true, false, ◌&&◌, Option, none, some, List, map, length,
  arith, ◌==◌, Result, ok, err,
}
use teri_chat.Prelude.Int.{ℤ, pos_part}
use teri_chat.Table.{select, count, order_by}
use teri_chat.Table.Counts.{
  select-select, select_same, count-select_le, length-select, count_le_length, length-count,
}
use teri_chat.Table.Sorting.{order_by-in_key_order, with_key, count-order_by}
use teri_chat.Table.Scans.{strict, in_key_order-strict, after_key, select-order_by}
use teri_chat.Table.Paging.{follow, page_after, follow_complete}
use teri_chat.Errors.{AppError}
use teri_chat.Auth.Schema.{SessionRow}
use teri_chat.Auth.Sessions.{live_at}
use teri_chat.Auth.Management.{
  SessionView, SessionPage, list_sessions, require_live, listed, after_session, smaller_session,
  view_of, page_of, limit_or_default, at_most_100,
}

abbrev pub session_id_of : SessionRow → ℕ
session_id_of row = row.id

abbrev pub live_of : ℕ → ℕ → SessionRow → Bool
live_of now user_id row = row.user_id == user_id && live_at now row

-- The live sessions of an account in the order of their ids.
unfoldable pub live_sessions : ℕ → ℕ → List SessionRow → List SessionRow
live_sessions now user_id rows = order_by smaller_session (select (live_of now user_id) rows)

abbrev pub UniqueIds : List SessionRow → Type 0
UniqueIds rows = (i : ℕ) → count (with_key session_id_of i) rows ≤ 1

live_sessions-strict :
    (now user_id : ℕ) (rows : List SessionRow)
    → UniqueIds rows
    → strict session_id_of (live_sessions now user_id rows) ≡ true
unfolding live_sessions
live_sessions-strict now user_id rows h =
    in_key_order-strict session_id_of (order_by smaller_session (select (live_of now user_id) rows))
      (order_by-in_key_order session_id_of (select (live_of now user_id) rows))
      λ n. ground (
        arith,
        count-order_by (with_key session_id_of n) smaller_session
            (select (live_of now user_id) rows),
        count-select_le (with_key session_id_of n) (live_of now user_id) rows,
        h n,
      )

after_same : (c : Option ℕ) (row : SessionRow) → after_session c row ≡ after_key session_id_of c row
after_same none row = refl
after_same (some n) row = refl

listed_same :
    (now user_id : ℕ) (c : Option ℕ) (row : SessionRow)
    → listed now user_id c row ≡ (live_of now user_id row && after_key session_id_of c row)
listed_same now user_id none row = ground arith
listed_same now user_id (some n) row = ground arith

-- What the query of a page reads.
read_rows :
    (now user_id : ℕ) (c : Option ℕ) (rows : List SessionRow)
    → order_by smaller_session (select (listed now user_id c) rows)
      ≡ select (after_key session_id_of c) (live_sessions now user_id rows)
unfolding live_sessions
read_rows now user_id c rows =
    ap (order_by smaller_session) (
      select_same (listed now user_id c)
        (λ row. live_of now user_id row && after_key session_id_of c row) rows
        (listed_same now user_id c)
      ∙ sym (select-select (live_of now user_id) (after_key session_id_of c) rows))
    ∙ sym (
        select-order_by session_id_of (after_key session_id_of c)
          (select (live_of now user_id) rows))

-- What a client sees of the answer to a request for a page.
abbrev pub seen_page : Result AppError SessionPage → Option (List SessionView × Option ℕ)
seen_page (err e) = none
seen_page (ok page) = some (page.sessions, page.next_cursor)

list_sessions-page :
    (now user_id caller n : ℕ) (limit : Option ℤ) (rows : List SessionRow)
    → require_live now user_id caller rows ≡ ok tt
    → (pos_part (limit_or_default limit) == 0) ≡ false
    → at_most_100 (pos_part (limit_or_default limit)) ≡ n
    → (c : Option ℕ)
    → seen_page (list_sessions now user_id caller c limit rows)
      ≡ some (
          page_after session_id_of
            (λ (v : SessionView). v.id)
            (view_of caller)
            (λ row. refl)
            n
            (live_sessions now user_id rows)
            c)
unfolding list_sessions page_of
list_sessions-page now user_id caller n limit rows r p e c =
    ground (arith, read_rows now user_id c rows)

live_sessions-length :
    (now user_id : ℕ) (rows : List SessionRow)
    → length (live_sessions now user_id rows) ≤ length rows
unfolding live_sessions
live_sessions-length now user_id rows = ground (
  arith,
  length-count (live_sessions now user_id rows),
  count-order_by (λ row. true) smaller_session (select (live_of now user_id) rows),
  length-count (select (live_of now user_id) rows),
  length-select (live_of now user_id) rows,
  count_le_length (live_of now user_id) rows,
)

-- From a live session and with a positive limit, a client who follows the cursors of the pages of its
-- sessions comes to an end after at most as many pages as the table has rows and one more, and is
-- shown the live sessions of the account, each once and in the order of their ids, while the table
-- of unique ids and the time stand still.
pub list_sessions_complete :
    (now user_id caller : ℕ) (limit : Option ℤ) (rows : List SessionRow)
    → UniqueIds rows
    → require_live now user_id caller rows ≡ ok tt
    → (pos_part (limit_or_default limit) == 0) ≡ false
    → follow
        (suc (length rows))
        (λ c. seen_page (list_sessions now user_id caller c limit rows))
        none
      ≡ some (map (view_of caller) (live_sessions now user_id rows))
list_sessions_complete now user_id caller limit rows h r p =
    let n = at_most_100 (pos_part (limit_or_default limit)) in
    follow_complete session_id_of (λ (v : SessionView). v.id) (view_of caller) (λ row. refl)
      (suc (length rows)) n (live_sessions now user_id rows)
      (λ c. seen_page (list_sessions now user_id caller c limit rows))
      (live_sessions-strict now user_id rows h) (ground arith)
      (list_sessions-page now user_id caller n limit rows r p refl)
      (omega (arith, live_sessions-length now user_id rows))
