-- ===== src/Auth/Management.antt =====
-- The list of an account's sessions and their revocation, apps/server/src/session_management.rs.
--
-- The row locks make two revocations that name the same sessions run one after the other, so each
-- is one step. `now` is the time of the statement after the locks.
pub mod Pages
use teri_chat.Prelude.{
  ℕ, ◌+◌, Bool, true, false, ◌&&◌, ◌||◌, Option, none, some, List, [], ◌∷◌, length, map, take,
  Result, ok, err, ltb, leb, ◌==◌, if◌then◌else◌,
}
use teri_chat.Prelude.Int.{ℤ, pos, pos_part}
use teri_chat.Table.{exists, select, update, order_by}
use teri_chat.Table.Paging.{cut_page}
use teri_chat.Errors.{AppError, bad_request, unauthorized, not_found}
use teri_chat.Auth.Schema.{SessionRow, session_with}
use teri_chat.Auth.Sessions.{unrevoked, live_at}

pub record SessionView : Type 0 where
  pub id : ℕ
  pub device_id : Option ℕ
  pub created_at : ℕ
  pub expires_at : ℕ
  pub is_current : Bool

pub record SessionPage : Type 0 where
  pub sessions : List SessionView
  pub next_cursor : Option ℕ

abbrev pub own_live : ℕ → ℕ → ℕ → SessionRow → Bool
own_live now user_id session row = row.id == session && row.user_id == user_id && live_at now row

unfoldable pub require_live : ℕ → ℕ → ℕ → List SessionRow → Result AppError (Unit {0})
require_live now user_id session rows =
    if exists (own_live now user_id session) rows then ok tt else err unauthorized

-- `AND ($3 IS NULL OR id > $3)`.
abbrev pub after_session : Option ℕ → SessionRow → Bool
after_session none row = true
after_session (some a) row = ltb a row.id

abbrev pub listed : ℕ → ℕ → Option ℕ → SessionRow → Bool
listed now user_id after row = row.user_id == user_id && live_at now row && after_session after row

abbrev pub smaller_session : SessionRow → SessionRow → Bool
smaller_session r s = ltb r.id s.id

abbrev pub view_of : ℕ → SessionRow → SessionView
view_of current row = record {
  id = row.id;
  device_id = row.device_id;
  created_at = row.created_at;
  expires_at = row.expires_at;
  is_current = row.id == current;
}

-- The page of the `limit + 1` rows that were read.
unfoldable pub page_of : ℕ → List SessionView → SessionPage
unfolding cut_page
page_of limit rows =
    let (sessions, next_cursor) = cut_page (λ (v : SessionView). v.id) limit rows in
    record { sessions = sessions; next_cursor = next_cursor }

abbrev pub limit_or_default : Option ℤ → ℤ
limit_or_default none = pos 100
limit_or_default (some limit) = limit

abbrev pub at_most_100 : ℕ → ℕ
at_most_100 n = if leb 100 n then 100 else n

unfoldable pub list_sessions :
    ℕ → ℕ → ℕ → Option ℕ → Option ℤ → List SessionRow → Result AppError SessionPage
unfolding require_live page_of
list_sessions now user_id caller after limit rows =
    if pos_part (limit_or_default limit) == 0
    then err (bad_request "limit must be positive")
    else elim (require_live now user_id caller rows) [
      | err e ↦ err e
      | ok x ↦
          let n = at_most_100 (pos_part (limit_or_default limit)) in
          ok (
            page_of n (
              map (view_of caller)
                (take (n + 1) (order_by smaller_session (select (listed now user_id after) rows)))))
    ]

-- The rows that were locked.
abbrev pub owned : ℕ → ℕ → ℕ → SessionRow → Bool
owned user_id caller target row = row.user_id == user_id && (row.id == caller || row.id == target)

unfoldable pub revoke_owned :
    ℕ → ℕ → ℕ → ℕ → List SessionRow → Result AppError (Unit {0}) × List SessionRow
unfolding require_live
revoke_owned now user_id caller target rows = elim (require_live now user_id caller rows) [
  | err e ↦ (err e, rows)
  | ok x ↦ elim (exists (session_with target) (select (owned user_id caller target) rows)) [
    | false ↦ (err (not_found "session not found"), rows)
    | true ↦ (
      ok tt,
      update (λ row. session_with target row && unrevoked row)
          (λ (row : SessionRow). record row { revoked_at = some now }) rows,
    )
  ]
]
