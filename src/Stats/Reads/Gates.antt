-- ===== src/Stats/Reads/Gates.antt =====
-- What the answers show, and to whom.
use teri_chat.Prelude.{
  ℕ, ◌≡◌, ◌↔◌, ◌≤◌, refl, Bool, true, false, ◌&&◌, Option, none, some, List, [], ◌∷◌, ok, arith,
  ltb, Option-cases, inl, inr,
}
use teri_chat.Table.{find, exists, count}
use teri_chat.Auth.Schema.{SessionRow, session_with}
use teri_chat.Auth.Management.{own_live}
use teri_chat.Workspaces.Schema.{Db, seat_of}
use teri_chat.Workspaces.Access.{is_banned}
use teri_chat.Stats.Reads.{authorized_read, own_session}

-- Whether the row that is found stands at a time.
abbrev stands_at : ℕ → Option SessionRow → Bool
stands_at now none = false
stands_at now (some row) = ltb now row.expires_at

none_there :
    (now u s : ℕ) (rows : List SessionRow)
    → count (session_with s) rows ≡ 0
    → (exists (own_session u s) rows ≡ false) × (exists (own_live now u s) rows ≡ false)
unfolding exists count
none_there now u s [] h = (refl, refl)
none_there now u s (x ∷ rows) h = ground (arith, none_there now u s rows)

live_row :
    (now u s : ℕ) (rows : List SessionRow)
    → count (session_with s) rows ≤ 1
    → exists (own_live now u s) rows
      ≡ (exists (own_session u s) rows && stands_at now (find (session_with s) rows))
unfolding exists find count
live_row now u s [] h = refl
live_row now u s (x ∷ rows) h = ground (arith, live_row now u s rows, none_there now u s rows)

-- Where ids of sessions are unique, a read of a workspace's counters is let through exactly for a live
-- session of the user who is a member of the workspace and not banned from it.
pub authorized_read_iff :
    (now u s w : ℕ) (sessions : List SessionRow) (tables : Db)
    → count (session_with s) sessions ≤ 1
    → (authorized_read now u s w sessions tables ≡ ok tt) ↔ (
        (exists (own_live now u s) sessions ≡ true)
        × (is_banned w u tables ≡ false)
        × (exists (seat_of w u) tables.members ≡ true))
unfolding authorized_read
authorized_read_iff now u s w sessions tables h =
    elim (Option-cases (find (session_with s) sessions)) [
      | inl f ↦ (
        λ a. ground (arith, live_row now u s sessions h),
        λ a. ground (arith, live_row now u s sessions h),
      )
      | inr (row, f) ↦ (
        λ a. (
          ground (arith, live_row now u s sessions h),
          ground (arith, live_row now u s sessions h),
          ground (arith, live_row now u s sessions h),
        ),
        λ a. ground (arith, live_row now u s sessions h),
      )
    ]
