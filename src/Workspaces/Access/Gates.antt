-- ===== src/Workspaces/Access/Gates.antt =====
-- What the gates of `Access` let through.
use mathlib.Core.Option
use mathlib.Core.Path.{subst₂}
use teri_chat.Prelude.{ℕ, ◌≡◌, ◌≢◌, ap, refl, false, Option, none, some, List, [], ◌∷◌, arith, err}
use teri_chat.Table.{find, select}
use teri_chat.Workspaces.Role.{Role, Permission, not_member}
use teri_chat.Workspaces.Schema.{Db, Seat, seat_of}
use teri_chat.Workspaces.Access.{
  role_of, is_banned, require, scan_roles, seat_of_either, locked_roles,
}

-- Who is neither a member nor banned gets the same answer whatever the permission.
pub require_stranger :
    (w u : ℕ) (p : Permission) (db : Db)
    → is_banned w u db ≡ false
    → role_of w u db ≡ none
    → require w u p db ≡ err not_member
unfolding require
require_stranger w u p db b r = ground arith

-- The primary key of `workspace_members`.
abbrev pub IsKeyed : List Seat → Type 0
IsKeyed [] = Unit
IsKeyed (m ∷ rows) = (find (seat_of m.workspace_id m.user_id) rows ≡ none) × IsKeyed rows

abbrev pub role_in : ℕ → ℕ → List Seat → Option Role
role_in w u rows = Option.map (λ (m : Seat). m.role) (find (seat_of w u) rows)

abbrev pub or_else : Option Role → Option Role → Option Role
or_else none d = d
or_else (some r) d = some r

or_else-none : (d : Option Role) → or_else d none ≡ d
or_else-none none = refl
or_else-none (some r) = refl

-- No other row has the key of a keyed table's first row.
role_in-none :
    (w u w' u' : ℕ) (rows : List Seat)
    → find (seat_of w' u') rows ≡ none
    → w' ≡ w
    → u' ≡ u
    → role_in w u rows ≡ none
role_in-none w u w' u' rows h p q =
    ap (Option.map (λ (m : Seat). m.role)) (subst₂ (λ x y. find (seat_of x y) rows ≡ none) p q h)

scan_roles_actor :
    (w a t : ℕ) (rows : List Seat) (x y : Option Role)
    → IsKeyed rows
    → (scan_roles a (select (seat_of_either w a t) rows) x y).0 ≡ or_else (role_in w a rows) x
unfolding scan_roles select find
scan_roles_actor w a t [] x y k = refl
scan_roles_actor w a t (m ∷ rows) x y k = ground (
  arith,
  role_in-none w a m.workspace_id m.user_id rows k.0,
  role_in-none w t m.workspace_id m.user_id rows k.0,
  scan_roles_actor w a t rows x y k.1,
  scan_roles_actor w a t rows (some m.role) y k.1,
  scan_roles_actor w a t rows x (some m.role) k.1,
)

scan_roles_target :
    (w a t : ℕ) (rows : List Seat) (x y : Option Role)
    → IsKeyed rows
    → a ≢ t
    → (scan_roles a (select (seat_of_either w a t) rows) x y).1 ≡ or_else (role_in w t rows) y
unfolding scan_roles select find
scan_roles_target w a t [] x y k ne = refl
scan_roles_target w a t (m ∷ rows) x y k ne = ground (
  arith,
  role_in-none w a m.workspace_id m.user_id rows k.0,
  role_in-none w t m.workspace_id m.user_id rows k.0,
  scan_roles_target w a t rows x y k.1 ne,
  scan_roles_target w a t rows (some m.role) y k.1 ne,
  scan_roles_target w a t rows x (some m.role) k.1 ne,
)

-- With one row to a seat, the two roles that a transaction locks are those of the two users.
pub locked_roles_lem :
    (w a t : ℕ) (db : Db)
    → IsKeyed db.members
    → locked_roles w a t db ≡ (role_of w a db, role_of w t db)
unfolding locked_roles role_of
locked_roles_lem w a t db k = ground (
  arith,
  or_else-none (role_in w a db.members),
  or_else-none (role_in w t db.members),
  scan_roles_actor w a t db.members none none k,
  scan_roles_target w a t db.members none none k,
  ap (λ u. role_in w u db.members) {x = a} {y = t},
)
