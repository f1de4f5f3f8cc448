-- ===== src/Workspaces/Statements/Owners.antt =====
-- How many owners a change of one seat leaves in a workspace.
use mathlib.Core.Path.{subst₂}
use teri_chat.Prelude.{ℕ, suc, ◌≤◌, ◌≡◌, refl, true, false, none, some, List, [], ◌∷◌, arith, ltb}
use teri_chat.Table.{find, exists, delete, update, count}
use teri_chat.Workspaces.Role.{Role, owner, role_eq}
use teri_chat.Workspaces.Schema.{Seat, seat_of}
use teri_chat.Workspaces.Access.{owner_seat}
use teri_chat.Workspaces.Access.Gates.{IsKeyed, role_in}
use teri_chat.Workspaces.Statements.Effects.{with_role}

-- An owner exists exactly when the count is positive.
pub exists-owner :
    (w : ℕ) (rows : List Seat) → exists (owner_seat w) rows ≡ ltb 0 (count (owner_seat w) rows)
unfolding exists count
exists-owner w [] = refl
exists-owner w (m ∷ rows) = ground (arith, exists-owner w rows)

find_same :
    (w u w' u' : ℕ) (rows : List Seat)
    → find (seat_of w' u') rows ≡ none
    → w' ≡ w
    → u' ≡ u
    → find (seat_of w u) rows ≡ none
find_same w u w' u' rows h p q = subst₂ (λ x y. find (seat_of x y) rows ≡ none) p q h

count-update_absent :
    (w t v : ℕ) (r : Role) (rows : List Seat)
    → find (seat_of w t) rows ≡ none
    → count (owner_seat v) (update (seat_of w t) (with_role r) rows) ≡ count (owner_seat v) rows
unfolding find update count
count-update_absent w t v r [] h = refl
count-update_absent w t v r (m ∷ rows) h = ground (arith, count-update_absent w t v r rows)

count-delete_absent :
    (w t v : ℕ) (rows : List Seat)
    → find (seat_of w t) rows ≡ none
    → count (owner_seat v) (delete (seat_of w t) rows) ≡ count (owner_seat v) rows
unfolding find delete count
count-delete_absent w t v [] h = refl
count-delete_absent w t v (m ∷ rows) h = ground (arith, count-delete_absent w t v rows)

-- One seat changes the count by one at most, and not at all if it is no owner's.
pub count-update :
    (w t : ℕ) (r : Role) (rows : List Seat)
    → IsKeyed rows
    → count (owner_seat w) rows
      ≤ suc (count (owner_seat w) (update (seat_of w t) (with_role r) rows))
unfolding update count
count-update w t r [] k = ground arith
count-update w t r (m ∷ rows) k = ground (
  arith,
  count-update w t r rows k.1,
  find_same w t m.workspace_id m.user_id rows k.0,
  count-update_absent w t w r rows,
)

pub count-update_other :
    (w t : ℕ) (r current : Role) (rows : List Seat)
    → IsKeyed rows
    → role_in w t rows ≡ some current
    → role_eq current owner ≡ false
    → count (owner_seat w) rows ≤ count (owner_seat w) (update (seat_of w t) (with_role r) rows)
unfolding update count find
count-update_other w t r current [] k h n = ground arith
count-update_other w t r current (m ∷ rows) k h n = ground (
  arith,
  count-update_other w t r current rows k.1,
  find_same w t m.workspace_id m.user_id rows k.0,
  count-update_absent w t w r rows,
)

pub count-update_owner :
    (w t : ℕ) (r current : Role) (rows : List Seat)
    → role_in w t rows ≡ some current
    → role_eq r owner ≡ true
    → exists (owner_seat w) (update (seat_of w t) (with_role r) rows) ≡ true
unfolding update exists find
count-update_owner w t r current [] h e = ground arith
count-update_owner w t r current (m ∷ rows) h e =
    ground (arith, count-update_owner w t r current rows)

pub count-delete :
    (w t : ℕ) (rows : List Seat)
    → IsKeyed rows
    → count (owner_seat w) rows ≤ suc (count (owner_seat w) (delete (seat_of w t) rows))
unfolding delete count
count-delete w t [] k = ground arith
count-delete w t (m ∷ rows) k = ground (
  arith,
  count-delete w t rows k.1,
  find_same w t m.workspace_id m.user_id rows k.0,
  count-delete_absent w t w rows,
)

pub count-delete_other :
    (w t : ℕ) (current : Role) (rows : List Seat)
    → IsKeyed rows
    → role_in w t rows ≡ some current
    → role_eq current owner ≡ false
    → count (owner_seat w) rows ≤ count (owner_seat w) (delete (seat_of w t) rows)
unfolding delete count find
count-delete_other w t current [] k h n = ground arith
count-delete_other w t current (m ∷ rows) k h n = ground (
  arith,
  count-delete_other w t current rows k.1,
  find_same w t m.workspace_id m.user_id rows k.0,
  count-delete_absent w t w rows,
)
