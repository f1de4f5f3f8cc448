-- ===== src/Workspaces/Commits/Preserves/Views.antt =====
-- Seats and channels, seen through each change of their table.
use teri_chat.Prelude.{ℕ, ◌≡◌, refl, false, not, ◌&&◌, none, List, [], ◌∷◌, arith, ◌==◌}
use mathlib.Core.Path.{ap₂}
use teri_chat.Prelude.Text.{Text}
use teri_chat.Table.{find, exists, delete, update}
use teri_chat.Table.Laws.{exists-eq-is_some}
use teri_chat.Workspaces.Role.{Role}
use teri_chat.Workspaces.Schema.{Seat, Channel, seat_of, channel_with}
use teri_chat.Workspaces.Statements.{carries}
use teri_chat.Workspaces.Statements.Effects.{with_role, carried, same_seat}

-- Seats and channels, seen through each change.
pub exists_seat-update :
    (w t v u : ℕ) (r : Role) (rows : List Seat)
    → exists (seat_of v u) (update (seat_of w t) (with_role r) rows) ≡ exists (seat_of v u) rows
unfolding exists update
exists_seat-update w t v u r [] = refl
exists_seat-update w t v u r (m ∷ rows) = ground (arith, exists_seat-update w t v u r rows)

pub exists_seat-delete :
    (w t v u : ℕ) (rows : List Seat)
    → exists (seat_of v u) (delete (seat_of w t) rows)
      ≡ (exists (seat_of v u) rows && not (same_seat w t v u))
unfolding exists delete
exists_seat-delete w t v u [] = refl
exists_seat-delete w t v u (m ∷ rows) = ground (arith, exists_seat-delete w t v u rows)

pub exists_carries-update :
    (v k id : ℕ) (name : Text) (rows : List Channel)
    → exists (carries v k) (update (channel_with id) (λ r. record r { name = name }) rows)
      ≡ exists (carries v k) rows
unfolding exists update
exists_carries-update v k id name [] = refl
exists_carries-update v k id name (r ∷ rows) =
    ground (arith, exists_carries-update v k id name rows)

pub exists_carries-delete :
    (v k conversation : ℕ) (rows : List Channel)
    → exists (carries v k) (delete (carried conversation) rows)
      ≡ (exists (carries v k) rows && not (k == conversation))
unfolding exists delete
exists_carries-delete v k conversation [] = refl
exists_carries-delete v k conversation (r ∷ rows) =
    ground (arith, exists_carries-delete v k conversation rows)

pub seat_same :
    (w t v u : ℕ) (rows : List Seat)
    → w ≡ v
    → t ≡ u
    → exists (seat_of w t) rows ≡ exists (seat_of v u) rows
seat_same w t v u rows p q = ap₂ (λ x y. exists (seat_of x y) rows) p q

pub find-none_of_exists :
    (w u : ℕ) (rows : List Seat)
    → exists (seat_of w u) rows ≡ false
    → find (seat_of w u) rows ≡ none
find-none_of_exists w u rows h = ground (arith, h, exists-eq-is_some (seat_of w u) rows)
