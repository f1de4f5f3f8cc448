-- ===== src/Workspaces/Statements/Effects.antt =====
-- What each statement does to the seats, the bans and the channel rosters.
use mathlib.Core.Path.{ap₂}
use teri_chat.Prelude.{
  ℕ, ◌≡◌, ◌≢◌, refl, Bool, true, not, ◌&&◌, ◌||◌, none, some, is_some, List, [], ◌∷◌, arith, ◌==◌,
  if◌then◌else◌,
}
use teri_chat.Table.{find, exists, select, delete, update}
use teri_chat.Workspaces.Role.{Role}
use teri_chat.Workspaces.Schema.{Seat, Channel, Participant, seat_of, participant_of, channel_in}
use teri_chat.Workspaces.Access.{owner_seat}
use teri_chat.Workspaces.Access.Gates.{IsKeyed, role_in}
use teri_chat.Workspaces.Statements.{add_participant, add_to_channels, add_members, carries}

abbrev pub same_seat : ℕ → ℕ → ℕ → ℕ → Bool
same_seat w u w' u' = w == w' && u == u'

abbrev pub with_role : Role → Seat → Seat
with_role r m = record m { role = r }

pub find-delete_seat :
    (w u w' u' : ℕ) (rows : List Seat)
    → find (seat_of w' u') (delete (seat_of w u) rows)
      ≡ (if same_seat w u w' u' then none else find (seat_of w' u') rows)
unfolding find delete
find-delete_seat w u w' u' [] = ground arith
find-delete_seat w u w' u' (m ∷ rows) = ground (arith, find-delete_seat w u w' u' rows)

pub find-update_seat :
    (w u w' u' : ℕ) (r : Role) (rows : List Seat)
    → role_in w' u' (update (seat_of w u) (with_role r) rows)
      ≡ (if same_seat w u w' u' && is_some (role_in w u rows) then some r else role_in w' u' rows)
unfolding find update
find-update_seat w u w' u' r [] = ground arith
find-update_seat w u w' u' r (m ∷ rows) = ground (arith, find-update_seat w u w' u' r rows)

pub delete-IsKeyed :
    (w u : ℕ) (rows : List Seat) → IsKeyed rows → IsKeyed (delete (seat_of w u) rows)
unfolding delete
delete-IsKeyed w u [] k = k
delete-IsKeyed w u (m ∷ rows) k =
    ground (arith, delete-IsKeyed w u rows k.1, find-delete_seat w u m.workspace_id m.user_id rows)

find-update-none :
    (w u w' u' : ℕ) (r : Role) (rows : List Seat)
    → find (seat_of w' u') rows ≡ none
    → find (seat_of w' u') (update (seat_of w u) (with_role r) rows) ≡ none
unfolding find update
find-update-none w u w' u' r [] h = h
find-update-none w u w' u' r (m ∷ rows) h = ground (arith, find-update-none w u w' u' r rows)

pub update-IsKeyed :
    (w u : ℕ) (r : Role) (rows : List Seat)
    → IsKeyed rows
    → IsKeyed (update (seat_of w u) (with_role r) rows)
unfolding update
update-IsKeyed w u r [] k = k
update-IsKeyed w u r (m ∷ rows) k =
    ground
      (arith, update-IsKeyed w u r rows k.1, find-update-none w u m.workspace_id m.user_id r rows)

-- Deleting a seat of one workspace leaves the owners of the others.
pub exists-owner-delete :
    (w u w' : ℕ) (rows : List Seat)
    → w ≢ w'
    → exists (owner_seat w') (delete (seat_of w u) rows) ≡ exists (owner_seat w') rows
unfolding exists delete
exists-owner-delete w u w' [] ne = refl
exists-owner-delete w u w' (m ∷ rows) ne = ground (arith, exists-owner-delete w u w' rows ne)

pub exists-owner-update :
    (w u w' : ℕ) (r : Role) (rows : List Seat)
    → w ≢ w'
    → exists (owner_seat w') (update (seat_of w u) (with_role r) rows) ≡ exists (owner_seat w') rows
unfolding exists update
exists-owner-update w u w' r [] ne = refl
exists-owner-update w u w' r (m ∷ rows) ne = ground (arith, exists-owner-update w u w' r rows ne)

exists_same :
    (c u c' u' : ℕ) (rows : List Participant)
    → c ≡ c'
    → u ≡ u'
    → exists (participant_of c u) rows ≡ exists (participant_of c' u') rows
exists_same c u c' u' rows p q = ap₂ (λ x y. exists (participant_of x y) rows) p q

test_same : (d : ℕ → ℕ → Bool) (c u c' u' : ℕ) → c ≡ c' → u ≡ u' → d c u ≡ d c' u'
test_same d c u c' u' p q = ap₂ d p q

abbrev pub carried : ℕ → Channel → Bool
carried c r = r.conversation_id == c

pub exists-add_participant :
    (c u c' u' : ℕ) (rows : List Participant)
    → exists (participant_of c' u') (add_participant c u rows)
      ≡ (if same_seat c u c' u' then true else exists (participant_of c' u') rows)
unfolding exists add_participant
exists-add_participant c u c' u' rows = ground (arith, exists_same c u c' u' rows)

pub exists-add_to_channels :
    (u c' u' : ℕ) (channels : List Channel) (rows : List Participant)
    → exists (participant_of c' u') (add_to_channels u channels rows)
      ≡ (exists (participant_of c' u') rows || u == u' && exists (carried c') channels)
unfolding exists add_to_channels
exists-add_to_channels u c' u' [] rows = ground arith
exists-add_to_channels u c' u' (c ∷ channels) rows = ground (
  arith,
  exists-add_participant c.conversation_id u c' u' rows,
  exists-add_to_channels u c' u' channels (add_participant c.conversation_id u rows),
)

pub exists-add_members :
    (c c' u' : ℕ) (members : List Seat) (rows : List Participant)
    → exists (participant_of c' u') (add_members c members rows)
      ≡ (exists (participant_of c' u') rows || c == c' && exists (λ m. m.user_id == u') members)
unfolding exists add_members
exists-add_members c c' u' [] rows = ground arith
exists-add_members c c' u' (m ∷ members) rows = ground (
  arith,
  exists-add_participant c m.user_id c' u' rows,
  exists-add_members c c' u' members (add_participant c m.user_id rows),
)

-- A statement that deletes participants by a test of the two ids removes exactly those.
pub exists-delete_participants :
    (d : ℕ → ℕ → Bool) (c u : ℕ) (rows : List Participant)
    → exists (participant_of c u) (delete (λ p. d p.conversation_id p.user_id) rows)
      ≡ (exists (participant_of c u) rows && not (d c u))
unfolding exists delete
exists-delete_participants d c u [] = refl
exists-delete_participants d c u (p ∷ rows) =
    ground
      (arith, test_same d p.conversation_id p.user_id c u, exists-delete_participants d c u rows)

-- The channels of one workspace that carry a conversation.
pub exists-select_channels :
    (w c : ℕ) (channels : List Channel)
    → exists (carried c) (select (channel_in w) channels) ≡ exists (carries w c) channels
unfolding exists select
exists-select_channels w c [] = refl
exists-select_channels w c (r ∷ channels) = ground (arith, exists-select_channels w c channels)

-- The seats of one workspace that a user holds.
pub exists-select_seats :
    (w u : ℕ) (members : List Seat)
    → exists (λ m. m.user_id == u) (select (λ m. m.workspace_id == w) members)
      ≡ exists (seat_of w u) members
unfolding exists select
exists-select_seats w u [] = refl
exists-select_seats w u (m ∷ members) = ground (arith, exists-select_seats w u members)
