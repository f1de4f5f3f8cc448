-- ===== src/Workspaces/Role/Laws.antt =====
-- Parsing against printing, and what the permission list and the rank rule allow.
use teri_chat.Prelude.{◌<◌, ◌≡◌, ◌↔◌, ◌⊎◌, true, Option, none, some, arith, ok}
use teri_chat.Workspaces.Role.{Role, owner, rank, role_eq, check_rank}

pub role_eq_iff : (a b : Role) → (role_eq a b ≡ true) ↔ (a ≡ b)
unfolding role_eq
role_eq_iff a b = ground arith

-- What the rank rule lets through: an owner anything, and any other actor only targets and new
-- roles that rank below the actor.
abbrev pub Outranks : Role → Role → Option Role → Type 0
Outranks actor target none = (actor ≡ owner) ⊎ (rank target < rank actor)
Outranks actor target (some next) =
    (actor ≡ owner) ⊎ ((rank target < rank actor) × (rank next < rank actor))

check_rank_sound :
    (actor target : Role) (next : Option Role)
    → check_rank actor target next ≡ ok tt
    → Outranks actor target next
unfolding check_rank
check_rank_sound actor target none h = ground arith
check_rank_sound actor target (some next) h = ground arith

check_rank_complete :
    (actor target : Role) (next : Option Role)
    → Outranks actor target next
    → check_rank actor target next ≡ ok tt
unfolding check_rank
check_rank_complete actor target none h = ground arith
check_rank_complete actor target (some next) h = ground arith

-- The rank rule passes exactly for an actor who is an owner or outranks the target and new role.
pub check_rank_iff :
    (actor target : Role) (next : Option Role)
    → (check_rank actor target next ≡ ok tt) ↔ Outranks actor target next
check_rank_iff actor target next =
    (check_rank_sound actor target next, check_rank_complete actor target next)
