-- ===== src/Workspaces/Moderation/Authority.antt =====
-- Exactly when a role change, a kick or a ban goes through.
use teri_chat.Prelude.{
  Bool-cases, ◌⊎◌, Result-cases, ℕ, ◌≤◌, ◌≡◌, ◌≢◌, ◌↔◌, inl, inr, Bool, true, false, not, ◌&&◌,
  Option, some, arith, ltb, Result, ok, err, Option-cases,
}
use teri_chat.Table.{exists, delete, update}
use teri_chat.Workspaces.Role.{
  Role, owner, Permission, manage_roles, WorkspacesError, role_has, role_eq,
}
use teri_chat.Workspaces.Role.Laws.{Outranks, check_rank_iff, role_eq_iff}
use teri_chat.Workspaces.Schema.{Db, Env, seat_of}
use teri_chat.Workspaces.Access.{role_of, owner_count, owner_seat}
use teri_chat.Workspaces.Access.Gates.{IsKeyed, locked_roles_lem}
use teri_chat.Table.Laws.{exists-eq-is_some}
use teri_chat.Workspaces.Statements.{record_audit, update_role}
use teri_chat.Workspaces.Statements.Effects.{with_role}
use teri_chat.Workspaces.Statements.Owners.{
  exists-owner, count-update, count-update_other, count-update_owner, count-delete,
  count-delete_other,
}
use teri_chat.Workspaces.Moderation.{record_audit, set_role_tx, locked_authority}

-- Whether a transaction commits.
abbrev pub commits : {A : Type 0} → Result WorkspacesError (A × Db) → Bool
commits (ok r) = true
commits (err e) = false

-- An actor with the permission, whose rank covers the target and the new role.
pub record HasAuthority (db : Db) (a w t : ℕ) (p : Permission) (next : Option Role) : Type 0 where
  pub actor : Role
  pub current : Role
  pub actor_seat : role_of w a db ≡ some actor
  pub target_seat : role_of w t db ≡ some current
  pub permitted : role_has actor p ≡ true
  pub outranks : Outranks actor current next

-- The last owner keeps the role.
abbrev pub KeepsOwner : Db → ℕ → ℕ → Type 0
KeepsOwner db w t = role_of w t db ≡ some owner → 2 ≤ owner_count w db

pub authority_sound :
    (a w t : ℕ) (p : Permission) (next : Option Role) (db : Db) {r : Role × Db}
    → IsKeyed db.members
    → locked_authority a w t p next db ≡ ok r
    → HasAuthority db a w t p next × (role_of w t db ≡ some r.0) × (r.1 ≡ db)
unfolding locked_authority
authority_sound a w t p next db {r} k h = elim (Option-cases (role_of w a db)) [
  | inl e ↦ absurd (ground (arith, locked_roles_lem w a t db k))
  | inr (actor, e) ↦ elim (Option-cases (role_of w t db)) [
    | inl f ↦ absurd (ground (arith, locked_roles_lem w a t db k))
    | inr (current, f) ↦ (
      record {
        actor = actor;
        current = current;
        actor_seat = e;
        target_seat = f;
        permitted = ground (arith, locked_roles_lem w a t db k);
        outranks =
            (check_rank_iff actor current next).0 (ground (arith, locked_roles_lem w a t db k));
      },
      ground (arith, locked_roles_lem w a t db k),
      ground (arith, locked_roles_lem w a t db k),
    )
  ]
]

pub authority_complete :
    (a w t : ℕ) (p : Permission) (next : Option Role) (db : Db)
    → IsKeyed db.members
    → (h : HasAuthority db a w t p next) → locked_authority a w t p next db ≡ ok (h.current, db)
unfolding locked_authority
authority_complete a w t p next db k h =
    ground
      (arith, locked_roles_lem w a t db k, (check_rank_iff h.actor h.current next).1 h.outranks)

-- The owner guard of the code leaves nothing for the database's trigger to refuse.
owner_after_update :
    (w t : ℕ) (r current : Role) (db : Db)
    → IsKeyed db.members
    → exists (owner_seat w) db.members ≡ true
    → role_of w t db ≡ some current
    → (role_eq current owner && not (role_eq r owner) && ltb (owner_count w db) 2) ≡ false
    → exists (owner_seat w) (update (seat_of w t) (with_role r) db.members) ≡ true
unfolding role_of owner_count
owner_after_update w t r current db k o h g = ground (
  arith,
  exists-owner w db.members,
  exists-owner w (update (seat_of w t) (with_role r) db.members),
  count-update w t r db.members k,
  count-update_other w t r current db.members k h,
  count-update_owner w t r current db.members h,
)

pub owner_after_delete :
    (w t : ℕ) (current : Role) (db : Db)
    → IsKeyed db.members
    → exists (owner_seat w) db.members ≡ true
    → role_of w t db ≡ some current
    → (role_eq current owner && ltb (owner_count w db) 2) ≡ false
    → exists (owner_seat w) (delete (seat_of w t) db.members) ≡ true
unfolding role_of owner_count
owner_after_delete w t current db k o h g = ground (
  arith,
  exists-owner w db.members,
  exists-owner w (delete (seat_of w t) db.members),
  count-delete w t db.members k,
  count-delete_other w t current db.members k h,
)

pub exists_seat_of_role :
    (w t : ℕ) (current : Role) (db : Db)
    → role_of w t db ≡ some current
    → exists (seat_of w t) db.members ≡ true
unfolding role_of
exists_seat_of_role w t current db h = ground (arith, exists-eq-is_some (seat_of w t) db.members, h)

set_role_complete :
    (env : Env) (a w t : ℕ) (r : Role) (db : Db)
    → IsKeyed db.members
    → exists (owner_seat w) db.members ≡ true
    → (h : HasAuthority db a w t manage_roles (some r)) → (r ≢ owner → KeepsOwner db w t)
    → commits (set_role_tx env a w t r db) ≡ true
unfolding set_role_tx update_role record_audit
set_role_complete env a w t r db k o h g = ground (
  arith,
  authority_complete a w t manage_roles (some r) db k h,
  owner_after_update w t r h.current db k o h.target_seat,
  exists_seat_of_role w t h.current db h.target_seat,
  role_eq_iff h.current owner,
  role_eq_iff r owner,
  g,
)

pub set_role_authority :
    (env : Env) (a w t : ℕ) (r : Role) (db : Db)
    → IsKeyed db.members
    → commits (set_role_tx env a w t r db) ≡ true
    → HasAuthority db a w t manage_roles (some r) × (r ≢ owner → KeepsOwner db w t)
unfolding set_role_tx record_audit
set_role_authority env a w t r db k h =
    elim (Result-cases (locked_authority a w t manage_roles (some r) db)) [
      | inl (x, e) ↦ (
        (authority_sound a w t manage_roles (some r) db k e).0,
        λ n o. ground (
          arith,
          authority_sound a w t manage_roles (some r) db k e,
          role_eq_iff x.0 owner,
          role_eq_iff r owner,
        ),
      )
      | inr (x, e) ↦ absurd (ground arith)
    ]

either_role : {P : Type 0} (r : Role) → (r ≢ owner → P) → (r ≡ owner) ⊎ P
either_role r h = elim (Bool-cases (role_eq r owner)) [
  | inl e ↦ inl ((role_eq_iff r owner).0 e)
  | inr e ↦ inr (h λ x. ground (arith, (role_eq_iff r owner).1 x))
]

-- Under the primary key of the seats, in a workspace that has an owner, a role change commits
-- exactly when the actor has the permission at that moment, is an owner or outranks both the
-- target and the new role, and the last owner is not demoted.
pub set_role_iff :
    (env : Env) (a w t : ℕ) (r : Role) (db : Db)
    → IsKeyed db.members
    → exists (owner_seat w) db.members ≡ true
    → (commits (set_role_tx env a w t r db) ≡ true)
      ↔ (HasAuthority db a w t manage_roles (some r) × ((r ≡ owner) ⊎ KeepsOwner db w t))
set_role_iff env a w t r db k o = (
  λ h.
      let (authority, kept) = set_role_authority env a w t r db k h in
      (authority, either_role r kept),
  λ (h, g).
      set_role_complete env a w t r db k o h (λ n. elim g [ inl e ↦ absurd (n e) | inr x ↦ x ]),
)
