-- ===== src/Workspaces/Moderation/Removal.antt =====
-- Exactly when a kick or a ban goes through.
use teri_chat.Prelude.{ℕ, ◌≡◌, ◌↔◌, inl, inr, true, none, arith, Result-cases}
use teri_chat.Prelude.Text.{Text}
use teri_chat.Table.{exists}
use teri_chat.Workspaces.Role.{owner, kick_members, ban_members}
use teri_chat.Workspaces.Role.Laws.{role_eq_iff}
use teri_chat.Workspaces.Schema.{Db, Env}
use teri_chat.Workspaces.Access.{owner_seat}
use teri_chat.Workspaces.Access.Gates.{IsKeyed}
use teri_chat.Workspaces.Statements.{
  record_audit, delete_seat, insert_ban, sync_remove_from_channels, drop_member_overrides,
}
use teri_chat.Workspaces.Moderation.{remove_member_tx, ban_member_tx, locked_authority}
use teri_chat.Workspaces.Moderation.Authority.{
  commits, HasAuthority, KeepsOwner, authority_sound, authority_complete, owner_after_delete,
  exists_seat_of_role,
}

remove_member_complete :
    (env : Env) (a w t : ℕ) (db : Db)
    → IsKeyed db.members
    → exists (owner_seat w) db.members ≡ true
    → (h : HasAuthority db a w t kick_members none) → KeepsOwner db w t
    → commits (remove_member_tx env a w t db) ≡ true
unfolding remove_member_tx delete_seat sync_remove_from_channels drop_member_overrides record_audit
remove_member_complete env a w t db k o h g = ground (
  arith,
  authority_complete a w t kick_members none db k h,
  owner_after_delete w t h.current db k o h.target_seat,
  exists_seat_of_role w t h.current db h.target_seat,
  role_eq_iff h.current owner,
  g,
)

remove_member_sound :
    (env : Env) (a w t : ℕ) (db : Db)
    → IsKeyed db.members
    → commits (remove_member_tx env a w t db) ≡ true
    → HasAuthority db a w t kick_members none × KeepsOwner db w t
unfolding remove_member_tx
remove_member_sound env a w t db k h =
    elim (Result-cases (locked_authority a w t kick_members none db)) [
      | inl (x, e) ↦ (
        (authority_sound a w t kick_members none db k e).0,
        λ o. ground (arith, authority_sound a w t kick_members none db k e, role_eq_iff x.0 owner),
      )
      | inr (x, e) ↦ absurd (ground arith)
    ]

-- Under the primary key of the seats, in a workspace that has an owner, a kick commits exactly
-- when the actor may kick at that moment, is an owner or outranks the target, and the target is
-- not the last owner.
pub remove_member_iff :
    (env : Env) (a w t : ℕ) (db : Db)
    → IsKeyed db.members
    → exists (owner_seat w) db.members ≡ true
    → (commits (remove_member_tx env a w t db) ≡ true)
      ↔ (HasAuthority db a w t kick_members none × KeepsOwner db w t)
remove_member_iff env a w t db k o =
    (remove_member_sound env a w t db k, λ (h, g). remove_member_complete env a w t db k o h g)

ban_member_complete :
    (env : Env) (a w t : ℕ) (reason : Text) (db : Db)
    → IsKeyed db.members
    → exists (owner_seat w) db.members ≡ true
    → (h : HasAuthority db a w t ban_members none) → KeepsOwner db w t
    → commits (ban_member_tx env a w t reason db) ≡ true
unfolding ban_member_tx delete_seat sync_remove_from_channels drop_member_overrides insert_ban
    record_audit
ban_member_complete env a w t reason db k o h g = ground (
  arith,
  authority_complete a w t ban_members none db k h,
  owner_after_delete w t h.current db k o h.target_seat,
  exists_seat_of_role w t h.current db h.target_seat,
  role_eq_iff h.current owner,
  g,
)

ban_member_sound :
    (env : Env) (a w t : ℕ) (reason : Text) (db : Db)
    → IsKeyed db.members
    → commits (ban_member_tx env a w t reason db) ≡ true
    → HasAuthority db a w t ban_members none × KeepsOwner db w t
unfolding ban_member_tx
ban_member_sound env a w t reason db k h =
    elim (Result-cases (locked_authority a w t ban_members none db)) [
      | inl (x, e) ↦ (
        (authority_sound a w t ban_members none db k e).0,
        λ o. ground (arith, authority_sound a w t ban_members none db k e, role_eq_iff x.0 owner),
      )
      | inr (x, e) ↦ absurd (ground arith)
    ]

-- Under the primary key of the seats, in a workspace that has an owner, a ban commits exactly
-- when the actor may ban at that moment, is an owner or outranks the target, and the target is
-- not the last owner.
pub ban_member_iff :
    (env : Env) (a w t : ℕ) (reason : Text) (db : Db)
    → IsKeyed db.members
    → exists (owner_seat w) db.members ≡ true
    → (commits (ban_member_tx env a w t reason db) ≡ true)
      ↔ (HasAuthority db a w t ban_members none × KeepsOwner db w t)
ban_member_iff env a w t reason db k o = (
  ban_member_sound env a w t reason db k,
  λ (h, g). ban_member_complete env a w t reason db k o h g,
)
