-- ===== src/Workspaces/Overrides/Precedence.antt =====
-- What writing an override changes for whoever it concerns, and for nobody else.
use mathlib.Core.Option
use teri_chat.Prelude.{
  ℕ, ◌≡◌, Bool, true, false, Option, some, List, [], ◌∷◌, arith, ok, ◌⊎◌, Bool-cases, inl, inr,
  if◌then◌else◌,
}
use teri_chat.Table.{find}
use teri_chat.Workspaces.Role.{Role, Permission, role_eq}
use teri_chat.Workspaces.Schema.{Db, Env, Channel, ChannelOverride, Target, to_member, channel_with}
use teri_chat.Workspaces.Access.{role_of, is_banned}
use teri_chat.Workspaces.Statements.{record_audit}
use teri_chat.Workspaces.Overrides.{
  remove_override, permission_code, permission_eq, target_eq, override_of, upsert, set_override_tx,
  delete_override_tx, hit, effective, channel_allowed,
}

-- Whether an override is about a channel, a target and a permission.
abbrev pub about : ℕ → Target → Permission → ℕ → Target → Permission → Bool
about c t p d s q =
    override_of c t p (record { channel_id = d; target = s; permission = q; allowed = true })

allowed_in : ℕ → Target → Permission → List ChannelOverride → Option Bool
allowed_in c t p rows =
    Option.map (λ (o : ChannelOverride). o.allowed) (find (override_of c t p) rows)

permission_eq_sound : (p q : Permission) → permission_eq p q ≡ true → p ≡ q
unfolding permission_eq permission_code
permission_eq_sound p q h = ground arith

target_eq_sound : (s t : Target) → target_eq s t ≡ true → s ≡ t
unfolding target_eq role_eq
target_eq_sound s t h = ground arith

-- Rows of one key are about the same.
same_key :
    (c : ℕ) (t : Target) (p : Permission) (row o : ChannelOverride)
    → override_of row.channel_id row.target row.permission o ≡ true
    → override_of c t p o ≡ override_of c t p row
same_key c t p row o h =
    ground
      (arith, target_eq_sound o.target row.target, permission_eq_sound o.permission row.permission)

-- A row of another key is not about both.
other_key :
    (c : ℕ) (t : Target) (p : Permission) (d : ℕ) (s : Target) (q : Permission)
    (o : ChannelOverride)
    → override_of d s q o ≡ false
    → about c t p d s q ≡ true
    → override_of c t p o ≡ false
other_key c t p d s q o h k = ground (arith, target_eq_sound s t, permission_eq_sound q p)

allowed_in-upsert :
    (c : ℕ) (t : Target) (p : Permission) (row : ChannelOverride) (rows : List ChannelOverride)
    → allowed_in c t p (upsert row rows)
      ≡ (if override_of c t p row then some row.allowed else allowed_in c t p rows)
unfolding allowed_in upsert find
allowed_in-upsert c t p row [] = ground arith
allowed_in-upsert c t p row (o ∷ rows) =
    elim (Bool-cases (override_of row.channel_id row.target row.permission o)) [
      | inl e ↦ ground (arith, same_key c t p row o e)
      | inr e ↦ ground (
        arith,
        other_key c t p row.channel_id row.target row.permission o e,
        allowed_in-upsert c t p row rows,
      )
    ]

-- What an override says once another, or the same, was set.
pub hit-set_override :
    (env : Env) (a : ℕ) (read : Channel) (s : Target) (q : Permission) (b : Bool)
    (o : ChannelOverride) (db db' : Db) (c : ℕ) (t : Target) (p : Permission)
    → set_override_tx env a read s q b db ≡ ok (o, db')
    → hit c t p db' ≡ (if about c t p read.id s q then some b else hit c t p db)
unfolding set_override_tx record_audit hit allowed_in
hit-set_override env a read s q b o db db' c t p h = ground (
  arith,
  allowed_in-upsert c t p (record { channel_id = read.id; target = s; permission = q; allowed = b })
      db.overrides,
)

about_member : (c u : ℕ) (p : Permission) → about c (to_member u) p c (to_member u) p ≡ true
unfolding target_eq permission_eq
about_member c u p = ground arith

override_frame :
    (env : Env) (a : ℕ) (read : Channel) (s : Target) (q : Permission) (b : Bool)
    (o : ChannelOverride) (db db' : Db)
    → (set_override_tx env a read s q b db ≡ ok (o, db'))
      ⊎ (delete_override_tx env a read s q db ≡ ok (tt, db'))
    → (db'.channels ≡ db.channels) × (db'.members ≡ db.members) × (db'.bans ≡ db.bans)
unfolding set_override_tx delete_override_tx remove_override record_audit
override_frame env a read s q b o db db' h = (ground arith, ground arith, ground arith)

-- Setting an override for a member decides what that member may do in the channel, whatever the
-- member's role and its overrides say, as long as the member is seated and not banned.
pub channel_allowed-set_override :
    (env : Env) (a : ℕ) (read channel : Channel) (u : ℕ) (p : Permission) (b : Bool)
    (o : ChannelOverride) (role : Role) (db db' : Db)
    → set_override_tx env a read (to_member u) p b db ≡ ok (o, db')
    → find (channel_with read.id) db.channels ≡ some channel
    → role_of channel.workspace_id u db ≡ some role
    → is_banned channel.workspace_id u db ≡ false
    → channel_allowed read.id u p db' ≡ b
unfolding channel_allowed role_of is_banned effective
channel_allowed-set_override env a read channel u p b o role db db' h f r n = ground (
  arith,
  override_frame env a read (to_member u) p b o db db' (inl h),
  hit-set_override env a read (to_member u) p b o db db' read.id (to_member u) p h,
  about_member read.id u p,
)
