-- ===== src/Workspaces/Commits/Cap/Changes.antt =====
-- What a transaction can do to the invites, and that it keeps their caps.
use teri_chat.Prelude.{
  ℕ, ◌≡◌, ◌+◌, refl, Bool, true, Option, none, some, List, [], ◌∷◌, arith, leb, ◌==◌, ap,
  Bool-cases, inl, inr,
}
use teri_chat.Table.{find, update}
use teri_chat.Table.Laws.{find-update_hit, find-update_miss}
use teri_chat.Workspaces.Schema.{Invite}
use teri_chat.Workspaces.Invites.{invite_with}

abbrev pub within_cap : Option ℕ → ℕ → Bool
within_cap none uses = true
within_cap (some most) uses = leb uses most

-- Every invite that a look-up finds is within its cap.
abbrev pub Capped : List Invite → Type 0
Capped rows =
    (id : ℕ) (i : Invite)
    → find (invite_with id) rows ≡ some i
    → within_cap i.max_uses i.uses ≡ true

-- What a transaction does to the invites.
pub data InviteChange (rows : List Invite) (rows' : List Invite) : Type 0 where
  same : rows' ≡ rows → InviteChange rows rows'
  added : (i : Invite) → i.uses ≡ 0 → rows' ≡ i ∷ rows → InviteChange rows rows'
  revoked :
      (p : Invite → Bool)
      → rows' ≡ update p (λ i. record i { revoked = true }) rows
      → InviteChange rows rows'
  charged :
      (id : ℕ) (i : Invite)
      → find (invite_with id) rows ≡ some i
      → within_cap i.max_uses (i.uses + 1) ≡ true
      → rows' ≡ update (invite_with id) (λ x. record x { uses = x.uses + 1 }) rows
      → InviteChange rows rows'

revoked_before :
    (p : Invite → Bool) (id : ℕ) (rows : List Invite) (i : Invite)
    → find (invite_with id) (update p (λ x. record x { revoked = true }) rows) ≡ some i
    → (j : Invite) × (find (invite_with id) rows ≡ some j)
      × (j.max_uses ≡ i.max_uses)
      × (j.uses ≡ i.uses)
unfolding find update
revoked_before p id [] i h = absurd (ground arith)
revoked_before p id (x ∷ rows) i h = elim (Bool-cases (x.id == id)) [
  | inl e ↦ (x, ground arith, ground arith, ground arith)
  | inr e ↦ let r = revoked_before p id rows i (ground arith) in (r.0, ground arith, r.2, r.3)
]

charged-Capped :
    (k id : ℕ) (x i : Invite) (rows : List Invite)
    → find (invite_with k) rows ≡ some x
    → within_cap x.max_uses (x.uses + 1) ≡ true
    → Capped rows
    → find (invite_with id) (update (invite_with k) (λ y. record y { uses = y.uses + 1 }) rows)
      ≡ some i
    → within_cap i.max_uses i.uses ≡ true
charged-Capped k id x i rows f w c h = elim (Bool-cases (k == id)) [
  | inl s ↦ ground (
    arith,
    find-update_hit (invite_with id) (invite_with k) (λ y. record y { uses = y.uses + 1 }) rows
        (λ y e. ground arith) (λ y. refl),
    ap (λ n. find (invite_with n) rows) {x = k} {y = id},
  )
  | inr s ↦ ground (
    arith,
    find-update_miss (invite_with id) (invite_with k) (λ y. record y { uses = y.uses + 1 }) rows
        (λ y e. ground arith) (λ y. refl),
    c id i,
  )
]

pub InviteChange-Capped :
    {rows rows' : List Invite} → InviteChange rows rows' → Capped rows → Capped rows'
unfolding find
InviteChange-Capped (same e) c id i h = c id i (ground arith)
InviteChange-Capped (added x z e) c id i h = ground (arith, c id i)
InviteChange-Capped {rows} (revoked p e) c id i h =
    let r = revoked_before p id rows i (ground arith) in ground (arith, c id r.0 r.1, r.2, r.3)
InviteChange-Capped {rows} (charged k x f w e) c id i h =
    charged-Capped k id x i rows f w c (ground arith)
