-- ===== src/Workspaces/Commits/Preserves/Departures.antt =====
-- The invariant when a role changes and when a seat goes.
use teri_chat.Workspaces.Commits.Preserves.Views.{exists_seat-update, exists_seat-delete, seat_same}
use teri_chat.Prelude.{
  ℕ, ◌≡◌, ◌≢◌, ap, ◌∙◌, Bool, true, false, not, ◌&&◌, ◌||◌, if◌then◌else◌, List, arith, ◌==◌,
}
use mathlib.Core.Path.{subst}
use native.Mathlib.Decide.{ℕ_discrete}
use teri_chat.Table.{exists, delete, update}
use teri_chat.Workspaces.Role.{Role}
use teri_chat.Workspaces.Schema.{Seat, Channel, seat_of, participant_of}
use teri_chat.Workspaces.Access.{owner_seat}
use teri_chat.Workspaces.Statements.{carries, channel_participant}
use teri_chat.Workspaces.Statements.Effects.{
  with_role, same_seat, delete-IsKeyed, update-IsKeyed, exists-owner-delete, exists-owner-update,
  exists-delete_participants,
}
use teri_chat.Workspaces.Commits.Core.{Core, WellFormed}

-- An owner stays in every workspace if one stays where the change was.
owner_kept :
    (v w : ℕ) (rows rows' : List Seat)
    → exists (owner_seat w) rows' ≡ true
    → (w ≢ v → exists (owner_seat v) rows' ≡ exists (owner_seat v) rows)
    → exists (owner_seat v) rows ≡ true
    → exists (owner_seat v) rows' ≡ true
owner_kept v w rows rows' g other h = elim (ℕ_discrete w v) [
  | yes e ↦ subst (λ x. exists (owner_seat x) rows' ≡ true) e g
  | no ne ↦ other ne ∙ h
]

pub promoted-WellFormed :
    (p : ℕ → Bool) (c : Core) (w t : ℕ) (r : Role)
    → exists (owner_seat w) (update (seat_of w t) (with_role r) c.members) ≡ true
    → WellFormed p c
    → WellFormed p (record c { members = update (seat_of w t) (with_role r) c.members })
promoted-WellFormed p c w t r g h = record {
  keyed = update-IsKeyed w t r c.members h.keyed;
  owned = λ v e. owner_kept v w c.members _ g (exists-owner-update w t v r c.members) (h.owned v e);
  single = h.single;
  roster = λ v k u e. rw exists_seat-update (h.roster v k u e);
}

-- Whether the roster of a channel loses a user, by the ids alone.
abbrev leaves : List Channel → ℕ → ℕ → ℕ → ℕ → Bool
leaves channels w t k u = u == t && exists (carries w k) channels

-- The roster that is left, of the seats that are left.
abbrev Left : (ℕ → Bool) → Core → ℕ → ℕ → ℕ → ℕ → ℕ → Type 0
Left p c w t v k u =
    exists (participant_of k u) (delete (channel_participant w t c.channels) c.participants) ≡ (
      if p u
      then exists (seat_of v u) c.members && not (same_seat w t v u)
      else (exists (seat_of v u) c.members && not (same_seat w t v u))
        || exists (participant_of k u) (delete (channel_participant w t c.channels) c.participants))

removed-roster :
    (p : ℕ → Bool) (c : Core) (w t v k u : ℕ)
    → WellFormed p c
    → exists (carries v k) c.channels ≡ true
    → Left p c w t v k u
removed-roster p c w t v k u h e =
    let gone : exists (participant_of k u)
          (delete (channel_participant w t c.channels) c.participants)
        ≡ (exists (participant_of k u) c.participants && not (leaves c.channels w t k u)) =
      exists-delete_participants (leaves c.channels w t) k u c.participants in
    ground (
      arith,
      gone,
      h.roster v k u e,
      h.single v w k e,
      ap (λ x. exists (carries x k) c.channels) {x = w} {y = v},
    )

pub removed-WellFormed :
    (p : ℕ → Bool) (c : Core) (w t : ℕ)
    → exists (owner_seat w) (delete (seat_of w t) c.members) ≡ true
    → WellFormed p c
    → WellFormed p (record c {
      members = delete (seat_of w t) c.members;
      participants = delete (channel_participant w t c.channels) c.participants;
    })
removed-WellFormed p c w t g h = record {
  keyed = delete-IsKeyed w t c.members h.keyed;
  owned = λ v e. owner_kept v w c.members _ g (exists-owner-delete w t v c.members) (h.owned v e);
  single = h.single;
  roster = λ v k u e. rw exists_seat-delete (removed-roster p c w t v k u h e);
}

pub left-WellFormed :
    (p : ℕ → Bool) (c : Core) (w t : ℕ)
    → exists (seat_of w t) c.members ≡ false
    → WellFormed p c
    → WellFormed p
        (record c { participants = delete (channel_participant w t c.channels) c.participants })
left-WellFormed p c w t g h = record {
  keyed = h.keyed;
  owned = h.owned;
  single = h.single;
  roster =
      λ v k u e. ground (arith, removed-roster p c w t v k u h e, g, seat_same w t v u c.members);
}
