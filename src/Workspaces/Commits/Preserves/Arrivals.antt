-- ===== src/Workspaces/Commits/Preserves/Arrivals.antt =====
-- The invariant when a workspace, a seat or a channel comes, is renamed or goes.
use teri_chat.Workspaces.Commits.Preserves.Views.{
  exists_carries-update, exists_carries-delete, find-none_of_exists, seat_same,
}
use teri_chat.Prelude.{ℕ, ◌≡◌, sym, ap, ◌∙◌, Bool, true, false, List, ◌∷◌, arith, ◌==◌}
use teri_chat.Prelude.Text.{Text}
use teri_chat.Table.{exists, select, delete, update}
use teri_chat.Workspaces.Role.{owner, role_eq}
use teri_chat.Workspaces.Schema.{
  Workspace, Seat, Channel, seat_of, participant_of, channel_in, channel_with,
}
use teri_chat.Workspaces.Statements.{add_to_channels, add_members, carries}
use teri_chat.Workspaces.Statements.Effects.{
  carried, exists-add_to_channels, exists-add_members, exists-delete_participants,
  exists-select_channels, exists-select_seats,
}
use teri_chat.Workspaces.Commits.Core.{Core, Keeps, WellFormed}

pub founded-WellFormed :
    (p : ℕ → Bool) (c : Core) (row : Workspace) (seat : Seat)
    → seat.workspace_id ≡ row.id
    → seat.role ≡ owner
    → exists (seat_of seat.workspace_id seat.user_id) c.members ≡ false
    → ((k : ℕ) → exists (carries row.id k) c.channels ≡ false)
    → WellFormed p c
    → WellFormed p (record c { workspaces = row ∷ c.workspaces; members = seat ∷ c.members })
unfolding exists role_eq
founded-WellFormed p c row seat e0 q n new h = record {
  keyed = (find-none_of_exists seat.workspace_id seat.user_id c.members n, h.keyed);
  owned = λ v e. ground (arith, e0, q, h.owned v);
  single = h.single;
  roster = λ v k u e. ground (
    arith,
    e0,
    new k,
    h.roster v k u e,
    ap (λ x. exists (carries x k) c.channels) {x = row.id} {y = v},
  );
}

pub renamed-WellFormed :
    (p : ℕ → Bool) (c : Core) (rows : List Workspace)
    → Keeps c.workspaces rows
    → WellFormed p c
    → WellFormed p (record c { workspaces = rows })
renamed-WellFormed p c rows k h = record {
  keyed = h.keyed;
  owned = λ v e. h.owned v (sym (k v) ∙ e);
  single = h.single;
  roster = h.roster;
}

pub seated-WellFormed :
    (p : ℕ → Bool) (c : Core) (seat : Seat)
    → exists (seat_of seat.workspace_id seat.user_id) c.members ≡ false
    → WellFormed p c
    → WellFormed p (record c {
      members = seat ∷ c.members;
      participants =
          add_to_channels seat.user_id
            (select (channel_in seat.workspace_id) c.channels)
            c.participants;
    })
unfolding exists
seated-WellFormed p c seat n h = record {
  keyed = (find-none_of_exists seat.workspace_id seat.user_id c.members n, h.keyed);
  owned = λ v e. ground (arith, h.owned v e);
  single = h.single;
  roster = λ v k u e. ground (
    arith,
    exists-add_to_channels seat.user_id k u (select (channel_in seat.workspace_id) c.channels)
        c.participants,
    exists-select_channels seat.workspace_id k c.channels,
    h.roster v k u e,
    h.single v seat.workspace_id k e,
    ap (λ x. exists (carries x k) c.channels) {x = seat.workspace_id} {y = v},
  );
}

-- A repair of a roster, which gives a user of `p` nothing beyond a seat.
pub repaired-WellFormed :
    (p : ℕ → Bool) (c : Core) (w t : ℕ)
    → (p t ≡ true → exists (seat_of w t) c.members ≡ true)
    → WellFormed p c
    → WellFormed p (record c {
      participants = add_to_channels t (select (channel_in w) c.channels) c.participants;
    })
repaired-WellFormed p c w t s h = record {
  keyed = h.keyed;
  owned = h.owned;
  single = h.single;
  roster = λ v k u e. ground (
    arith,
    exists-add_to_channels t k u (select (channel_in w) c.channels) c.participants,
    exists-select_channels w k c.channels,
    h.roster v k u e,
    h.single v w k e,
    s,
    ap p {x = t} {y = u},
    seat_same w t v u c.members,
  );
}

pub channel_opened-WellFormed :
    (p : ℕ → Bool) (c : Core) (row : Channel)
    → ((w : ℕ) → exists (carries w row.conversation_id) c.channels ≡ false)
    → ((u : ℕ) → exists (participant_of row.conversation_id u) c.participants ≡ false)
    → WellFormed p c
    → WellFormed p (record c {
      channels = row ∷ c.channels;
      participants =
          add_members row.conversation_id
            (select (λ (m : Seat). m.workspace_id == row.workspace_id) c.members)
            c.participants;
    })
unfolding exists
channel_opened-WellFormed p c row n m h = record {
  keyed = h.keyed;
  owned = h.owned;
  single = λ v w k e f. ground (
    arith,
    h.single v w k,
    n v,
    n w,
    ap (λ x. exists (carries v x) c.channels) {x = row.conversation_id} {y = k},
    ap (λ x. exists (carries w x) c.channels) {x = row.conversation_id} {y = k},
  );
  roster = λ v k u e. ground (
    arith,
    exists-add_members row.conversation_id k u
        (select (λ (m : Seat). m.workspace_id == row.workspace_id) c.members) c.participants,
    exists-select_seats row.workspace_id u c.members,
    h.roster v k u,
    n v,
    m u,
    ap (λ x. exists (carries v x) c.channels) {x = row.conversation_id} {y = k},
    ap (λ x. exists (participant_of x u) c.participants) {x = row.conversation_id} {y = k},
    ap (λ x. exists (seat_of x u) c.members) {x = row.workspace_id} {y = v},
  );
}

pub channel_renamed-WellFormed :
    (p : ℕ → Bool) (c : Core) (id : ℕ) (name : Text)
    → WellFormed p c
    → WellFormed p (record c {
      channels = update (channel_with id) (λ r. record r { name = name }) c.channels;
    })
channel_renamed-WellFormed p c id name h = record {
  keyed = h.keyed;
  owned = h.owned;
  single = λ v w k e f.
      h.single v w k (sym (exists_carries-update v k id name c.channels) ∙ e)
        (sym (exists_carries-update w k id name c.channels) ∙ f);
  roster = λ v k u e. h.roster v k u (sym (exists_carries-update v k id name c.channels) ∙ e);
}

pub channel_deleted-WellFormed :
    (p : ℕ → Bool) (c : Core) (conversation : ℕ)
    → WellFormed p c
    → WellFormed p (record c {
      channels = delete (carried conversation) c.channels;
      participants = delete (λ p. p.conversation_id == conversation) c.participants;
    })
channel_deleted-WellFormed p c conversation h = record {
  keyed = h.keyed;
  owned = h.owned;
  single = λ v w k e f. ground (
    arith,
    h.single v w k,
    exists_carries-delete v k conversation c.channels,
    exists_carries-delete w k conversation c.channels,
  );
  roster = λ v k u e. ground (
    arith,
    h.roster v k u,
    exists_carries-delete v k conversation c.channels,
    exists-delete_participants (λ x y. x == conversation) k u c.participants,
  );
}
