-- ===== src/Workspaces/Commits/Core.antt =====
-- The tables that the membership invariants read, how a committed transaction can change them,
-- and the invariant.
use teri_chat.Prelude.{ℕ, ◌≡◌, Bool, true, false, Option, List, ◌∷◌, ok, ◌==◌, ◌||◌, if◌then◌else◌}
use teri_chat.Prelude.Text.{Text}
use teri_chat.Prelude.Int.{ℤ}
use teri_chat.Table.{exists, select, delete, update}
use teri_chat.Workspaces.Role.{Role, owner, Permission}
use teri_chat.Workspaces.Schema.{
  Db, Env, Workspace, Seat, Channel, Participant, Invite, Target, seat_of, participant_of,
  channel_in, channel_with, workspace_with, ChannelOverride,
}
use teri_chat.Workspaces.Access.{owner_seat}
use teri_chat.Workspaces.Access.Gates.{IsKeyed}
use teri_chat.Workspaces.Statements.{add_to_channels, add_members, carries, channel_participant}
use teri_chat.Workspaces.Statements.Effects.{with_role, carried}
use teri_chat.Workspaces.Members.{create_workspace_tx, rename_workspace_tx, add_member_tx, leave_tx}
use teri_chat.Workspaces.Moderation.{set_role_tx, remove_member_tx, ban_member_tx, unban_tx}
use teri_chat.Workspaces.Channels.{create_channel_tx, rename_channel_tx, delete_channel_tx}
use teri_chat.Workspaces.Overrides.{set_override_tx, delete_override_tx}
use teri_chat.Workspaces.Invites.{create_invite_tx, revoke_invite_tx, join_tx}

pub record Core : Type 0 where
  pub workspaces : List Workspace
  pub members : List Seat
  pub channels : List Channel
  pub participants : List Participant

abbrev pub core : Db → Core
core db = record {
  workspaces = db.workspaces;
  members = db.members;
  channels = db.channels;
  participants = db.participants;
}

-- The ids of a request are new: no channel stands in its workspace, and no channel and no
-- participant names its conversation.
pub record IsFresh (env : Env) (c : Core) : Type 0 where
  pub no_workspace : (k : ℕ) → exists (carries env.id k) c.channels ≡ false
  pub no_channel : (w : ℕ) → exists (carries w env.conversation_id) c.channels ≡ false
  pub no_participant :
      (u : ℕ) → exists (participant_of env.conversation_id u) c.participants ≡ false

abbrev pub Keeps : List Workspace → List Workspace → Type 0
Keeps before rows = (w : ℕ) → exists (workspace_with w) rows ≡ exists (workspace_with w) before

-- What a committed transaction may do to the core tables.
pub data Change (c : Core) (c' : Core) : Type 0 where
  same : c' ≡ c → Change c c'
  founded :
      (row : Workspace) (seat : Seat)
      → seat.workspace_id ≡ row.id
      → seat.role ≡ owner
      → exists (seat_of seat.workspace_id seat.user_id) c.members ≡ false
      → ((k : ℕ) → exists (carries row.id k) c.channels ≡ false)
      → c' ≡ record c { workspaces = row ∷ c.workspaces; members = seat ∷ c.members }
      → Change c c'
  renamed :
      (rows : List Workspace)
      → Keeps c.workspaces rows
      → c' ≡ record c { workspaces = rows }
      → Change c c'
  seated :
      (seat : Seat)
      → exists (seat_of seat.workspace_id seat.user_id) c.members ≡ false
      → c' ≡ record c {
        members = seat ∷ c.members;
        participants =
            add_to_channels seat.user_id
              (select (channel_in seat.workspace_id) c.channels)
              c.participants;
      }
      → Change c c'
  promoted :
      (w t : ℕ) (r : Role)
      → exists (owner_seat w) (update (seat_of w t) (with_role r) c.members) ≡ true
      → c' ≡ record c { members = update (seat_of w t) (with_role r) c.members }
      → Change c c'
  removed :
      (w t : ℕ)
      → exists (owner_seat w) (delete (seat_of w t) c.members) ≡ true
      → c' ≡ record c {
        members = delete (seat_of w t) c.members;
        participants = delete (channel_participant w t c.channels) c.participants;
      }
      → Change c c'
  left :
      (w t : ℕ)
      → exists (seat_of w t) c.members ≡ false
      → c' ≡ record c { participants = delete (channel_participant w t c.channels) c.participants }
      → Change c c'
  channel_opened :
      (row : Channel)
      → ((w : ℕ) → exists (carries w row.conversation_id) c.channels ≡ false)
      → ((u : ℕ) → exists (participant_of row.conversation_id u) c.participants ≡ false)
      → c' ≡ record c {
        channels = row ∷ c.channels;
        participants =
            add_members row.conversation_id
              (select (λ (m : Seat). m.workspace_id == row.workspace_id) c.members)
              c.participants;
      }
      → Change c c'
  channel_renamed :
      (id : ℕ) (name : Text)
      → c' ≡ record c {
        channels = update (channel_with id) (λ r. record r { name = name }) c.channels;
      }
      → Change c c'
  channel_deleted :
      (conversation : ℕ)
      → c' ≡ record c {
        channels = delete (carried conversation) c.channels;
        participants = delete (λ p. p.conversation_id == conversation) c.participants;
      }
      → Change c c'

-- The invariant of the core tables: one seat to a user and workspace; an owner in every
-- workspace; a conversation carried by channels of one workspace at most; and in the roster of a
-- channel's conversation every user with a seat in its workspace, and of the users that `punctual`
-- picks nobody else.
pub record WellFormed (punctual : ℕ → Bool) (c : Core) : Type 0 where
  pub keyed : IsKeyed c.members
  pub owned :
      (w : ℕ)
      → exists (workspace_with w) c.workspaces ≡ true
      → exists (owner_seat w) c.members ≡ true
  pub single :
      (v w conversation : ℕ)
      → exists (carries v conversation) c.channels ≡ true
      → exists (carries w conversation) c.channels ≡ true
      → v ≡ w
  pub roster :
      (w conversation u : ℕ)
      → exists (carries w conversation) c.channels ≡ true
      → exists (participant_of conversation u) c.participants ≡ (
          if punctual u
          then exists (seat_of w u) c.members
          else exists (seat_of w u) c.members
            || exists (participant_of conversation u) c.participants)

-- A transaction that has committed.
pub data Committed (db : Db) (db' : Db) : Type 0 where
  create_workspace :
      (env : Env) (user : ℕ) (name : Text) {w : Workspace}
      → IsFresh env (core db)
      → create_workspace_tx env user name db ≡ ok (w, db')
      → Committed db db'
  rename_workspace :
      (env : Env) (actor workspace : ℕ) (name : Text) {w : Workspace}
      → rename_workspace_tx env actor workspace name db ≡ ok (w, db')
      → Committed db db'
  add_member :
      (env : Env) (actor workspace target : ℕ) (role : Role)
      → add_member_tx env actor workspace target role db ≡ ok (tt, db')
      → Committed db db'
  leave :
      (env : Env) (user workspace : ℕ) (current : Role)
      → leave_tx env user workspace current db ≡ ok (tt, db')
      → Committed db db'
  set_role :
      (env : Env) (actor workspace target : ℕ) (role : Role)
      → set_role_tx env actor workspace target role db ≡ ok (tt, db')
      → Committed db db'
  remove_member :
      (env : Env) (actor workspace target : ℕ)
      → remove_member_tx env actor workspace target db ≡ ok (tt, db')
      → Committed db db'
  ban_member :
      (env : Env) (actor workspace target : ℕ) (reason : Text)
      → ban_member_tx env actor workspace target reason db ≡ ok (tt, db')
      → Committed db db'
  unban :
      (env : Env) (actor workspace target : ℕ)
      → unban_tx env actor workspace target db ≡ ok (tt, db')
      → Committed db db'
  create_channel :
      (env : Env) (actor workspace : ℕ) (name : Text) {c : Channel}
      → IsFresh env (core db)
      → create_channel_tx env actor workspace name db ≡ ok (c, db')
      → Committed db db'
  rename_channel :
      (env : Env) (actor : ℕ) (read : Channel) (name : Text) {c : Channel}
      → rename_channel_tx env actor read name db ≡ ok (c, db')
      → Committed db db'
  delete_channel :
      (env : Env) (actor : ℕ) (read : Channel)
      → delete_channel_tx env actor read db ≡ ok (tt, db')
      → Committed db db'
  set_override :
      (env : Env) (actor : ℕ) (read : Channel) (target : Target) (p : Permission) (allowed : Bool)
      {o : ChannelOverride}
      → set_override_tx env actor read target p allowed db ≡ ok (o, db')
      → Committed db db'
  delete_override :
      (env : Env) (actor : ℕ) (read : Channel) (target : Target) (p : Permission)
      → delete_override_tx env actor read target p db ≡ ok (tt, db')
      → Committed db db'
  create_invite :
      (env : Env) (actor workspace : ℕ) (role : Role) (ttl max_uses : Option ℤ) {i : Invite}
      → create_invite_tx env actor workspace role ttl max_uses db ≡ ok (i, db')
      → Committed db db'
  revoke_invite :
      (env : Env) (actor workspace invite : ℕ)
      → revoke_invite_tx env actor workspace invite db ≡ ok (tt, db')
      → Committed db db'
  join_via_invite :
      (env : Env) (user : ℕ) (read : Invite) {seated : Bool}
      → join_tx env user read db ≡ ok (seated, db')
      → Committed db db'
