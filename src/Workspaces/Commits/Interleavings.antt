-- ===== src/Workspaces/Commits/Interleavings.antt =====
-- The membership invariant under every order of commits.
use teri_chat.Prelude.{ℕ, ◌≡◌, Bool, true, not, ◌||◌, ok, arith}
use mathlib.Core.Path.{subst, sym}
use teri_chat.Table.{exists, select}
use teri_chat.Workspaces.Schema.{Db, seat_of, channel_in}
use teri_chat.Workspaces.Statements.{sync_add_to_channels, add_to_channels}
use teri_chat.Workspaces.Healing.{ensure_channel_participation}
use teri_chat.Workspaces.Commits.Core.{core, WellFormed, Committed}
use teri_chat.Workspaces.Commits.Refines.{Committed-Change}
use teri_chat.Workspaces.Commits.Preserves.{Change-WellFormed}
use teri_chat.Workspaces.Commits.Preserves.Arrivals.{repaired-WellFormed}

-- What commits: a transaction, or the repair of a user's participation in the channels of a
-- workspace. The repair reads no seat: its callers have read one, in an earlier state.
pub data Step (db : Db) (db' : Db) : Type 0 where
  committed : Committed db db' → Step db db'
  repaired :
      (workspace user : ℕ)
      → ensure_channel_participation workspace user db ≡ ok (tt, db')
      → Step db db'

-- The states that the steps reach, in any order of commits.
pub data Reach (db : Db) : Db → Type 0 where
  here : Reach db db
  next : {s t : Db} → Reach db s → Step s t → Reach db t

-- A repair of a user whom `punctual` picks commits while the user has a seat.
abbrev pub TimelyStep : (ℕ → Bool) → {db db' : Db} → Step db db' → Type 0
TimelyStep punctual (committed c) = Unit {0}
TimelyStep punctual {db} (repaired w u e) =
    (not (punctual u) || exists (seat_of w u) db.members) ≡ true

abbrev pub Timely : (ℕ → Bool) → {db db' : Db} → Reach db db' → Type 0
Timely punctual here = Unit {0}
Timely punctual (next r s) = Timely punctual r × TimelyStep punctual s

repair-core :
    (w u : ℕ) (db db' : Db)
    → ensure_channel_participation w u db ≡ ok (tt, db')
    → core db' ≡ record (core db) {
      participants = add_to_channels u (select (channel_in w) db.channels) db.participants;
    }
unfolding ensure_channel_participation sync_add_to_channels
repair-core w u db db' e = ground arith

-- From a well-formed database, whatever transactions and repairs of rosters commit one after the
-- other, with any arguments, every database that they reach is well-formed: one seat to a user and
-- workspace, an owner in every workspace, a conversation in the channels of one workspace at most,
-- and in the roster of a channel all members of its workspace. Nobody else of the `punctual` users
-- is in the roster, who are any users whose repairs commit while they have the seat that the
-- caller of the repair read before. The ids that a workspace or a channel is created with are new.
pub Reach-WellFormed :
    (punctual : ℕ → Bool) {db db' : Db} (r : Reach db db')
    → Timely punctual r
    → WellFormed punctual (core db)
    → WellFormed punctual (core db')
Reach-WellFormed p here t h = h
Reach-WellFormed p (next r (committed c)) t h =
    Change-WellFormed (Committed-Change c) (Reach-WellFormed p r t.0 h)
Reach-WellFormed p (next {s} {t = s'} r (repaired w u e)) t h =
    subst (WellFormed p) (sym (repair-core w u s s' e))
      (repaired-WellFormed p (core s) w u (λ p. ground (arith, t.1)) (Reach-WellFormed p r t.0 h))
