-- ===== src/Workspaces/Moderation/Consequences.antt =====
-- What a committed role change, kick or ban leaves behind, for the target and for all others.
use mathlib.Core.Path.{ap₂}
use teri_chat.Prelude.{ℕ, ◌<◌, ◌≡◌, ◌≢◌, ◌⊎◌, some, arith, ok, if◌then◌else◌}
use teri_chat.Table.{find}
use teri_chat.Table.Laws.{exists-eq-is_some}
use teri_chat.Workspaces.Role.{Role, owner, rank}
use teri_chat.Workspaces.Schema.{Db, Env, seat_of}
use teri_chat.Workspaces.Access.{role_of}
use teri_chat.Workspaces.Access.Gates.{IsKeyed}
use teri_chat.Workspaces.Statements.{record_audit, update_role}
use teri_chat.Workspaces.Statements.Effects.{same_seat, find-update_seat}
use teri_chat.Workspaces.Moderation.{set_role_tx}
use teri_chat.Workspaces.Moderation.Authority.{set_role_authority}

-- A committed role change gives the target the new role, and leaves every other seat as it was.
pub role_of-set_role :
    (env : Env) (a w t : ℕ) (r : Role) (db db' : Db) (v u : ℕ)
    → set_role_tx env a w t r db ≡ ok (tt, db')
    → role_of v u db' ≡ (if same_seat w t v u then some r else role_of v u db)
unfolding set_role_tx update_role record_audit role_of
role_of-set_role env a w t r db db' v u h =
    ground
      (arith, find-update_seat w t v u r db.members, exists-eq-is_some (seat_of w t) db.members)

pub find_same :
    (w t v u : ℕ) (db : Db)
    → w ≡ v
    → t ≡ u
    → find (seat_of w t) db.members ≡ find (seat_of v u) db.members
find_same w t v u db p q = ap₂ (λ x y. find (seat_of x y) db.members) p q

outranked :
    (env : Env) (a w t : ℕ) (r actor : Role) (db db' : Db)
    → IsKeyed db.members
    → set_role_tx env a w t r db ≡ ok (tt, db')
    → role_of w a db ≡ some actor
    → (actor ≡ owner) ⊎ (rank r < rank actor)
outranked env a w t r actor db db' k h e =
    let found = (set_role_authority env a w t r db k (rw h)).0 in
    ground (arith, found.actor_seat, found.outranks)

-- Under the primary key of the seats, when an actor who is not an owner commits a role change,
-- each seat whose role it alters ends below the actor's role at that moment.
pub no_escalation :
    (env : Env) (a w t : ℕ) (r actor : Role) (db db' : Db) (v u : ℕ) (x : Role)
    → IsKeyed db.members
    → set_role_tx env a w t r db ≡ ok (tt, db')
    → role_of w a db ≡ some actor
    → actor ≢ owner
    → role_of v u db' ≡ some x
    → role_of v u db ≢ some x
    → rank x < rank actor
unfolding rank
no_escalation env a w t r actor db db' v u x k h e n after before =
    ground
      (arith, role_of-set_role env a w t r db db' v u h, outranked env a w t r actor db db' k h e)
