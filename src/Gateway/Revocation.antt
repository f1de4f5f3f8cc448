-- ===== src/Gateway/Revocation.antt =====
-- A session that is revoked, by a request of apps/server/src/session_management.rs, streams nothing
-- any more.
use teri_chat.Prelude.{ℕ, ◌≡◌, ap, refl, false, not, ◌&&◌, some, List, [], ◌∷◌, ok, arith}
use teri_chat.Table.{exists}
use teri_chat.Auth.Schema.{AuthDb, Libraries, SessionRow, session_with}
use teri_chat.Auth.Sessions.{unrevoked}
use teri_chat.Auth.Management.{revoke_owned}
use teri_chat.Auth.Calls.{Reach, Reach-Dead, with_sessions}
use teri_chat.Auth.Revocation.{revoke_owned_target-Dead, id-Lasting}
use teri_chat.Gateway.Schema.{AuthSession}
use teri_chat.Gateway.Visibility.{session_live, stands}
use teri_chat.Gateway.Pump.{Connection, Turn, run}
use teri_chat.Gateway.Pump.Safety.{io_of, dead_in, run-dead}

module _ (l : Libraries) where
  -- Every turn sees the sessions of a state that the calls that write have led to from `s`.
  pub data After (s : AuthDb) : List Turn → Type 0 where
    none_left : After s []
    turn_after :
        {turns : List Turn} (t : Turn) (now : AuthDb)
        → Reach l s now
        → (io_of t).world.sessions ≡ now.sessions
        → After s turns
        → After s (t ∷ turns)

revoked_stands :
    (session : AuthSession) (now : ℕ) (rows : List SessionRow)
    → exists (λ row. session_with session.session_id row && unrevoked row) rows ≡ false
    → exists (stands session now) rows ≡ false
unfolding exists
revoked_stands session now [] e = refl
revoked_stands session now (x ∷ rows) e = ground (arith, revoked_stands session now rows)

module _ (l : Libraries) where
  After-dead :
      (session : AuthSession) (now user_id caller : ℕ) (db : AuthDb) (rows : List SessionRow)
      (turns : List Turn)
      → revoke_owned now user_id caller session.session_id db.sessions ≡ (ok tt, rows)
      → After l (with_sessions l db rows) turns
      → exists (λ t. not (dead_in session t)) turns ≡ false
  unfolding exists session_live
  After-dead session now user_id caller db rows [] h none_left = refl
  After-dead session now user_id caller db rows (t ∷ turns) h
        (turn_after same_turn state r e rest) =
      let k =
        Reach-Dead l (session_with session.session_id) (id-Lasting session.session_id) r
          (revoke_owned_target-Dead now user_id caller session.session_id db.sessions rows h) in
      ground (
        arith,
        ap (exists (stands session (io_of t).world.now)) e,
        revoked_stands session (io_of t).world.now state.sessions k.revoked,
        After-dead session now user_id caller db rows turns h rest,
      )

  -- Once the session of a connection has been revoked, the connection sends no frame any more,
  -- whatever turns it still has, while the turns see the sessions as the calls that write leave them.
  pub run-revoke_owned :
      (now user_id caller : ℕ) (db : AuthDb) (rows : List SessionRow) (turns : List Turn)
      (c c' : Connection)
      → revoke_owned now user_id caller c.session.session_id db.sessions ≡ (ok tt, rows)
      → After l (with_sessions l db rows) turns
      → run turns c ≡ some c'
      → c'.frames ≡ c.frames
  run-revoke_owned now user_id caller db rows turns c c' h a r =
      run-dead turns c c' (After-dead c.session now user_id caller db rows turns h a) r
