-- ===== src/Auth/Revocation.antt =====
-- A token that was logged out and a session that was revoked stay so, and a new token works until it
-- expires.
use mathlib.Core.Path.{subst, sym}
use teri_chat.Prelude.{
  ℕ, ◌≡◌, ◌∙◌, ap, refl, Bool, true, false, ◌&&◌, none, some, List, [], ◌∷◌, ok, err, arith, ◌==◌,
  Bool-cases, Result-cases, inl, inr,
}
use teri_chat.Prelude.Text.{Text, text_eq, eq_of_text_eq}
use teri_chat.Table.{find, exists, update, select}
use teri_chat.Errors.{unauthorized}
use teri_chat.Auth.Schema.{
  Account, AuthDb, Libraries, SessionRow, invalid_token, session_with, by_token, account_with,
}
use teri_chat.Auth.Sessions.{
  logout, authenticate, authenticated, insert_session, unrevoked, token_live,
}
use teri_chat.Auth.Management.{owned, revoke_owned, require_live, own_live}
use teri_chat.Auth.Calls.{Reach, Reach-Dead, Dead, Lasting, with_sessions, revoked_row, update_kept}

same_hash :
    (hash k : List ℕ) (rows : List SessionRow)
    → text_eq k hash ≡ true
    → exists (by_token k) rows ≡ exists (by_token hash) rows
same_hash hash k rows e = ap (λ z. exists (by_token z) rows) (eq_of_text_eq k hash e)

same_id :
    (s k : ℕ) (rows : List SessionRow)
    → (k == s) ≡ true
    → exists (session_with k) rows ≡ exists (session_with s) rows
same_id s k rows e = ground arith

-- A session's rows by its id, and those of a token.
pub id-Lasting : (s : ℕ) → Lasting (session_with s)
unfolding insert_session
id-Lasting s = record {
  stable = λ now row. refl;
  never_new = λ row db db' e p. ground (arith, same_id s row.id db.sessions);
}

pub token-Lasting : (hash : List ℕ) → Lasting (by_token hash)
unfolding insert_session
token-Lasting hash = record {
  stable = λ now row. refl;
  never_new = λ row db db' e p. elim (Bool-cases (text_eq row.token_hash hash)) [
    | inr n ↦ n
    | inl same ↦ absurd (ground (arith, same_hash hash row.token_hash db.sessions same))
  ];
}

all_revoked :
    (q : SessionRow → Bool) (now : ℕ) (rows : List SessionRow)
    → ((row : SessionRow) → q (revoked_row now row) ≡ q row)
    → exists
        (λ row. q row && unrevoked row)
        (update (λ row. q row && unrevoked row) (revoked_row now) rows)
      ≡ false
unfolding exists update
all_revoked q now [] h = refl
all_revoked q now (x ∷ rows) h = ground (arith, h x, all_revoked q now rows h)

exists-select :
    (p q : SessionRow → Bool) (rows : List SessionRow)
    → exists p (select q rows) ≡ true
    → exists p rows ≡ true
unfolding exists select
exists-select p q [] e = e
exists-select p q (x ∷ rows) e = ground (arith, exists-select p q rows)

pub revoke_owned_target-Dead :
    (now user_id caller target : ℕ) (rows rows' : List SessionRow)
    → revoke_owned now user_id caller target rows ≡ (ok tt, rows')
    → Dead (session_with target) rows'
unfolding revoke_owned
revoke_owned_target-Dead now user_id caller target rows rows' h =
    elim (Result-cases (require_live now user_id caller rows)) [
      | inr (e, r) ↦ absurd (ground arith)
      | inl (x, r) ↦
          elim (Bool-cases
            (exists (session_with target) (select (owned user_id caller target) rows))) [
              | inr o ↦ absurd (ground arith)
              | inl o ↦
                  let same : rows'
                      ≡ update (λ row. session_with target row && unrevoked row) (revoked_row now)
                          rows =
                    ground arith in
                  subst (Dead (session_with target)) (sym same) (record {
                    present =
                        update_kept (session_with target)
                          (λ row. session_with target row && unrevoked row) now rows (λ row. refl)
                        ∙ exists-select (session_with target) (owned user_id caller target) rows o;
                    revoked = all_revoked (session_with target) now rows (λ row. refl);
                  })
            ]
    ]

dead_session :
    (later user_id target : ℕ) (rows : List SessionRow)
    → exists (λ row. session_with target row && unrevoked row) rows ≡ false
    → exists (own_live later user_id target) rows ≡ false
unfolding exists
dead_session later user_id target [] e = refl
dead_session later user_id target (x ∷ rows) e =
    ground (arith, dead_session later user_id target rows)

module _ (l : Libraries) where
  -- Once a session has been revoked, it can revoke no session any more: in whatever state the calls
  -- that write lead to, its request is refused as unauthorized and changes nothing. So of two
  -- sessions that revoke each other only the first succeeds.
  revoke_owned-revoke_owned :
      (now later user_id caller target v other : ℕ) (db t : AuthDb) (rows : List SessionRow)
      → revoke_owned now user_id caller target db.sessions ≡ (ok tt, rows)
      → Reach l (with_sessions l db rows) t
      → revoke_owned later v target other t.sessions ≡ (err unauthorized, t.sessions)
  unfolding revoke_owned require_live
  revoke_owned-revoke_owned now later user_id caller target v other db t rows h r =
      let k =
        Reach-Dead l (session_with target) (id-Lasting target) r
          (revoke_owned_target-Dead now user_id caller target db.sessions rows h) in
      ground (arith, dead_session later v target t.sessions k.revoked)

module _ (l : Libraries) where
  logout-Dead :
      (now : ℕ) (token : Text) (db : AuthDb)
      → exists (by_token (l.sha256 token)) db.sessions ≡ true
      → Dead (by_token (l.sha256 token)) (logout l now token db).sessions
  unfolding logout
  logout-Dead now token db e = record {
    present =
        update_kept (by_token (l.sha256 token))
          (λ row. by_token (l.sha256 token) row && unrevoked row) now db.sessions (λ row. refl)
        ∙ e;
    revoked = all_revoked (by_token (l.sha256 token)) now db.sessions (λ row. refl);
  }

  dead_token :
      (later : ℕ) (hash : List ℕ) (rows : List SessionRow)
      → exists (λ row. by_token hash row && unrevoked row) rows ≡ false
      → find (token_live hash later) rows ≡ none
  unfolding exists find
  dead_token later hash [] e = refl
  dead_token later hash (x ∷ rows) e = ground (arith, dead_token later hash rows)

  -- A token of a session that has been logged out authenticates nobody any more, at any time and in
  -- whatever state the calls that write lead to.
  pub logout-authenticate :
      (now later : ℕ) (token : Text) (db t : AuthDb)
      → exists (by_token (l.sha256 token)) db.sessions ≡ true
      → Reach l (logout l now token db) t
      → authenticate l later token t ≡ err invalid_token
  unfolding authenticate
  logout-authenticate now later token db t e r =
      let k =
        Reach-Dead l (by_token (l.sha256 token)) (token-Lasting (l.sha256 token)) r
          (logout-Dead now token db e) in
      ap (authenticated t) (dead_token later (l.sha256 token) t.sessions k.revoked)

pub account_again :
    (u : ℕ) (rows : List Account) (account : Account) (q : Account → Bool)
    → find q rows ≡ some account
    → account.id ≡ u
    → (a : Account) × (find (account_with u) rows ≡ some a)
unfolding find
account_again u [] account q e h = absurd (ground arith)
account_again u (x ∷ rows) account q e h = elim (Bool-cases (account_with u x)) [
  | inl y ↦ (x, ground arith)
  | inr n ↦
      let rest = account_again u rows account q (ground arith) h in (rest.0, ground (arith, rest.1))
]
