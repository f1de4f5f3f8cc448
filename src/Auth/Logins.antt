-- ===== src/Auth/Logins.antt =====
-- A login opens a session that authenticates until it expires or is revoked.
use mathlib.Core.Path.{ap}
use teri_chat.Prelude.{
  ℕ, ◌≡◌, ◌+◌, ◌*◌, ◌∙◌, refl, Bool, true, ◌&&◌, Option, none, some, List, ok, err, arith, ltb,
  Option-cases, Result-cases, inl, inr, if◌then◌else◌,
}
use teri_chat.Table.Laws.{exists-eq-is_some}
use teri_chat.Prelude.Text.{Text}
use teri_chat.Table.{find, exists}
use teri_chat.Auth.Schema.{
  Account, AuthDb, Caller, Draw, Libraries, NewSession, SessionRow, invalid_token, by_token,
  by_handle, account_with,
}
use teri_chat.Auth.Accounts.{normalize_handle, create_user, insert_user, register_device}
use teri_chat.Auth.Sessions.{
  login, authenticate, check_in, insert_session, session_of, answer_of, unrevoked, logout,
  verify_password,
}
use teri_chat.Auth.Calls.{
  Reach, Step, start, step, register, device, enter, leave, revoke, Reach-Inv,
}
use teri_chat.Auth.Revocation.{account_again}
use teri_chat.Auth.Tokens.{Held, insert-Held, update-Held, opened-Held, opened_unrevoked, one_live}

-- Accounts stay, whatever calls write.
module _ (l : Libraries) where
  create_user-account :
      (d : Draw) (handle email name password : Text) (db : AuthDb) (i : ℕ) (a : Account)
      → find (account_with i) db.accounts ≡ some a
      → find (account_with i) (create_user l d handle email name password db).1.accounts ≡ some a
  unfolding create_user insert_user find
  create_user-account d handle email name password db i a f = ground (
    arith,
    exists-eq-is_some (account_with d.id) db.accounts,
    ap (λ x. find (account_with x) db.accounts) {x = d.id} {y = i},
  )

  login-accounts :
      (d : Draw) (handle password : Text) (db : AuthDb)
      → (login l d handle password db).1.accounts ≡ db.accounts
  unfolding login check_in insert_session
  login-accounts d handle password db = ground arith

  Step-account :
      {s s' : AuthDb} (i : ℕ) (a : Account)
      → Step l s s'
      → find (account_with i) s.accounts ≡ some a
      → find (account_with i) s'.accounts ≡ some a
  unfolding register_device logout
  Step-account {s} i a (register d handle email name password) f =
      create_user-account d handle email name password s i a f
  Step-account i a (device d user_id label identity agreement) f = ground arith
  Step-account {s} i a (enter d handle password) f =
      ap (find (account_with i)) (login-accounts d handle password s) ∙ f
  Step-account i a (leave now token) f = f
  Step-account i a (revoke now user_id caller target) f = f

  Reach-account :
      {s s' : AuthDb} (i : ℕ) (a : Account)
      → Reach l s s'
      → find (account_with i) s.accounts ≡ some a
      → find (account_with i) s'.accounts ≡ some a
  Reach-account i a start f = f
  Reach-account i a (step r e) f = Step-account i a e (Reach-account i a r f)

module _ (l : Libraries) where
  -- What a login that succeeds has found and written.
  abbrev pub Opened : Draw → Text → Text → AuthDb → NewSession → AuthDb → Type 0
  Opened d name password db ns db' =
      (account : Account) × (raw : List ℕ) × (find (by_handle name) db.accounts ≡ some account)
      × ((l.parses_as_hash account.password_hash && l.matches_hash account.password_hash password)
          ≡ true)
      × (insert_session (session_of l d account raw) db ≡ ok db')
      × (ns ≡ answer_of l (session_of l d account raw) raw)

  check_in-Opened :
      (d : Draw) (name password : Text) (db db' : AuthDb) (ns : NewSession) (found : Option Account)
      → find (by_handle name) db.accounts ≡ found
      → check_in l d password db found ≡ (ok ns, db')
      → Opened d name password db ns db'
  unfolding check_in verify_password
  check_in-Opened d name password db db' ns none f h = absurd (ground arith)
  check_in-Opened d name password db db' ns (some account) f h = elim (Option-cases d.raw) [
    | inl r ↦ absurd (ground arith)
    | inr (raw, r) ↦ elim (Result-cases (insert_session (session_of l d account raw) db)) [
      | inr (e, s) ↦ absurd (ground arith)
      | inl (after, s) ↦ (account, raw, f, ground arith, ground arith, ground arith)
    ]
  ]

  login-Opened :
      (d : Draw) (handle password : Text) (db db' : AuthDb) (ns : NewSession)
      → login l d handle password db ≡ (ok ns, db')
      → (name : Text) × (normalize_handle l handle ≡ ok name) × Opened d name password db ns db'
  unfolding login
  login-Opened d handle password db db' ns h = elim (Result-cases (normalize_handle l handle)) [
    | inr (e, n) ↦ absurd (ground arith)
    | inl (name, n) ↦ (
      name,
      n,
      check_in-Opened d name password db db' ns (find (by_handle name) db.accounts) refl
          (ground arith),
    )
  ]

  insert_session-accounts :
      (s : SessionRow) (db db' : AuthDb) → insert_session s db ≡ ok db' → db'.accounts ≡ db.accounts
  unfolding insert_session
  insert_session-accounts s db db' e = ground arith

  -- Whether a session of the token stands unrevoked.
  abbrev pub stands : Text → AuthDb → Bool
  stands token db =
      exists (λ (row : SessionRow). by_token (l.sha256 token) row && unrevoked row) db.sessions

  Held-authenticate :
      (s : SessionRow) (token : Text) (t : AuthDb) (a : Account) (later : ℕ)
      → Held (l.sha256 token) s t.sessions
      → find (account_with s.user_id) t.accounts ≡ some a
      → authenticate l later token t ≡ (
          if ltb later s.expires_at && stands token t
          then ok (record {
            user_id = s.user_id;
            handle = a.handle;
            session_id = s.id;
            device_id = s.device_id;
          })
          else err invalid_token)
  unfolding authenticate
  Held-authenticate s token t a later h f =
      let one = one_live later (l.sha256 token) h.row t.sessions h.found h.single in
      ground (
        arith,
        one.0,
        one.1,
        h.id,
        h.user,
        h.device,
        h.expires,
        ap (λ i. find (account_with i) t.accounts) h.user,
        f,
      )

  -- A login that succeeds has found the account of the normalized handle, and the library has
  -- accepted the password for its hash. It opens a session of that account for 30 days, in
  -- microseconds, which stands unrevoked then. In whatever state the calls that write lead to, the
  -- token of the answer authenticates the account's id and the session at every time before the
  -- session expires, as long as it stands unrevoked, and nobody otherwise.
  pub login-authenticate :
      (d : Draw) (handle password : Text) (db db' : AuthDb) (ns : NewSession) (later : ℕ)
      (t : AuthDb)
      → login l d handle password db ≡ (ok ns, db')
      → Reach l db' t
      → (name : Text) × (account : Account) × (normalize_handle l handle ≡ ok name)
        × (find (by_handle name) db.accounts ≡ some account)
        × ((l.parses_as_hash account.password_hash && l.matches_hash account.password_hash password)
            ≡ true)
        × (ns.session.expires_at ≡ d.now + 30 * 86_400_000_000)
        × (stands ns.token db' ≡ true)
        × ((c : Caller) × (c.user_id ≡ account.id)
            × (c.session_id ≡ ns.session.id)
            × (authenticate l later ns.token t ≡ (
                if ltb later ns.session.expires_at && stands ns.token t
                then ok c
                else err invalid_token)))
  login-authenticate d handle password db db' ns later t h r =
      let o = login-Opened d handle password db db' ns h in
      let account = o.2.0 in
      let s = session_of l d account o.2.1 in
      let token = l.encode o.2.1 in
      let held = opened-Held s db db' o.2.4 in
      let a = account_again account.id db.accounts account (by_handle o.0) o.2.2 refl in
      let later_held : Held (l.sha256 token) s t.sessions =
        Reach-Inv l (Held (l.sha256 token) s)
          (λ row x y e k. insert-Held (l.sha256 token) s row x y e k)
          (λ q now rows k. update-Held (l.sha256 token) s q now rows k) r held in
      let kept =
        ap (find (account_with account.id)) (insert_session-accounts s db db' o.2.4) ∙ a.1 in
      (
        o.0,
        account,
        o.1,
        o.2.2,
        o.2.3,
        ground (arith, o.2.5),
        ap (λ (n : NewSession). stands n.token db') o.2.5 ∙ opened_unrevoked s db db' refl o.2.4,
        (
          record { user_id = account.id; handle = a.0.handle; session_id = d.id; device_id = none },
          refl,
          ground (arith, o.2.5),
          ground (
            arith,
            o.2.5,
            ap (λ (n : NewSession). stands n.token t) o.2.5,
            ap (λ (n : NewSession). authenticate l later n.token t) o.2.5,
            Held-authenticate s token t a.0 later later_held
                (Reach-account l account.id a.0 r kept),
          ),
        ),
      )
