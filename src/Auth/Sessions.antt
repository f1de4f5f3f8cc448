-- ===== src/Auth/Sessions.antt =====
-- Login, logout and the authentication of a token.
use teri_chat.Prelude.{
  ℕ, ◌+◌, ◌*◌, Bool, true, false, not, ◌&&◌, Option, none, some, List, ◌∷◌, length, Result, ok, err,
  DbError, unique_violation, check_violation, ltb, ◌==◌, if◌then◌else◌,
}
use teri_chat.Prelude.Text.{Text}
use teri_chat.Table.{find, exists, update}
use teri_chat.Auth.Schema.{
  AuthError, invalid_credentials, invalid_token, randomness, database, Account, SessionRow,
  NewSession, Caller, AuthDb, Libraries, Draw, account_with, by_handle, session_with, by_token,
}
use teri_chat.Auth.Accounts.{normalize_handle, hash_password}

abbrev pub session_ttl_days : ℕ
session_ttl_days = 30

-- In microseconds.
abbrev pub session_ttl : ℕ
session_ttl = session_ttl_days * 86_400_000_000

abbrev pub unrevoked : SessionRow → Bool
unrevoked row = elim (row.revoked_at) [ none ↦ true | some at ↦ false ]

abbrev pub live_at : ℕ → SessionRow → Bool
live_at now row = unrevoked row && ltb now row.expires_at

-- The constraints that an INSERT into `sessions` meets. Its user was just read.
unfoldable pub insert_session : SessionRow → AuthDb → Result DbError AuthDb
insert_session row db =
    if not (length row.token_hash == 32)
    then err check_violation
    else if exists (session_with row.id) db.sessions
    then err unique_violation
    else if exists (by_token row.token_hash) db.sessions
    then err unique_violation
    else ok (record db { sessions = row ∷ db.sessions })

abbrev pub token_live : List ℕ → ℕ → SessionRow → Bool
token_live hash now row = by_token hash row && live_at now row

abbrev pub caller_of : SessionRow → Option Account → Result AuthError Caller
caller_of row none = err invalid_token
caller_of row (some account) = ok (record {
  user_id = row.user_id;
  handle = account.handle;
  session_id = row.id;
  device_id = row.device_id;
})

abbrev pub authenticated : AuthDb → Option SessionRow → Result AuthError Caller
authenticated db none = err invalid_token
authenticated db (some row) = caller_of row (find (account_with row.user_id) db.accounts)

module _ (l : Libraries) where
  -- `verify_password` of apps/server/src/password.rs.
  unfoldable pub verify_password : Text → Text → Bool
  verify_password hash password =
      if l.parses_as_hash hash then l.matches_hash hash password else false

  abbrev pub session_of : Draw → Account → List ℕ → SessionRow
  session_of d account raw = record {
    id = d.id;
    user_id = account.id;
    device_id = none;
    token_hash = l.sha256 (l.encode raw);
    created_at = d.now;
    expires_at = d.now + session_ttl;
    revoked_at = none;
  }

  abbrev pub answer_of : SessionRow → List ℕ → NewSession
  answer_of row raw = record {
    session = record {
      id = row.id;
      user_id = row.user_id;
      device_id = row.device_id;
      expires_at = row.expires_at;
    };
    token = l.encode raw;
  }

  abbrev pub opened :
      SessionRow → List ℕ → AuthDb → Result DbError AuthDb → Result AuthError NewSession × AuthDb
  opened row raw db (err e) = (err (database e), db)
  opened row raw db (ok db') = (ok (answer_of row raw), db')

  -- After the look-up of the handle. An unknown handle costs a hash too.
  unfoldable pub check_in :
      Draw → Text → AuthDb → Option Account → Result AuthError NewSession × AuthDb
  unfolding hash_password verify_password insert_session
  check_in d password db none = elim (hash_password l password d.salt) [
    | err e ↦ (err e, db)
    | ok hash ↦ (err invalid_credentials, db)
  ]
  check_in d password db (some account) = elim (verify_password account.password_hash password) [
    | false ↦ (err invalid_credentials, db)
    | true ↦ elim (d.raw) [
      | none ↦ (err randomness, db)
      | some raw ↦
          opened (session_of d account raw) raw db (insert_session (session_of d account raw) db)
    ]
  ]

  unfoldable pub login : Draw → Text → Text → AuthDb → Result AuthError NewSession × AuthDb
  unfolding normalize_handle check_in
  login d raw_handle password db = elim (normalize_handle l raw_handle) [
    | err e ↦ (err e, db)
    | ok handle ↦ check_in d password db (find (by_handle handle) db.accounts)
  ]

  unfoldable pub logout : ℕ → Text → AuthDb → AuthDb
  logout now token db = record db {
    sessions =
        update (λ row. by_token (l.sha256 token) row && unrevoked row)
          (λ (row : SessionRow). record row { revoked_at = some now }) db.sessions;
  }

  unfoldable pub authenticate : ℕ → Text → AuthDb → Result AuthError Caller
  authenticate now token db = authenticated db (find (token_live (l.sha256 token) now) db.sessions)
