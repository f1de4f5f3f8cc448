-- ===== src/Auth/Calls.antt =====
-- The calls that write, as one step relation: what is revoked stays revoked, and what is logged out
-- stays out.
use mathlib.Core.Path.{subst, sym}
use teri_chat.Prelude.{
  ℕ, ◌≡◌, ◌∙◌, refl, Bool, true, false, ◌&&◌, Option, none, some, List, [], ◌∷◌, ok, arith,
  Bool-cases, Option-cases, Result-cases, inl, inr,
}
use teri_chat.Prelude.Text.{Text}
use teri_chat.Table.{find, exists, update, select}
use teri_chat.Auth.Schema.{
  by_handle, Account, AuthDb, Draw, Libraries, SessionRow, session_with, by_token,
}
use teri_chat.Auth.Accounts.{
  create_user, register_device, insert_user, hash_password, normalize_handle,
}
use teri_chat.Auth.Sessions.{
  session_of, login, logout, check_in, insert_session, unrevoked, verify_password,
}
use teri_chat.Auth.Management.{owned, revoke_owned, require_live}

module _ (l : Libraries) where
  abbrev pub with_sessions : AuthDb → List SessionRow → AuthDb
  with_sessions db rows = record db { sessions = rows }

  pub data Step (db : AuthDb) : AuthDb → Type 0 where
    register :
        (d : Draw) (handle email name password : Text)
        → Step db (create_user l d handle email name password db).1
    device :
        (d : Draw) (user_id : ℕ) (label : Text) (identity agreement : List ℕ)
        → Step db (register_device l d user_id label identity agreement db).1
    enter : (d : Draw) (handle password : Text) → Step db (login l d handle password db).1
    leave : (now : ℕ) (token : Text) → Step db (logout l now token db)
    revoke :
        (now user_id caller target : ℕ)
        → Step db (with_sessions db (revoke_owned now user_id caller target db.sessions).1)

  pub data Reach (db : AuthDb) : AuthDb → Type 0 where
    start : Reach db db
    step : {s s' : AuthDb} → Reach db s → Step s s' → Reach db s'

-- Rows that the test picks are there, and all of them are revoked.
pub record Dead (q : SessionRow → Bool) (rows : List SessionRow) : Type 0 where
  pub present : exists q rows ≡ true
  pub revoked : exists (λ row. q row && unrevoked row) rows ≡ false

abbrev pub revoked_row : ℕ → SessionRow → SessionRow
revoked_row now row = record row { revoked_at = some now }

pub update_kept :
    (q d : SessionRow → Bool) (now : ℕ) (rows : List SessionRow)
    → ((row : SessionRow) → q (revoked_row now row) ≡ q row)
    → exists q (update d (revoked_row now) rows) ≡ exists q rows
unfolding exists update
update_kept q d now [] h = refl
update_kept q d now (x ∷ rows) h = ground (arith, h x, update_kept q d now rows h)

update_fewer :
    (q d : SessionRow → Bool) (now : ℕ) (rows : List SessionRow)
    → ((row : SessionRow) → q (revoked_row now row) ≡ q row)
    → exists (λ row. q row && unrevoked row) rows ≡ false
    → exists (λ row. q row && unrevoked row) (update d (revoked_row now) rows) ≡ false
unfolding exists update
update_fewer q d now [] h e = refl
update_fewer q d now (x ∷ rows) h e = ground (arith, h x, update_fewer q d now rows h)

update-Dead :
    (q d : SessionRow → Bool) (now : ℕ) (rows : List SessionRow)
    → ((row : SessionRow) → q (revoked_row now row) ≡ q row)
    → Dead q rows
    → Dead q (update d (revoked_row now) rows)
update-Dead q d now rows h k = record {
  present = update_kept q d now rows h ∙ k.present;
  revoked = update_fewer q d now rows h k.revoked;
}

-- A test that a revocation does not notice, and that no new session passes while a row does.
pub record Lasting (q : SessionRow → Bool) : Type 0 where
  pub stable : (now : ℕ) (row : SessionRow) → q (revoked_row now row) ≡ q row
  pub never_new :
      (row : SessionRow) (db db' : AuthDb)
      → insert_session row db ≡ ok db'
      → exists q db.sessions ≡ true
      → q row ≡ false

insert-Dead :
    (q : SessionRow → Bool) (row : SessionRow) (db db' : AuthDb)
    → Lasting q
    → insert_session row db ≡ ok db'
    → Dead q db.sessions
    → Dead q db'.sessions
unfolding insert_session exists
insert-Dead q row db db' t e k =
    let n = t.never_new row db db' e k.present in
    record { present = ground (arith, n, k.present); revoked = ground (arith, n, k.revoked) }

-- What every INSERT and every revocation of sessions keeps, all calls keep.
module _ (l : Libraries) (Inv : List SessionRow → Type 0)
    (inserted : (row : SessionRow) (db db' : AuthDb)
      → insert_session row db ≡ ok db'
      → Inv db.sessions
      → Inv db'.sessions)
    (updated : (d : SessionRow → Bool) (now : ℕ) (rows : List SessionRow)
      → Inv rows
      → Inv (update d (revoked_row now) rows)) where
  unchanged-Inv : (db db' : AuthDb) → db' ≡ db → Inv db.sessions → Inv db'.sessions
  unchanged-Inv db db' e k = subst (λ z. Inv z.sessions) (sym e) k

  check_in-Inv :
      (d : Draw) (password : Text) (db : AuthDb) (account : Option Account)
      → Inv db.sessions
      → Inv (check_in l d password db account).1.sessions
  unfolding check_in
  check_in-Inv d password db none k = elim (Result-cases (hash_password l password d.salt)) [
    | inl (hash, h) ↦ unchanged-Inv db (check_in l d password db none).1 (ground arith) k
    | inr (e, h) ↦ unchanged-Inv db (check_in l d password db none).1 (ground arith) k
  ]
  check_in-Inv d password db (some account) k =
      elim (Bool-cases (verify_password l account.password_hash password)) [
        | inr v ↦ unchanged-Inv db (check_in l d password db (some account)).1 (ground arith) k
        | inl v ↦ elim (Option-cases d.raw) [
          | inl r ↦ unchanged-Inv db (check_in l d password db (some account)).1 (ground arith) k
          | inr (raw, r) ↦ elim (Result-cases (insert_session (session_of l d account raw) db)) [
            | inr (e, h) ↦
                unchanged-Inv db (check_in l d password db (some account)).1 (ground arith) k
            | inl (db', h) ↦
                unchanged-Inv db' (check_in l d password db (some account)).1 (ground arith)
                  (inserted (session_of l d account raw) db db' h k)
          ]
        ]
      ]

  login-Inv :
      (d : Draw) (handle password : Text) (db : AuthDb)
      → Inv db.sessions
      → Inv (login l d handle password db).1.sessions
  unfolding login
  login-Inv d handle password db k = elim (Result-cases (normalize_handle l handle)) [
    | inr (e, h) ↦ unchanged-Inv db (login l d handle password db).1 (ground arith) k
    | inl (name, h) ↦
        unchanged-Inv (check_in l d password db (find (by_handle name) db.accounts)).1
          (login l d handle password db).1 (ground arith)
          (check_in-Inv d password db (find (by_handle name) db.accounts) k)
  ]

  create_user-sessions :
      (d : Draw) (handle email name password : Text) (db : AuthDb)
      → (create_user l d handle email name password db).1.sessions ≡ db.sessions
  unfolding create_user insert_user
  create_user-sessions d handle email name password db = ground arith

  register_device-sessions :
      (d : Draw) (user_id : ℕ) (label : Text) (identity agreement : List ℕ) (db : AuthDb)
      → (register_device l d user_id label identity agreement db).1.sessions ≡ db.sessions
  unfolding register_device
  register_device-sessions d user_id label identity agreement db = ground arith

  revoke_owned-Inv :
      (now user_id caller target : ℕ) (rows : List SessionRow)
      → Inv rows
      → Inv (revoke_owned now user_id caller target rows).1
  unfolding revoke_owned
  revoke_owned-Inv now user_id caller target rows k =
      elim (Result-cases (require_live now user_id caller rows)) [
        | inr (e, h) ↦ subst Inv (ground arith) k
        | inl (x, h) ↦
            elim (Bool-cases
              (exists (session_with target) (select (owned user_id caller target) rows))) [
                | inr o ↦ subst Inv (ground arith) k
                | inl o ↦
                    subst Inv (ground arith)
                      (updated (λ row. session_with target row && unrevoked row) now rows k)
              ]
      ]

  Step-Inv : {s s' : AuthDb} → Step l s s' → Inv s.sessions → Inv s'.sessions
  unfolding logout
  Step-Inv {s} (register d handle email name password) k =
      subst Inv (sym (create_user-sessions d handle email name password s)) k
  Step-Inv {s} (device d user_id label identity agreement) k =
      subst Inv (sym (register_device-sessions d user_id label identity agreement s)) k
  Step-Inv {s} (enter d handle password) k = login-Inv d handle password s k
  Step-Inv {s} (leave now token) k =
      updated (λ row. by_token (l.sha256 token) row && unrevoked row) now s.sessions k
  Step-Inv {s} (revoke now user_id caller target) k =
      revoke_owned-Inv now user_id caller target s.sessions k

  pub Reach-Inv : {s s' : AuthDb} → Reach l s s' → Inv s.sessions → Inv s'.sessions
  Reach-Inv start k = k
  Reach-Inv (step r e) k = Step-Inv e (Reach-Inv r k)

pub Reach-Dead :
    (l : Libraries) (q : SessionRow → Bool)
    → Lasting q
    → {s s' : AuthDb} → Reach l s s'
    → Dead q s.sessions
    → Dead q s'.sessions
Reach-Dead l q t =
    Reach-Inv l (Dead q) (λ row db db' e k. insert-Dead q row db db' t e k)
      (λ d now rows k. update-Dead q d now rows (t.stable now) k)
