-- ===== src/Auth/Tokens.antt =====
-- The one row of the session of a token, through inserts and revocations.
use mathlib.Core.Path.{ap}
use teri_chat.Prelude.{
  ℕ, ◌≡◌, ◌≤◌, refl, Bool, true, false, ◌&&◌, none, some, List, [], ◌∷◌, ok, arith, Bool-cases, inl,
  inr, if◌then◌else◌,
}
use teri_chat.Table.Laws.{exists-eq-is_some, find-update, count-update}
use teri_chat.Prelude.Text.{text_eq_refl}
use teri_chat.Table.{find, exists, count, update}
use teri_chat.Auth.Schema.{AuthDb, SessionRow, by_token}
use teri_chat.Auth.Sessions.{insert_session, token_live, unrevoked, live_at}
use teri_chat.Auth.Calls.{revoked_row}
use teri_chat.Auth.Revocation.{token-Lasting}

-- The one row of a token is that of a session, but for its revocation.
pub record Held (hash : List ℕ) (s : SessionRow) (rows : List SessionRow) : Type 0 where
  pub row : SessionRow
  pub found : find (by_token hash) rows ≡ some row
  pub single : count (by_token hash) rows ≤ 1
  pub id : row.id ≡ s.id
  pub user : row.user_id ≡ s.user_id
  pub device : row.device_id ≡ s.device_id
  pub expires : row.expires_at ≡ s.expires_at

pub insert-Held :
    (hash : List ℕ) (s new : SessionRow) (db db' : AuthDb)
    → insert_session new db ≡ ok db'
    → Held hash s db.sessions
    → Held hash s db'.sessions
unfolding insert_session find count
insert-Held hash s new db db' e h =
    let other =
      (token-Lasting hash).never_new new db db' e
        (ground (arith, h.found, exists-eq-is_some (by_token hash) db.sessions)) in
    record {
      row = h.row;
      found = ground (arith, other, h.found);
      single = ground (arith, other, h.single);
      id = h.id;
      user = h.user;
      device = h.device;
      expires = h.expires;
    }

pub update-Held :
    (hash : List ℕ) (s : SessionRow) (d : SessionRow → Bool) (now : ℕ) (rows : List SessionRow)
    → Held hash s rows
    → Held hash s (update d (revoked_row now) rows)
update-Held hash s d now rows h = record {
  row = if d h.row then revoked_row now h.row else h.row;
  found = ground (arith, find-update (by_token hash) d (revoked_row now) rows (λ x. refl), h.found);
  single =
      ground (arith, count-update (by_token hash) d (revoked_row now) rows (λ x. refl), h.single);
  id = ground (arith, h.id);
  user = ground (arith, h.user);
  device = ground (arith, h.device);
  expires = ground (arith, h.expires);
}

none_counted :
    (hash : List ℕ) (rows : List SessionRow)
    → exists (by_token hash) rows ≡ false
    → count (by_token hash) rows ≡ 0
unfolding exists count
none_counted hash [] e = refl
none_counted hash (x ∷ rows) e = ground (arith, none_counted hash rows)

-- The row of a new session.
pub opened-Held :
    (s : SessionRow) (db db' : AuthDb)
    → insert_session s db ≡ ok db'
    → Held s.token_hash s db'.sessions
unfolding insert_session find count
opened-Held s db db' e = record {
  row = s;
  found = ground (arith, text_eq_refl s.token_hash);
  single = ground (arith, none_counted s.token_hash db.sessions);
  id = refl;
  user = refl;
  device = refl;
  expires = refl;
}

pub opened_unrevoked :
    (s : SessionRow) (db db' : AuthDb)
    → unrevoked s ≡ true
    → insert_session s db ≡ ok db'
    → exists (λ row. by_token s.token_hash row && unrevoked row) db'.sessions ≡ true
unfolding insert_session exists
opened_unrevoked s db db' u e = ground (arith, text_eq_refl s.token_hash)

none_live :
    (later : ℕ) (hash : List ℕ) (rows : List SessionRow)
    → count (by_token hash) rows ≡ 0
    → (find (token_live hash later) rows ≡ none)
      × (exists (λ row. by_token hash row && unrevoked row) rows ≡ false)
unfolding exists find count
none_live later hash [] e = (refl, refl)
none_live later hash (x ∷ rows) e = ground (arith, none_live later hash rows)

-- With one row of the token, it is found exactly while it is live.
pub one_live :
    (later : ℕ) (hash : List ℕ) (row : SessionRow) (rows : List SessionRow)
    → find (by_token hash) rows ≡ some row
    → count (by_token hash) rows ≤ 1
    → (find (token_live hash later) rows ≡ (if live_at later row then some row else none))
      × (exists (λ row. by_token hash row && unrevoked row) rows ≡ unrevoked row)
unfolding exists find count
one_live later hash row [] f n = absurd (ground arith)
one_live later hash row (x ∷ rows) f n = elim (Bool-cases (by_token hash x)) [
  | inl e ↦
      let same : x ≡ row = ground arith in
      ground (
        arith,
        none_live later hash rows,
        ap (λ (y : SessionRow). live_at later y) same,
        ap (λ (y : SessionRow). unrevoked y) same,
      )
  | inr e ↦ ground (arith, one_live later hash row rows (ground arith) (ground arith))
]
