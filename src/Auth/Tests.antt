-- ===== src/Auth/Tests.antt =====
-- The theorems on sessions with toy libraries: an account, a login, a logout and a revocation.
use teri_chat.Prelude.{
  ℕ, ◌≡◌, ◌+◌, ◌*◌, ◌&&◌, refl, true, none, some, List, [], ◌∷◌, ok, err, ltb, if◌then◌else◌,
}
use teri_chat.Prelude.Text.{Text, codes, text_eq, trim}
use teri_chat.Table.{find, exists, update, select}
use teri_chat.Table.Sorting.{range}
use teri_chat.Auth.Schema.{
  Account, AuthDb, Caller, Draw, NewSession, SessionRow, invalid_token, invalid_input, by_token,
  by_handle,
}
use teri_chat.Auth.Accounts.{
  create_user, insert_user, normalize_handle, normalize_email, normalize_display_name,
  hash_password, byte_length, has_code, until_code, second_part, map_constraint_violation,
}
use teri_chat.Auth.Sessions.{login, logout, authenticate, check_in, insert_session, verify_password}
use teri_chat.Auth.Management.{revoke_owned, require_live}
use teri_chat.Auth.Management.{view_of, list_sessions}
use teri_chat.Auth.Management.Pages.{UniqueIds, live_sessions, seen_page, list_sessions_complete}
use teri_chat.Table.Paging.{follow}
use teri_chat.Prelude.{map, length, suc, arith}
use teri_chat.Prelude.Int.{pos}
use teri_chat.Table.{count}
use teri_chat.Auth.Calls.{start, step, enter}
use teri_chat.Auth.Revocation.{logout-authenticate}
use teri_chat.Auth.Sample.{toy}
use teri_chat.Auth.Logins.{login-authenticate, stands}

-- The bytes of two tokens.
abbrev token_1 : List ℕ
token_1 =
    1 ∷ 1 ∷ 1 ∷ 1 ∷ 1 ∷ 1 ∷ 1 ∷ 1 ∷ 1 ∷ 1 ∷ 1 ∷ 1 ∷ 1 ∷ 1 ∷ 1 ∷ 1 ∷ 1 ∷ 1 ∷ 1 ∷ 1 ∷ 1 ∷ 1 ∷ 1 ∷ 1
    ∷ 1 ∷ 1 ∷ 1 ∷ 1 ∷ 1 ∷ 1 ∷ 1 ∷ 1 ∷ []

abbrev token_2 : List ℕ
token_2 =
    2 ∷ 1 ∷ 1 ∷ 1 ∷ 1 ∷ 1 ∷ 1 ∷ 1 ∷ 1 ∷ 1 ∷ 1 ∷ 1 ∷ 1 ∷ 1 ∷ 1 ∷ 1 ∷ 1 ∷ 1 ∷ 1 ∷ 1 ∷ 1 ∷ 1 ∷ 1 ∷ 1
    ∷ 1 ∷ 1 ∷ 1 ∷ 1 ∷ 1 ∷ 1 ∷ 1 ∷ 1 ∷ []

abbrev draw : ℕ → List ℕ → Draw
draw n raw = record { id = n; salt = 0; raw = some raw; now = n }

abbrev empty : AuthDb
empty = record { accounts = []; devices = []; sessions = [] }

unfoldable running : Unit {0}
unfolding find exists update select text_eq trim create_user insert_user normalize_handle
    normalize_email normalize_display_name hash_password byte_length has_code until_code second_part
    map_constraint_violation login logout authenticate check_in insert_session verify_password
    revoke_owned require_live
running = tt

abbrev ann : AuthDb
ann = record {
  accounts =
      record {
        id = 1;
        handle = codes "ann";
        email = codes "ann@example.org";
        display_name = codes "Ann";
        password_hash = codes "secret";
        created_at = 1;
      }
      ∷ [];
  devices = [];
  sessions = [];
}

ann_registers :
    create_user toy
      (draw 1 [])
      (codes " ann ")
      (codes "ann@example.org")
      (codes "Ann")
      (codes "secret")
      empty
    ≡ (
      ok (record {
        id = 1;
        handle = codes "ann";
        email = codes "ann@example.org";
        display_name = codes "Ann";
        created_at = 1;
      }),
      ann,
    )
unfolding running
ann_registers = refl

-- The lengths are counted in bytes, though the answers speak of characters.
long_name :
    normalize_display_name (range 0xE0 33)
    ≡ err (invalid_input "display name must be 1-64 characters")
unfolding running range
long_name = refl

abbrev first_session : SessionRow
first_session = record {
  id = 10;
  user_id = 1;
  device_id = none;
  token_hash = token_1;
  created_at = 10;
  expires_at = 2592000000010;
  revoked_at = none;
}

abbrev second_session : SessionRow
second_session = record {
  id = 20;
  user_id = 1;
  device_id = none;
  token_hash = token_2;
  created_at = 20;
  expires_at = 2592000000020;
  revoked_at = none;
}

abbrev entered : AuthDb
entered = record ann { sessions = first_session ∷ [] }

abbrev twice : AuthDb
twice = record ann { sessions = second_session ∷ first_session ∷ [] }

abbrev new_session : NewSession
new_session = record {
  session = record { id = 10; user_id = 1; device_id = none; expires_at = 2592000000010 };
  token = token_1;
}

login_run :
    login toy (draw 10 token_1) (codes "ann") (codes "secret") ann ≡ (ok new_session, entered)
unfolding running
login_run = refl

second_run : (login toy (draw 20 token_2) (codes "ann") (codes "secret") entered).1 ≡ twice
unfolding running
second_run = refl

abbrev entered_again : AuthDb
entered_again = (login toy (draw 20 token_2) (codes "ann") (codes "secret") entered).1

login-authenticate_example :
    (name : Text) × (account : Account) × (normalize_handle toy (codes "ann") ≡ ok name)
    × (find (by_handle name) ann.accounts ≡ some account)
    × ((toy.parses_as_hash account.password_hash
          && toy.matches_hash account.password_hash (codes "secret"))
        ≡ true)
    × (new_session.session.expires_at ≡ 10 + 30 * 86_400_000_000)
    × (stands toy token_1 entered ≡ true)
    × ((c : Caller) × (c.user_id ≡ account.id)
        × (c.session_id ≡ 10)
        × (authenticate toy 30 token_1 entered_again ≡ (
            if ltb 30 new_session.session.expires_at && stands toy token_1 entered_again
            then ok c
            else err invalid_token)))
login-authenticate_example =
    login-authenticate toy (draw 10 token_1) (codes "ann") (codes "secret") ann entered new_session
      30 entered_again login_run
      (step start (enter (draw 20 token_2) (codes "ann") (codes "secret")))

known_token : exists (by_token token_1) entered.sessions ≡ true
unfolding running
known_token = refl

logout-authenticate_example :
    authenticate toy 30 token_1
      (login toy (draw 20 token_2) (codes "ann") (codes "secret") (logout toy 15 token_1 entered)).1
    ≡ err invalid_token
logout-authenticate_example =
    logout-authenticate toy 15 30 token_1 entered
      (login toy (draw 20 token_2) (codes "ann") (codes "secret") (logout toy 15 token_1 entered)).1
      known_token (step start (enter (draw 20 token_2) (codes "ann") (codes "secret")))

abbrev revoked_rows : List SessionRow
revoked_rows = second_session ∷ record first_session { revoked_at = some 25 } ∷ []

revoke_run : revoke_owned 25 1 20 10 twice.sessions ≡ (ok tt, revoked_rows)
unfolding running
revoke_run = refl

twice-UniqueIds : UniqueIds twice.sessions
unfolding count
twice-UniqueIds i = ground arith

second_live : require_live 30 1 20 twice.sessions ≡ ok tt
unfolding running
second_live = refl

list_sessions_complete_example :
    follow
      (suc (length twice.sessions))
      (λ c. seen_page (list_sessions 30 1 20 c (some (pos 1)) twice.sessions))
      none
    ≡ some (map (view_of 20) (live_sessions 30 1 twice.sessions))
list_sessions_complete_example =
    list_sessions_complete 30 1 20 (some (pos 1)) twice.sessions twice-UniqueIds second_live refl
