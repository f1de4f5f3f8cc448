-- ===== src/Auth/Schema.antt =====
-- The tables of accounts, devices and sessions (migrations/20260906202456_identity.sql), and the
-- calls of libraries.
--
-- Ids are numbers, instants microseconds and hashes and keys lists of bytes.
use teri_chat.Prelude.{ℕ, Bool, Option, List, ◌==◌, DbError, String}
use teri_chat.Prelude.Text.{Text, text_eq}

pub data AuthError : Type 0 where
  handle_taken email_taken invalid_credentials invalid_token randomness hash_failed : AuthError
  invalid_input : String → AuthError
  database : DbError → AuthError

-- A row of `users`.
pub record Account : Type 0 where
  pub id : ℕ
  pub handle : Text
  pub email : Text
  pub display_name : Text
  pub password_hash : Text
  pub created_at : ℕ

pub record User : Type 0 where
  pub id : ℕ
  pub handle : Text
  pub email : Text
  pub display_name : Text
  pub created_at : ℕ

pub record Device : Type 0 where
  pub id : ℕ
  pub user_id : ℕ
  pub label : Text
  pub identity_pubkey : List ℕ
  pub agreement_pubkey : List ℕ
  pub created_at : ℕ

-- A row of `sessions`.
pub record SessionRow : Type 0 where
  pub id : ℕ
  pub user_id : ℕ
  pub device_id : Option ℕ
  pub token_hash : List ℕ
  pub created_at : ℕ
  pub expires_at : ℕ
  pub revoked_at : Option ℕ

pub record Session : Type 0 where
  pub id : ℕ
  pub user_id : ℕ
  pub device_id : Option ℕ
  pub expires_at : ℕ

pub record NewSession : Type 0 where
  pub session : Session
  pub token : Text

-- Who a token stands for.
pub record Caller : Type 0 where
  pub user_id : ℕ
  pub handle : Text
  pub session_id : ℕ
  pub device_id : Option ℕ

pub record AuthDb : Type 0 where
  pub accounts : List Account
  pub devices : List Device
  pub sessions : List SessionRow

-- Unicode's lower case, Argon2 with a salt (`none` where it fails) and its check of a parsed hash,
-- unpadded base64 for URLs, SHA-256, and the reading of an Ed25519 key.
pub record Libraries : Type 0 where
  pub lowercase : Text → Text
  pub argon2 : Text → ℕ → Option Text
  pub parses_as_hash : Text → Bool
  pub matches_hash : Text → Text → Bool
  pub encode : List ℕ → Text
  pub sha256 : Text → List ℕ
  pub parses_as_key : List ℕ → Bool

-- What a request draws: an id, a salt, the bytes of a token, if there is randomness, and the time.
pub record Draw : Type 0 where
  pub id : ℕ
  pub salt : ℕ
  pub raw : Option (List ℕ)
  pub now : ℕ

abbrev pub account_with : ℕ → Account → Bool
account_with u row = row.id == u

abbrev pub by_handle : Text → Account → Bool
by_handle handle row = text_eq row.handle handle

abbrev pub by_email : Text → Account → Bool
by_email email row = text_eq row.email email

abbrev pub session_with : ℕ → SessionRow → Bool
session_with s row = row.id == s

abbrev pub device_with : ℕ → Device → Bool
device_with d row = row.id == d

abbrev pub by_token : List ℕ → SessionRow → Bool
by_token hash row = text_eq row.token_hash hash
