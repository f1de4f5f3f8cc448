-- ===== src/Auth/Accounts.antt =====
-- Registration of accounts and devices, and the look-up of a peer.
use teri_chat.Prelude.{
  ℕ, ◌+◌, Bool, true, false, not, ◌&&◌, ◌||◌, Option, none, some, List, [], ◌∷◌, length, Result, ok,
  err, unique_violation, foreign_key_violation, ltb, leb, ◌==◌, if◌then◌else◌,
}
use teri_chat.Prelude.Text.{Text, trim}
use teri_chat.Table.{find, exists}
use teri_chat.Auth.Schema.{
  AuthError, handle_taken, email_taken, hash_failed, invalid_input, database, Account, User, Device,
  AuthDb, Libraries, Draw, account_with, by_handle, by_email, device_with,
}

-- The bytes of a code point in UTF-8, which `len` counts.
abbrev pub utf8_length : ℕ → ℕ
utf8_length c = if ltb c 0x80 then 1 else if ltb c 0x800 then 2 else if ltb c 0x10000 then 3 else 4

unfoldable pub byte_length : Text → ℕ
byte_length [] = 0
byte_length (c ∷ s) = utf8_length c + byte_length s

unfoldable pub has_code : ℕ → Text → Bool
has_code c [] = false
has_code c (d ∷ s) = d == c || has_code c s

-- `split(c).nth(1)`: what stands between the first and the second `c`, if there is one.
unfoldable pub until_code : ℕ → Text → Text
until_code c [] = []
until_code c (d ∷ s) = let rest = until_code c s in if d == c then [] else d ∷ rest

unfoldable pub second_part : ℕ → Text → Option Text
unfolding until_code
second_part c [] = none
second_part c (d ∷ s) = let rest = second_part c s in if d == c then some (until_code c s) else rest

abbrev pub dotted : Option Text → Bool
dotted none = false
dotted (some domain) = has_code 46 domain

unfoldable pub normalize_display_name : Text → Result AuthError Text
unfolding byte_length
normalize_display_name raw =
    let name = trim raw in
    if byte_length name == 0 || ltb 64 (byte_length name)
    then err (invalid_input "display name must be 1-64 characters")
    else ok name

-- The CHECK constraints of `users`.
abbrev pub storable : Account → Bool
storable row =
    leb 2 (length row.handle)
    && leb (length row.handle) 32
    && leb 1 (length row.display_name)
    && leb (length row.display_name) 64

-- How an INSERT into `users` can fail, by the constraint that it meets first.
pub data UserFault : Type 0 where
  checked : UserFault
  key_exists handle_exists email_exists : UserFault

unfoldable pub insert_user : Account → AuthDb → Result UserFault AuthDb
insert_user row db =
    if not (storable row)
    then err checked
    else if exists (account_with row.id) db.accounts
    then err key_exists
    else if exists (by_handle row.handle) db.accounts
    then err handle_exists
    else if exists (by_email row.email) db.accounts
    then err email_exists
    else ok (record db { accounts = row ∷ db.accounts })

unfoldable pub map_constraint_violation : UserFault → AuthError
map_constraint_violation handle_exists = handle_taken
map_constraint_violation email_exists = email_taken
map_constraint_violation checked = invalid_input "value rejected by database constraints"
map_constraint_violation key_exists = database unique_violation

abbrev pub user_of : Account → User
user_of row = record {
  id = row.id;
  handle = row.handle;
  email = row.email;
  display_name = row.display_name;
  created_at = row.created_at;
}

module _ (l : Libraries) where
  unfoldable pub normalize_handle : Text → Result AuthError Text
  unfolding byte_length
  normalize_handle raw =
      let handle = l.lowercase (trim raw) in
      if leb 2 (byte_length handle) && leb (byte_length handle) 32
      then ok handle
      else err (invalid_input "handle must be 2-32 characters")

  unfoldable pub normalize_email : Text → Result AuthError Text
  unfolding has_code second_part
  normalize_email raw =
      let email = l.lowercase (trim raw) in
      if has_code 64 email && dotted (second_part 64 email)
      then ok email
      else err (invalid_input "email must look like name@domain.tld")

  unfoldable pub hash_password : Text → ℕ → Result AuthError Text
  hash_password password salt = elim (l.argon2 password salt) [
    | none ↦ err hash_failed
    | some hash ↦ ok hash
  ]

  abbrev pub stored : Account → AuthDb → Result UserFault AuthDb → Result AuthError User × AuthDb
  stored row db (err e) = (err (map_constraint_violation e), db)
  stored row db (ok db') = (ok (user_of row), db')

  unfoldable pub create_user :
      Draw → Text → Text → Text → Text → AuthDb → Result AuthError User × AuthDb
  unfolding normalize_handle normalize_email hash_password insert_user map_constraint_violation
  create_user d raw_handle raw_email raw_name password db = elim (normalize_handle raw_handle) [
    | err e ↦ (err e, db)
    | ok handle ↦ elim (normalize_email raw_email) [
      | err e ↦ (err e, db)
      | ok email ↦ elim (normalize_display_name raw_name) [
        | err e ↦ (err e, db)
        | ok display_name ↦ elim (length password == 0) [
          | true ↦ (err (invalid_input "password must not be empty"), db)
          | false ↦ elim (hash_password password d.salt) [
            | err e ↦ (err e, db)
            | ok hash ↦
                let row : Account = record {
                  id = d.id;
                  handle = handle;
                  email = email;
                  display_name = display_name;
                  password_hash = hash;
                  created_at = d.now;
                } in
                stored row db (insert_user row db)
          ]
        ]
      ]
    ]
  ]

  abbrev pub found_id : Option Account → Result AuthError ℕ
  found_id none = err (invalid_input "unknown peer handle")
  found_id (some row) = ok row.id

  unfoldable pub user_id_by_handle : Text → AuthDb → Result AuthError ℕ
  unfolding normalize_handle
  user_id_by_handle raw db = elim (normalize_handle raw) [
    | err e ↦ err e
    | ok handle ↦ found_id (find (by_handle handle) db.accounts)
  ]

  -- `valid_verify_key` and `valid_agreement_key`: no key of zeros only.
  abbrev pub nonzero : List ℕ → Bool
  nonzero key = exists (λ b. not (b == 0)) key

  abbrev pub keys_valid : List ℕ → List ℕ → Bool
  keys_valid identity agreement = nonzero identity && l.parses_as_key identity && nonzero agreement

  -- The keys have 32 bytes by their type.
  unfoldable pub register_device :
      Draw → ℕ → Text → List ℕ → List ℕ → AuthDb → Result AuthError Device × AuthDb
  register_device d user_id label identity agreement db =
      if not (keys_valid identity agreement)
      then (err (invalid_input "device keys are not valid public keys"), db)
      else if exists (device_with d.id) db.devices
      then (err (database unique_violation), db)
      else if not (exists (account_with user_id) db.accounts)
      then (err (database foreign_key_violation), db)
      else (let device : Device = record {
        id = d.id;
        user_id = user_id;
        label = trim label;
        identity_pubkey = identity;
        agreement_pubkey = agreement;
        created_at = d.now;
      } in
          (ok device, record db { devices = device ∷ db.devices }))
