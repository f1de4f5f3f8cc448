-- ===== src/Ledger/Accounts.antt =====
-- The accounts: `ensure_wallet`, `ensure_treasury_tx`, `ensure_wallet_tx`,
-- `ensure_wallets_sorted_tx` and the order of the locks in apps/server/src/ledger.rs.
pub mod Opening
use teri_chat.Prelude.{
  ℕ, Bool, true, false, ◌||◌, Option, none, some, List, ◌∷◌, leb, Result, ok, err, Tx, ◌>>=◌, ◌>>◌,
  pure, ok_or, gets, map_err, transaction, DbError, row_not_found, foreign_key_violation, ◌==◌,
}
use teri_chat.Table.{find, exists}
use teri_chat.Ledger.Schema.{
  LedgerError, bad_input, database, LedgerAccount, user, system, Books, Fresh, owned_by, is_system,
  account_with, default_currency,
}

-- `INSERT INTO ledger_accounts … 'user' … ON CONFLICT DO NOTHING`: the conflicts are the primary
-- key and the index on the owner, and the owner must be a user.
insert_wallet : ℕ → ℕ → ℕ → Tx Books DbError (Unit {0})
insert_wallet id now user_id db =
    elim (exists (account_with id) db.accounts || exists (owned_by user_id) db.accounts) [
      | true ↦ ok (tt, db)
      | false ↦ elim (exists (λ u. u == user_id) db.users) [
        | true ↦ ok (
          tt,
          record db {
            accounts =
                record {
                  id = id;
                  owner_user_id = some user_id;
                  kind = user;
                  currency = default_currency;
                  created_at = now;
                }
                ∷ db.accounts;
          },
        )
        | false ↦ err foreign_key_violation
      ]
    ]

abbrev pub map_unknown_owner : DbError → LedgerError
map_unknown_owner foreign_key_violation = bad_input "unknown user"
map_unknown_owner e = database e

unfoldable pub ensure_wallet_tx : ℕ → ℕ → ℕ → Tx Books LedgerError LedgerAccount
unfolding insert_wallet
ensure_wallet_tx id now user_id = do
  map_err map_unknown_owner (insert_wallet id now user_id)
  row ← gets (λ (db : Books). find (owned_by user_id) db.accounts)
  ok_or row (database row_not_found)

unfoldable pub ensure_wallet : Fresh → ℕ → Books → Result LedgerError LedgerAccount × Books
unfolding ensure_wallet_tx
ensure_wallet fresh user_id = transaction (ensure_wallet_tx fresh.first_id fresh.now user_id)

-- The same for the treasury, of which there is one.
insert_treasury : ℕ → ℕ → Tx Books DbError (Unit {0})
insert_treasury id now db =
    elim (exists (account_with id) db.accounts || exists is_system db.accounts) [
      | true ↦ ok (tt, db)
      | false ↦ ok (
        tt,
        record db {
          accounts =
              record {
                id = id;
                owner_user_id = none;
                kind = system;
                currency = default_currency;
                created_at = now;
              }
              ∷ db.accounts;
        },
      )
    ]

unfoldable pub ensure_treasury_tx : ℕ → ℕ → Tx Books LedgerError LedgerAccount
unfolding insert_treasury
ensure_treasury_tx id now = do
  map_err database (insert_treasury id now)
  row ← gets (λ (db : Books). find is_system db.accounts)
  ok_or row (database row_not_found)

unfoldable pub ensure_wallets_sorted_tx :
    Fresh → ℕ → ℕ → Tx Books LedgerError (LedgerAccount × LedgerAccount)
unfolding ensure_wallet_tx
ensure_wallets_sorted_tx fresh from_user_id to_user_id = elim (leb from_user_id to_user_id) [
  | true ↦ (do
    from_account ← ensure_wallet_tx fresh.first_id fresh.now from_user_id
    to_account ← ensure_wallet_tx fresh.second_id fresh.now to_user_id
    pure (from_account, to_account))
  | false ↦ (do
    to_account ← ensure_wallet_tx fresh.first_id fresh.now to_user_id
    from_account ← ensure_wallet_tx fresh.second_id fresh.now from_user_id
    pure (from_account, to_account))
]

-- The accounts in the order that `lock_accounts_tx` locks them in.
unfoldable pub lock_order : ℕ → ℕ → ℕ × ℕ
lock_order first second = elim (leb first second) [
  | true ↦ (first, second)
  | false ↦ (second, first)
]
