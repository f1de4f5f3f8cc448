-- ===== src/Ledger/Sample.antt =====
-- Small books: the treasury has issued 50 credits to user 1, and user 2 has an empty wallet.
use teri_chat.Prelude.{none, some, [], ◌∷◌}
use teri_chat.Prelude.Int.{pos, negsuc, fits_i64, ◌+ℤ◌, neg}
use teri_chat.Table.{find, exists, select, count, order_by}
use teri_chat.Ledger.Schema.{Books, Fresh, LedgerAccount, user, system, mint_kind, default_currency}
use teri_chat.Ledger.Accounts.{ensure_wallets_sorted_tx}
use teri_chat.Ledger.Postings.{total}

abbrev pub wallet_1 : LedgerAccount
wallet_1 = record {
  id = 11;
  owner_user_id = some 1;
  kind = user;
  currency = default_currency;
  created_at = 0;
}

abbrev pub wallet_2 : LedgerAccount
wallet_2 = record {
  id = 12;
  owner_user_id = some 2;
  kind = user;
  currency = default_currency;
  created_at = 0;
}

abbrev pub books : Books
books = record {
  users = 1 ∷ 2 ∷ [];
  accounts =
      record {
        id = 10;
        owner_user_id = none;
        kind = system;
        currency = default_currency;
        created_at = 0;
      }
      ∷ wallet_1
      ∷ wallet_2
      ∷ [];
  transactions = record { id = 100; kind = mint_kind; memo = ""; created_at = 1 } ∷ [];
  postings =
      record { transaction_id = 100; account_id = 11; amount = pos 50 }
      ∷ record { transaction_id = 100; account_id = 10; amount = negsuc 49 }
      ∷ [];
}

abbrev pub fresh : Fresh
fresh = record { first_id = 20; second_id = 21; now = 5 }

-- The statements that a run computes with.
unfoldable pub computing : Unit {0}
unfolding find exists select count order_by total fits_i64 ◌+ℤ◌ neg ensure_wallets_sorted_tx
computing = tt
