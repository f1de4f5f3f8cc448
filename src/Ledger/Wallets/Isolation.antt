-- ===== src/Ledger/Wallets/Isolation.antt =====
-- Nobody reads or moves what belongs to another user.
use teri_chat.Prelude.{ℕ, ◌≡◌, ◌≢◌, Option, err, arith}
use teri_chat.Prelude.Int.{ℤ}
use teri_chat.Ledger.Schema.{forbidden, Books, Fresh}
use teri_chat.Ledger.Transfers.{transfer}
use teri_chat.Ledger.Wallets.{balance, history, history_before}

-- A caller who names the wallet of another user is answered `Forbidden` by the balance, the two
-- histories and the transfer, whatever else is asked, and nothing changes.
foreign_wallet :
    (fresh : Fresh) (caller owner v : ℕ) (amount limit : ℤ) (k : ℕ) (before : Option ℕ) (db : Books)
    → caller ≢ owner
    → (balance fresh caller owner db ≡ (err forbidden, db))
      × (history fresh caller owner limit db ≡ (err forbidden, db))
      × (history_before fresh caller owner limit before db ≡ (err forbidden, db))
      × (transfer fresh caller owner v amount k db ≡ (err forbidden, db))
unfolding balance history history_before transfer
foreign_wallet fresh caller owner v amount limit k before db n =
    (ground arith, ground arith, ground arith, ground arith)
