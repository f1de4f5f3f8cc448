-- ===== src/Ledger/Transfers/Outcomes.antt =====
-- What `transfer` and `mint` answer: a new transaction, or the one that the id already stands for.
use teri_chat.Prelude.{
  ℕ, ◌≡◌, ◌⊎◌, Bool, true, false, some, arith, ok, Result-cases, Option-cases, inl, inr, [], ◌∷◌,
  List,
}
use teri_chat.Prelude.Int.{ℤ, pos, ◌≤ℤ◌}
use teri_chat.Table.{find, exists}
use teri_chat.Ledger.Schema.{
  LedgerAccount, LedgerTransaction, TransactionKind, transfer_kind, mint_kind, Books, Fresh,
  owned_by, is_system, transaction_with, posting_on,
}
use teri_chat.Ledger.Accounts.{ensure_wallets_sorted_tx, ensure_wallet_tx, ensure_treasury_tx}
use teri_chat.Ledger.Accounts.Opening.{
  Opened, is_treasury, ensure_wallet_tx-find, ensure_wallets_sorted_tx-Opened,
  ensure_wallet_tx-Opened, ensure_treasury_tx-Opened, ensure_treasury_tx-treasury, Opened-trans,
}
use teri_chat.Ledger.Postings.{
  total, fetch_transaction_tx, fetch_postings_tx, same_request, reuse, legs,
}
use teri_chat.Ledger.Transfers.{move, issue, transfer_tx, mint_tx}
use teri_chat.Ledger.Transfers.Effects.{Posted, row_of, move-Posted, issue-Posted}

-- A transaction that was there before, and is the one that the request describes.
pub record Known (kind : TransactionKind) (k debit credit : ℕ) (amount : ℤ) (t : LedgerTransaction)
    (db : Books) : Type 0 where
  pub stored : find (transaction_with k) db.transactions ≡ some t
  pub matches : same_request kind (legs debit credit amount) (fetch_postings_tx k db) t ≡ true

-- What a committed transfer has done, after it made sure of both wallets.
pub record Transferred (fresh : Fresh) (u v : ℕ) (amount : ℤ) (k : ℕ) (t : LedgerTransaction)
    (created : Bool) (db : Books) (db' : Books) : Type 0 where
  pub debit : LedgerAccount
  pub credit : LedgerAccount
  pub mid : Books
  pub opens : Opened db mid
  pub payer : find (owned_by u) mid.accounts ≡ some debit
  pub payee : find (owned_by v) mid.accounts ≡ some credit
  pub result :
      ((created ≡ true)
        × (t ≡ row_of transfer_kind k fresh.now)
        × Posted (row_of transfer_kind k fresh.now) debit.id credit.id amount mid db'
        × (pos 0 ≤ℤ total (posting_on debit.id) db'.postings))
      ⊎ ((created ≡ false) × (db' ≡ mid) × Known transfer_kind k debit.id credit.id amount t mid)

move-result :
    (fresh : Fresh) (debit credit : ℕ) (amount : ℤ) (k : ℕ) (db : Books) (t : LedgerTransaction)
    (created : Bool) (db' : Books)
    → move fresh debit credit amount k (fetch_transaction_tx k db) db ≡ ok ((t, created), db')
    → ((created ≡ true)
        × (t ≡ row_of transfer_kind k fresh.now)
        × Posted (row_of transfer_kind k fresh.now) debit credit amount db db'
        × (pos 0 ≤ℤ total (posting_on debit) db'.postings))
      ⊎ ((created ≡ false) × (db' ≡ db) × Known transfer_kind k debit credit amount t db)
unfolding fetch_transaction_tx move reuse
move-result fresh debit credit amount k db t created db' h =
    elim (Option-cases (find (transaction_with k) db.transactions)) [
      | inl f ↦ inl (move-Posted fresh debit credit amount k db t created db' (ground arith))
      | inr (e, f) ↦
          inr (ground arith, ground arith, record { stored = ground arith; matches = ground arith })
    ]

pub transfer_tx-Transferred :
    (fresh : Fresh) (u v : ℕ) (amount : ℤ) (k : ℕ) (db : Books) (t : LedgerTransaction)
    (created : Bool) (db' : Books)
    → transfer_tx fresh u v amount k db ≡ ok ((t, created), db')
    → Transferred fresh u v amount k t created db db'
unfolding transfer_tx
transfer_tx-Transferred fresh u v amount k db t created db' h =
    elim (Result-cases (ensure_wallets_sorted_tx fresh u v db)) [
      | inr (e, r) ↦ absurd (ground arith)
      | inl (((a, b), mid), r) ↦
          let o = ensure_wallets_sorted_tx-Opened fresh u v db a b mid r in
          record {
            debit = a;
            credit = b;
            mid = mid;
            opens = o.0;
            payer = o.1;
            payee = o.2;
            result = move-result fresh a.id b.id amount k mid t created db' (ground arith);
          }
    ]

-- What a committed issue has done, after it made sure of the treasury and the wallet.
pub record Issued (fresh : Fresh) (v : ℕ) (amount : ℤ) (k : ℕ) (t : LedgerTransaction)
    (created : Bool) (db : Books) (db' : Books) : Type 0 where
  pub treasury : LedgerAccount
  pub credit : LedgerAccount
  pub mid : Books
  pub opens : Opened db mid
  pub is_treasury_of : exists (is_treasury treasury.id) mid.accounts ≡ true
  pub payee : find (owned_by v) mid.accounts ≡ some credit
  pub result :
      ((created ≡ true)
        × (t ≡ row_of mint_kind k fresh.now)
        × Posted (row_of mint_kind k fresh.now) treasury.id credit.id amount mid db')
      ⊎ ((created ≡ false) × (db' ≡ mid) × Known mint_kind k treasury.id credit.id amount t mid)

issue-result :
    (fresh : Fresh) (debit credit : ℕ) (amount : ℤ) (k : ℕ) (db : Books) (t : LedgerTransaction)
    (created : Bool) (db' : Books)
    → issue fresh debit credit amount k (fetch_transaction_tx k db) db ≡ ok ((t, created), db')
    → ((created ≡ true)
        × (t ≡ row_of mint_kind k fresh.now)
        × Posted (row_of mint_kind k fresh.now) debit credit amount db db')
      ⊎ ((created ≡ false) × (db' ≡ db) × Known mint_kind k debit credit amount t db)
unfolding fetch_transaction_tx issue reuse
issue-result fresh debit credit amount k db t created db' h =
    elim (Option-cases (find (transaction_with k) db.transactions)) [
      | inl f ↦ inl (issue-Posted fresh debit credit amount k db t created db' (ground arith))
      | inr (e, f) ↦
          inr (ground arith, ground arith, record { stored = ground arith; matches = ground arith })
    ]

-- The account that `find` returns for the treasury is one.
find-treasury :
    (a : LedgerAccount) (rows : List LedgerAccount)
    → find is_system rows ≡ some a
    → exists (is_treasury a.id) rows ≡ true
unfolding find exists
find-treasury a [] h = ground arith
find-treasury a (x ∷ rows) h = ground (arith, find-treasury a rows)

pub mint_tx-Issued :
    (fresh : Fresh) (v : ℕ) (amount : ℤ) (k : ℕ) (db : Books) (t : LedgerTransaction)
    (created : Bool) (db' : Books)
    → mint_tx fresh v amount k db ≡ ok ((t, created), db')
    → Issued fresh v amount k t created db db'
unfolding mint_tx
mint_tx-Issued fresh v amount k db t created db' h =
    elim (Result-cases (ensure_treasury_tx fresh.first_id fresh.now db)) [
      | inr (e, r) ↦ absurd (ground arith)
      | inl ((a, low), r) ↦ elim (Result-cases (ensure_wallet_tx fresh.second_id fresh.now v low)) [
        | inr (e, q) ↦ absurd (ground arith)
        | inl ((b, mid), q) ↦
            let o = ensure_treasury_tx-Opened fresh.first_id fresh.now db a low r in
            let w = ensure_wallet_tx-Opened fresh.second_id fresh.now v low b mid q in
            record {
              treasury = a;
              credit = b;
              mid = mid;
              opens = Opened-trans db low mid o w;
              is_treasury_of = w.treasury_kept a.id (
                  find-treasury a low.accounts
                    (ensure_treasury_tx-treasury fresh.first_id fresh.now db a low r));
              payee = ensure_wallet_tx-find fresh.second_id fresh.now v low b mid q;
              result = issue-result fresh a.id b.id amount k mid t created db' (ground arith);
            }
      ]
    ]
