-- ===== src/Ledger/Transfers/Funds.antt =====
-- Where the credits of a transfer go.
use teri_chat.Prelude.{ℕ, ◌≡◌, sym, true, some, arith, ok, inl, inr, ◌==◌, if◌then◌else◌}
use mathlib.Core.Path.{subst}
use teri_chat.Prelude.Int.{ℤ, neg, ◌+ℤ◌}
use teri_chat.Table.{find}
use teri_chat.Ledger.Schema.{LedgerAccount, LedgerTransaction, Books, Fresh, owned_by, posting_on}
use teri_chat.Ledger.Accounts.Opening.{Opened}
use teri_chat.Ledger.Postings.{total}
use teri_chat.Ledger.Transfers.{transfer_tx}
use teri_chat.Ledger.Transfers.Effects.{Posted}
use teri_chat.Ledger.Transfers.Outcomes.{transfer_tx-Transferred}
use teri_chat.Ledger.Transfers.Soundness.{total-legs}

-- The balance of an account.
abbrev pub holds : ℕ → Books → ℤ
holds x db = total (posting_on x) db.postings

holds-Posted :
    (t : LedgerTransaction) (debit credit : ℕ) (amount : ℤ) (db mid db' : Books) (x : ℕ)
    → Opened db mid
    → Posted t debit credit amount mid db'
    → holds x db' ≡ (
        if x == debit
        then neg amount +ℤ holds x db
        else if x == credit
        then amount +ℤ holds x db
        else holds x db)
holds-Posted t debit credit amount db mid db' x o p =
    ground (
      arith,
      total-legs t.id debit credit amount x mid.postings p.distinct,
      o.same_postings,
      p.after,
    )

-- A new transfer takes the amount from the wallet of the sender, adds it to that of the recipient,
-- and leaves every other account as it was.
pub transfer_tx-moves :
    (fresh : Fresh) (u v : ℕ) (amount : ℤ) (k : ℕ) (db : Books) (t : LedgerTransaction)
    (db' : Books)
    → transfer_tx fresh u v amount k db ≡ ok ((t, true), db')
    → (a : LedgerAccount) × (b : LedgerAccount) × (find (owned_by u) db'.accounts ≡ some a)
      × (find (owned_by v) db'.accounts ≡ some b)
      × ((x : ℕ)
          → holds x db' ≡ (
              if x == a.id
              then neg amount +ℤ holds x db
              else if x == b.id
              then amount +ℤ holds x db
              else holds x db))
transfer_tx-moves fresh u v amount k db t db' h =
    let r = transfer_tx-Transferred fresh u v amount k db t true db' h in
    elim (r.result) [
      | inr (c, e, known) ↦ absurd (ground arith)
      | inl (c, e, posted, cover) ↦ (
        r.debit,
        r.credit,
        subst (λ (y : Books). find (owned_by u) y.accounts ≡ some r.debit) (sym posted.after)
            r.payer,
        subst (λ (y : Books). find (owned_by v) y.accounts ≡ some r.credit) (sym posted.after)
            r.payee,
        λ x. holds-Posted _ r.debit.id r.credit.id amount db r.mid db' x r.opens posted,
      )
    ]
