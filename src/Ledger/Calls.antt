-- ===== src/Ledger/Calls.antt =====
-- The calls of the ledger as one step relation, and what every order of them keeps.
use teri_chat.Prelude.{
  ℕ, ◌≡◌, ◌⊎◌, refl, sym, Bool, Option, arith, Result-cases, inl, inr, Bool-cases, ◌==◌, ◌&&◌, ◌||◌,
  not,
}
use mathlib.Core.Path.{subst}
use teri_chat.Prelude.Int.{ℤ, pos, ◌<ℤ◌, leb_ℤ}
use teri_chat.Ledger.Schema.{LedgerTransaction, Books, Fresh}
use teri_chat.Ledger.Accounts.{ensure_wallet, ensure_wallet_tx}
use teri_chat.Ledger.Accounts.Opening.{Opened, Opened-refl, ensure_wallet_tx-Opened}
use teri_chat.Ledger.Transfers.{transfer, transfer_tx, mint, mint_tx}
use teri_chat.Ledger.Transfers.Outcomes.{
  Transferred, Issued, transfer_tx-Transferred, mint_tx-Issued,
}
use teri_chat.Ledger.Transfers.Soundness.{Sound, Step, opened, moved, Step-Sound}
use teri_chat.Ledger.Wallets.{balance, account_balance, history_before}

-- A call, whatever it answers, and the state that it leaves.
pub data Called (db : Books) : Books → Type 0 where
  transferred :
      (fresh : Fresh) (caller u v : ℕ) (amount : ℤ) (k : ℕ)
      → Called db (transfer fresh caller u v amount k db).1
  minted : (fresh : Fresh) (v : ℕ) (amount : ℤ) (k : ℕ) → Called db (mint fresh v amount k db).1
  read_balance : (fresh : Fresh) (caller u : ℕ) → Called db (balance fresh caller u db).1
  read_history :
      (fresh : Fresh) (caller u : ℕ) (limit : ℤ) (before : Option ℕ)
      → Called db (history_before fresh caller u limit before db).1

ensure_wallet-Opened :
    (fresh : Fresh) (u : ℕ) (db db' : Books) → (ensure_wallet fresh u db).1 ≡ db' → Opened db db'
unfolding ensure_wallet
ensure_wallet-Opened fresh u db db' h =
    elim (Result-cases (ensure_wallet_tx fresh.first_id fresh.now u db)) [
      | inl ((a, t), r) ↦ ensure_wallet_tx-Opened fresh.first_id fresh.now u db a db' (ground arith)
      | inr (e, r) ↦ subst (Opened db) (ground arith) (Opened-refl db)
    ]

balance_state :
    (fresh : Fresh) (caller u : ℕ) (db : Books)
    → ((balance fresh caller u db).1 ≡ db)
      ⊎ ((balance fresh caller u db).1 ≡ (ensure_wallet fresh u db).1)
unfolding balance account_balance
balance_state fresh caller u db = ground arith

history_before_state :
    (fresh : Fresh) (caller u : ℕ) (limit : ℤ) (before : Option ℕ) (db : Books)
    → ((history_before fresh caller u limit before db).1 ≡ db)
      ⊎ ((history_before fresh caller u limit before db).1 ≡ (ensure_wallet fresh u db).1)
unfolding history_before
history_before_state fresh caller u limit before db = ground arith

opened_either :
    (fresh : Fresh) (u : ℕ) (db db' : Books)
    → (db' ≡ db) ⊎ (db' ≡ (ensure_wallet fresh u db).1)
    → Step db db'
opened_either fresh u db db' (inl e) = opened (rw e (Opened-refl db))
opened_either fresh u db db' (inr e) = opened (ensure_wallet-Opened fresh u db db' (sym e))

Transferred-Step :
    (fresh : Fresh) (u v : ℕ) (amount : ℤ) (k : ℕ) (t : LedgerTransaction) (created : Bool)
    (db db' : Books)
    → pos 0 <ℤ amount
    → Transferred fresh u v amount k t created db db'
    → Step db db'
Transferred-Step fresh u v amount k t created db db' p r = elim (r.result) [
  | inl (c, e, posted, cover) ↦
      moved _ r.debit.id r.credit.id amount r.mid r.opens posted p (inr cover)
  | inr (c, e, known) ↦ opened (rw e r.opens)
]

Issued-Step :
    (fresh : Fresh) (v : ℕ) (amount : ℤ) (k : ℕ) (t : LedgerTransaction) (created : Bool)
    (db db' : Books)
    → pos 0 <ℤ amount
    → Issued fresh v amount k t created db db'
    → Step db db'
Issued-Step fresh v amount k t created db db' p r = elim (r.result) [
  | inl (c, e, posted) ↦
      moved _ r.treasury.id r.credit.id amount r.mid r.opens posted p
        (inl (rw posted.after r.is_treasury_of))
  | inr (c, e, known) ↦ opened (rw e r.opens)
]

transfer-Step :
    (fresh : Fresh) (caller u v : ℕ) (amount : ℤ) (k : ℕ) (db db' : Books)
    → (transfer fresh caller u v amount k db).1 ≡ db'
    → Step db db'
unfolding transfer
transfer-Step fresh caller u v amount k db db' h =
    elim (Result-cases (transfer_tx fresh u v amount k db)) [
      | inr (e, r) ↦ opened_either fresh u db db' (inl (ground arith))
      | inl (((t, created), s), r) ↦
          elim (Bool-cases (caller == u && not (leb_ℤ amount (pos 0) || u == v))) [
            | inr g ↦ opened_either fresh u db db' (inl (ground arith))
            | inl g ↦
                Transferred-Step fresh u v amount k t created db db' (ground arith)
                  (transfer_tx-Transferred fresh u v amount k db t created db' (ground arith))
          ]
    ]

mint-Step :
    (fresh : Fresh) (v : ℕ) (amount : ℤ) (k : ℕ) (db db' : Books)
    → (mint fresh v amount k db).1 ≡ db'
    → Step db db'
unfolding mint
mint-Step fresh v amount k db db' h = elim (Result-cases (mint_tx fresh v amount k db)) [
  | inr (e, r) ↦ opened_either fresh v db db' (inl (ground arith))
  | inl (((t, created), s), r) ↦ elim (Bool-cases (leb_ℤ amount (pos 0))) [
    | inl g ↦ opened_either fresh v db db' (inl (ground arith))
    | inr g ↦
        Issued-Step fresh v amount k t created db db' (ground arith)
          (mint_tx-Issued fresh v amount k db t created db' (ground arith))
  ]
]

-- Every call leaves the tables in a way of `Step`.
pub Called-Step : {db db' : Books} → Called db db' → Step db db'
Called-Step {db} (transferred fresh caller u v amount k) =
    transfer-Step fresh caller u v amount k db _ refl
Called-Step {db} (minted fresh v amount k) = mint-Step fresh v amount k db _ refl
Called-Step {db} (read_balance fresh caller u) =
    opened_either fresh u db _ (balance_state fresh caller u db)
Called-Step {db} (read_history fresh caller u limit before) =
    opened_either fresh u db _ (history_before_state fresh caller u limit before db)

-- The books that calls reach, one after the other.
pub data Reach (db : Books) : Books → Type 0 where
  here : Reach db db
  next : {s t : Books} → Reach db s → Called s t → Reach db t

-- From sound books, every sequence of calls, whatever their arguments and answers, leaves sound
-- books: each transaction nets to zero and has its two legs, the credits of all accounts add up
-- to zero, and no account but the treasury is below zero.
pub Reach-Sound : {db db' : Books} → Sound db → Reach db db' → Sound db'
Reach-Sound s here = s
Reach-Sound s (next r c) = Step-Sound (Called-Step c) (Reach-Sound s r)
