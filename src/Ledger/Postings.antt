-- ===== src/Ledger/Postings.antt =====
-- The transactions and postings: the reads, the writes and the checks that `transfer` and `mint`
-- in apps/server/src/ledger.rs share.
use teri_chat.Prelude.{
  ℕ, Bool, true, false, not, ◌&&◌, ◌||◌, Option, List, [], ◌∷◌, map, ltb, ok, err, Tx, ◌>>=◌, ◌>>◌,
  pure, raise_if, gets, map_err, DbError, unique_violation, foreign_key_violation, check_violation,
  out_of_range, in_failed_transaction, ◌==◌, if◌then◌else◌,
}
use teri_chat.Prelude.Int.{ℤ, pos, negsuc, ◌+ℤ◌, neg, ltb_ℤ, fits_i64}
use teri_chat.Table.{find, exists, select, count, order_by}
use teri_chat.Ledger.Schema.{
  LedgerError, bad_input, invariant, database, TransactionKind, LedgerTransaction, Posting, Books,
  account_with, transaction_with, posting_of, posting_on, kind_eq,
}

unfoldable pub fetch_transaction_tx : ℕ → Books → Option LedgerTransaction
fetch_transaction_tx transaction_id db = find (transaction_with transaction_id) db.transactions

abbrev pub Leg : Type 0
Leg = ℕ × ℤ

abbrev pub to_leg : Posting → Leg
to_leg p = (p.account_id, p.amount)

abbrev pub eq_ℤ : ℤ → ℤ → Bool
eq_ℤ (pos a) (pos b) = a == b
eq_ℤ (negsuc a) (negsuc b) = a == b
eq_ℤ a b = false

-- The order of the pairs, by the account and then the amount.
abbrev pub leg_before : Leg → Leg → Bool
leg_before (a, x) (b, y) = ltb a b || (a == b && ltb_ℤ x y)

abbrev pub legs_eq : List Leg → List Leg → Bool
legs_eq [] [] = true
legs_eq ((a, x) ∷ s) ((b, y) ∷ t) = (a == b && eq_ℤ x y) && legs_eq s t
legs_eq s t = false

unfoldable pub fetch_postings_tx : ℕ → Books → List Leg
fetch_postings_tx transaction_id db =
    order_by (λ x y. ltb x.0 y.0) (map to_leg (select (posting_of transaction_id) db.postings))

-- The two legs of a movement of `amount`.
abbrev pub legs : ℕ → ℕ → ℤ → List Leg
legs debit credit amount = (debit, neg amount) ∷ (credit, amount) ∷ []

-- Whether a stored transaction is the one that is asked for: `actual != expected` on sorted legs.
unfoldable pub same_request : TransactionKind → List Leg → List Leg → LedgerTransaction → Bool
same_request kind expected actual existing =
    kind_eq existing.kind kind
    && legs_eq (order_by leg_before actual) (order_by leg_before expected)

-- The branch of an id that is in use.
unfoldable pub reuse :
    TransactionKind
    → ℕ
    → List Leg
    → LedgerTransaction
    → Tx Books LedgerError (LedgerTransaction × Bool)
reuse kind transaction_id expected existing = do
  postings ← gets (fetch_postings_tx transaction_id)
  raise_if (not (same_request kind expected postings existing))
      (bad_input "transaction id already used with different parameters")
  pure (existing, false)

-- `INSERT INTO ledger_transactions`, by its primary key.
unfoldable pub insert_transaction : TransactionKind → ℕ → ℕ → Tx Books DbError (Unit {0})
insert_transaction kind transaction_id now db =
    elim (exists (transaction_with transaction_id) db.transactions) [
      | true ↦ err unique_violation
      | false ↦ ok (
        tt,
        record db {
          transactions =
              record { id = transaction_id; kind = kind; memo = ""; created_at = now }
              ∷ db.transactions;
        },
      )
    ]

-- After a unique violation the source reads on in the same transaction, and PostgreSQL answers
-- every further statement of a failed transaction by an error.
abbrev pub insert_failed : DbError → LedgerError
insert_failed unique_violation = database in_failed_transaction
insert_failed e = database e

abbrev pub is_zero : ℤ → Bool
is_zero (pos a) = a == 0
is_zero (negsuc a) = false

abbrev pub same_leg : ℕ → ℕ → Posting → Bool
same_leg t a p = p.transaction_id == t && p.account_id == a

-- `INSERT INTO ledger_postings`, with the schema's check, reference to the account and index.
unfoldable pub insert_posting : ℕ → Leg → Tx Books DbError (Unit {0})
insert_posting transaction_id (account_id, amount) db = elim (is_zero amount) [
  | true ↦ err check_violation
  | false ↦ elim (exists (account_with account_id) db.accounts) [
    | false ↦ err foreign_key_violation
    | true ↦ elim (exists (same_leg transaction_id account_id) db.postings) [
      | true ↦ err unique_violation
      | false ↦ ok (
        tt,
        record db {
          postings =
              record { transaction_id = transaction_id; account_id = account_id; amount = amount }
              ∷ db.postings;
        },
      )
    ]
  ]
]

-- `SUM(amount)`.
unfoldable pub total : (Posting → Bool) → List Posting → ℤ
total p [] = pos 0
total p (x ∷ xs) = let rest = total p xs in if p x then x.amount +ℤ rest else rest

-- `COALESCE(SUM(amount), 0)::BIGINT`, which fails out of the range of the type.
unfoldable pub sum_bigint : (Posting → Bool) → Tx Books DbError ℤ
sum_bigint p db = elim (fits_i64 (total p db.postings)) [
  | true ↦ ok (total p db.postings, db)
  | false ↦ err out_of_range
]

-- The check of the application that the new transaction nets to zero.
unfoldable pub check_zero_sum : ℕ → Tx Books LedgerError (Unit {0})
unfolding sum_bigint
check_zero_sum transaction_id = do
  tx_sum ← map_err database (sum_bigint (posting_of transaction_id))
  raise_if (not (is_zero tx_sum)) (invariant transaction_id tx_sum)

unfoldable pub check_funds : ℕ → Tx Books LedgerError (Unit {0})
unfolding sum_bigint
check_funds account_id = do
  sender_balance ← map_err database (sum_bigint (posting_on account_id))
  raise_if (ltb_ℤ sender_balance (pos 0)) (bad_input "insufficient funds")

-- `commit` after postings were inserted: the deferred trigger `ledger_assert_balanced`.
unfoldable pub commit_postings : ℕ → Tx Books DbError (Unit {0})
commit_postings transaction_id db = elim (is_zero (total (posting_of transaction_id) db.postings)) [
  | false ↦ err check_violation
  | true ↦ elim (count (posting_of transaction_id) db.postings == 2) [
    | true ↦ ok (tt, db)
    | false ↦ err check_violation
  ]
]
