-- ===== src/Ledger/Accounts/Opening.antt =====
-- Opening accounts moves no money.
use teri_chat.Prelude.{
  Bool-cases, ℕ, ◌≡◌, refl, ap, Bool, true, ◌&&◌, some, arith, ok, Result-cases, inl, inr, ◌==◌,
}
use teri_chat.Table.{find, exists}
use teri_chat.Table.Laws.{exists-eq-is_some}
use teri_chat.Ledger.Schema.{LedgerAccount, Books, Fresh, owned_by, is_system}
use teri_chat.Ledger.Accounts.{leb, ensure_wallet_tx, ensure_treasury_tx, ensure_wallets_sorted_tx}

abbrev pub is_treasury : ℕ → LedgerAccount → Bool
is_treasury id a = a.id == id && is_system a

-- What opening accounts keeps: the users, the transactions, the postings, and every account.
pub record Opened (db : Books) (db' : Books) : Type 0 where
  pub same_users : db'.users ≡ db.users
  pub same_transactions : db'.transactions ≡ db.transactions
  pub same_postings : db'.postings ≡ db.postings
  pub treasury_kept :
      (x : ℕ)
      → exists (is_treasury x) db.accounts ≡ true
      → exists (is_treasury x) db'.accounts ≡ true
  pub wallets_kept :
      (u : ℕ) (a : LedgerAccount)
      → find (owned_by u) db.accounts ≡ some a
      → find (owned_by u) db'.accounts ≡ some a

pub ensure_wallet_tx-Opened :
    (id now u : ℕ) (db : Books) (a : LedgerAccount) (db' : Books)
    → ensure_wallet_tx id now u db ≡ ok (a, db')
    → Opened db db'
unfolding ensure_wallet_tx find exists
ensure_wallet_tx-Opened id now u db a db' h = record {
  same_users = ground arith;
  same_transactions = ground arith;
  same_postings = ground arith;
  treasury_kept = λ x k. ground arith;
  wallets_kept = λ v b k. ground (
    arith,
    exists-eq-is_some (owned_by v) db.accounts,
    ap (λ x. exists (owned_by x) db.accounts) {x = u} {y = v},
  );
}

pub ensure_wallet_tx-find :
    (id now u : ℕ) (db : Books) (a : LedgerAccount) (db' : Books)
    → ensure_wallet_tx id now u db ≡ ok (a, db')
    → find (owned_by u) db'.accounts ≡ some a
unfolding ensure_wallet_tx
ensure_wallet_tx-find id now u db a db' h = ground arith

-- A wallet that exists is returned, and nothing changes.
pub ensure_wallet_tx-found :
    (id now u : ℕ) (db : Books) (a : LedgerAccount)
    → find (owned_by u) db.accounts ≡ some a
    → ensure_wallet_tx id now u db ≡ ok (a, db)
unfolding ensure_wallet_tx
ensure_wallet_tx-found id now u db a h = ground (arith, exists-eq-is_some (owned_by u) db.accounts)

pub ensure_treasury_tx-Opened :
    (id now : ℕ) (db : Books) (a : LedgerAccount) (db' : Books)
    → ensure_treasury_tx id now db ≡ ok (a, db')
    → Opened db db'
unfolding ensure_treasury_tx find exists
ensure_treasury_tx-Opened id now db a db' h = record {
  same_users = ground arith;
  same_transactions = ground arith;
  same_postings = ground arith;
  treasury_kept = λ x k. ground arith;
  wallets_kept = λ v b k. ground arith;
}

pub ensure_treasury_tx-treasury :
    (id now : ℕ) (db : Books) (a : LedgerAccount) (db' : Books)
    → ensure_treasury_tx id now db ≡ ok (a, db')
    → find is_system db'.accounts ≡ some a
unfolding ensure_treasury_tx
ensure_treasury_tx-treasury id now db a db' h = ground arith

pub Opened-refl : (db : Books) → Opened db db
Opened-refl db = record {
  same_users = refl;
  same_transactions = refl;
  same_postings = refl;
  treasury_kept = λ x k. k;
  wallets_kept = λ u a k. k;
}

pub Opened-trans : (s t u : Books) → Opened s t → Opened t u → Opened s u
Opened-trans s t u p q = record {
  same_users = ground (arith, p.same_users, q.same_users);
  same_transactions = ground (arith, p.same_transactions, q.same_transactions);
  same_postings = ground (arith, p.same_postings, q.same_postings);
  treasury_kept = λ x k. q.treasury_kept x (p.treasury_kept x k);
  wallets_kept = λ v a k. q.wallets_kept v a (p.wallets_kept v a k);
}

two_wallets :
    (i j now u v : ℕ) (db : Books) (a b : LedgerAccount) (mid db' : Books)
    → ensure_wallet_tx i now u db ≡ ok (a, mid)
    → ensure_wallet_tx j now v mid ≡ ok (b, db')
    → Opened db db'
      × (find (owned_by u) db'.accounts ≡ some a)
      × (find (owned_by v) db'.accounts ≡ some b)
two_wallets i j now u v db a b mid db' h k =
    let first = ensure_wallet_tx-Opened i now u db a mid h in
    let second = ensure_wallet_tx-Opened j now v mid b db' k in
    (
      Opened-trans db mid db' first second,
      second.wallets_kept u a (ensure_wallet_tx-find i now u db a mid h),
      ensure_wallet_tx-find j now v mid b db' k,
    )

-- Both wallets are there afterwards, in the order of the arguments whatever their order of
-- creation, and no money has moved.
pub ensure_wallets_sorted_tx-Opened :
    (fresh : Fresh) (u v : ℕ) (db : Books) (a b : LedgerAccount) (db' : Books)
    → ensure_wallets_sorted_tx fresh u v db ≡ ok ((a, b), db')
    → Opened db db'
      × (find (owned_by u) db'.accounts ≡ some a)
      × (find (owned_by v) db'.accounts ≡ some b)
unfolding ensure_wallets_sorted_tx
ensure_wallets_sorted_tx-Opened fresh u v db a b db' h = elim (Bool-cases (leb u v)) [
  | inl o ↦ elim (Result-cases (ensure_wallet_tx fresh.first_id fresh.now u db)) [
    | inr (e, r) ↦ absurd (ground arith)
    | inl ((x, mid), r) ↦ elim (Result-cases (ensure_wallet_tx fresh.second_id fresh.now v mid)) [
      | inr (e, q) ↦ absurd (ground arith)
      | inl ((y, t), q) ↦
          two_wallets fresh.first_id fresh.second_id fresh.now u v db a b mid db' (ground arith)
            (ground arith)
    ]
  ]
  | inr o ↦ elim (Result-cases (ensure_wallet_tx fresh.first_id fresh.now v db)) [
    | inr (e, r) ↦ absurd (ground arith)
    | inl ((x, mid), r) ↦ elim (Result-cases (ensure_wallet_tx fresh.second_id fresh.now u mid)) [
      | inr (e, q) ↦ absurd (ground arith)
      | inl ((y, t), q) ↦
          let w =
            two_wallets fresh.first_id fresh.second_id fresh.now v u db b a mid db' (ground arith)
              (ground arith) in
          (w.0, w.2, w.1)
    ]
  ]
]

-- Wallets that exist are returned, and nothing changes.
pub ensure_wallets_sorted_tx-found :
    (fresh : Fresh) (u v : ℕ) (db : Books) (a b : LedgerAccount)
    → find (owned_by u) db.accounts ≡ some a
    → find (owned_by v) db.accounts ≡ some b
    → ensure_wallets_sorted_tx fresh u v db ≡ ok ((a, b), db)
unfolding ensure_wallets_sorted_tx
ensure_wallets_sorted_tx-found fresh u v db a b h k = ground (
  arith,
  ensure_wallet_tx-found fresh.first_id fresh.now u db a h,
  ensure_wallet_tx-found fresh.second_id fresh.now u db a h,
  ensure_wallet_tx-found fresh.first_id fresh.now v db b k,
  ensure_wallet_tx-found fresh.second_id fresh.now v db b k,
)
