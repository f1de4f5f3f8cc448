-- ===== src/Messaging/Sending/History.antt =====
-- A page of a conversation's history is exactly the run of the next numbers.
use teri_chat.Prelude.{
  ℕ, ◌≡◌, ◌∙◌, ap, refl, zero, suc, ◌+◌, ◌-◌, Bool, true, false, ◌&&◌, not, List, [], ◌∷◌, map,
  arith, ltb, leb, ◌==◌, take, ok, if◌then◌else◌, Bool-cases, inl, inr,
}
use teri_chat.Prelude.Int.{ℤ, pos, ltb_ℤ, pos_part}
use teri_chat.Table.{exists, select, count, order_by}
use teri_chat.Table.Sorting.{
  range, map-range, order_by-in_key_order, count-order_by, count-select, count_same, count_none,
  with_key,
}
use teri_chat.Messaging.Schema.{MsgDb, Message, seat_in, at_seq}
use teri_chat.Messaging.Sending.{message_history, after_seq, earlier_seq, clamp_limit, least}
use teri_chat.Messaging.Commits.Numbering.{Numbered, next_of, once}

abbrev pub seq_of : Message → ℕ
seq_of m = m.seq

abbrev pub elsewhere : ℕ → Message → Bool
elsewhere c m = not (m.conversation_id == c)

map-take : {A B : Type 0} (f : A → B) (n : ℕ) (xs : List A) → map f (take n xs) ≡ take n (map f xs)
map-take f zero xs = refl
map-take f (suc n) [] = refl
map-take f (suc n) (x ∷ xs) = ap (λ ys. f x ∷ ys) (map-take f n xs)

take-range : (n a k : ℕ) → take n (range a k) ≡ range a (least n k)
unfolding range
take-range zero a k = ground arith
take-range (suc n) a zero = ground arith
take-range (suc n) a (suc k) = ground (arith, take-range n (suc a) k)

numbers_after :
    (db : MsgDb) (c : ℕ) (since : ℤ) (n : ℕ)
    → Numbered db
    → count (with_key seq_of n) (order_by earlier_seq (select (after_seq c since) db.messages)) ≡ (
        if leb (pos_part since + 1) n
          && ltb n (pos_part since + 1 + (next_of c db.conversations - 1 - pos_part since))
        then 1
        else 0)
unfolding once
numbers_after db c since n w = elim (Bool-cases (ltb_ℤ since (pos n))) [
  | inl late ↦ ground (
    arith,
    count-order_by (with_key seq_of n) earlier_seq (select (after_seq c since) db.messages),
    count-select (with_key seq_of n) (after_seq c since) db.messages,
    count_same (λ m. after_seq c since m && with_key seq_of n m) (at_seq c n) db.messages
        (λ m. ground arith),
    w.numbered c n,
  )
  | inr early ↦ ground (
    arith,
    count-order_by (with_key seq_of n) earlier_seq (select (after_seq c since) db.messages),
    count-select (with_key seq_of n) (after_seq c since) db.messages,
    count_none (λ m. after_seq c since m && with_key seq_of n m) db.messages (λ m. ground arith),
  )
]

exists-take :
    {A : Type 0} (p : A → Bool) (n : ℕ) (xs : List A)
    → exists p xs ≡ false
    → exists p (take n xs) ≡ false
unfolding exists
exists-take p zero xs h = refl
exists-take p (suc n) [] h = refl
exists-take p (suc n) (x ∷ xs) h = ground (arith, exists-take p n xs)

exists-of-count : {A : Type 0} (p : A → Bool) (xs : List A) → count p xs ≡ 0 → exists p xs ≡ false
unfolding exists count
exists-of-count p [] h = refl
exists-of-count p (x ∷ xs) h = ground (arith, exists-of-count p xs)

none_elsewhere :
    (db : MsgDb) (c : ℕ) (since : ℤ)
    → exists (elsewhere c) (order_by earlier_seq (select (after_seq c since) db.messages)) ≡ false
none_elsewhere db c since = exists-of-count (elsewhere c) _ (
    count-order_by (elsewhere c) earlier_seq (select (after_seq c since) db.messages)
    ∙ (count-select (elsewhere c) (after_seq c since) db.messages
        ∙ count_none (λ m. after_seq c since m && elsewhere c m) db.messages (λ m. ground arith)))

-- In a well-formed state a member who asks for the messages after a number gets those with the
-- next numbers, one after the other, all of this conversation: as many as the clamped limit
-- allows, or all that follow when they are fewer.
pub message_history-range :
    (u c : ℕ) (since limit : ℤ) (db : MsgDb)
    → Numbered db
    → exists (seat_in c u) db.participants ≡ true
    → (page : List Message) × (message_history u c since limit db ≡ ok page)
      × (map seq_of page
          ≡ range
              (pos_part since + 1)
              (least (clamp_limit limit) (next_of c db.conversations - 1 - pos_part since)))
      × (exists (elsewhere c) page ≡ false)
unfolding message_history
message_history-range u c since limit db w member = (
  take (clamp_limit limit) (order_by earlier_seq (select (after_seq c since) db.messages)),
  ground arith,
  map-take seq_of (clamp_limit limit)
        (order_by earlier_seq (select (after_seq c since) db.messages))
      ∙ (ap (take (clamp_limit limit)) (
            map-range seq_of (pos_part since + 1) (next_of c db.conversations - 1 - pos_part since)
              (order_by earlier_seq (select (after_seq c since) db.messages))
              (order_by-in_key_order seq_of (select (after_seq c since) db.messages))
              (λ n. numbers_after db c since n w))
          ∙ take-range (clamp_limit limit) (pos_part since + 1)
              (next_of c db.conversations - 1 - pos_part since)),
  exists-take (elsewhere c) (clamp_limit limit) _ (none_elsewhere db c since),
)
