-- ===== src/Envelope/Wire.antt =====
-- The wire layout of an envelope.
use teri_chat.Prelude.{
  Bool, if◌then◌else◌, ℕ, zero, suc, ◌≡◌, ◌≤◌, ◌+◌, ◌-◌, refl, false, ok, err, arith, length,
  length-append, List, [], ◌∷◌, ◌++◌, take, drop, ap, ◌∙◌, sym, ltb,
}
use teri_chat.Envelope.{invalid_envelope, Bool, Bytes, SealedEnvelope, to_bytes, from_bytes}

module _ {A : Type 0} where
  take-append : (n : ℕ) (xs ys : List A) → length xs ≡ n → take n (xs ++ ys) ≡ xs
  take-append zero [] ys h = refl
  take-append zero (x ∷ xs) ys h = ground arith
  take-append (suc n) [] ys h = ground arith
  take-append (suc n) (x ∷ xs) ys h = ground (arith, take-append n xs ys)

  drop-append : (n : ℕ) (xs ys : List A) → length xs ≡ n → drop n (xs ++ ys) ≡ ys
  drop-append zero [] ys h = refl
  drop-append zero (x ∷ xs) ys h = ground arith
  drop-append (suc n) [] ys h = ground arith
  drop-append (suc n) (x ∷ xs) ys h = ground (arith, drop-append n xs ys)

  drop_nil : (n : ℕ) → drop {A = A} n [] ≡ []
  drop_nil zero = refl
  drop_nil (suc n) = refl

  drop-sum : (a b : ℕ) (xs : List A) → drop (a + b) xs ≡ drop b (drop a xs)
  drop-sum zero b xs = ap (λ n. drop n xs) (omega arith)
  drop-sum (suc a) b [] = drop_nil (suc a + b) ∙ sym (drop_nil b)
  drop-sum (suc a) b (x ∷ xs) =
      ap (λ n. drop n (x ∷ xs)) {x = suc a + b} {y = suc (a + b)} (omega arith) ∙ drop-sum a b xs

  length-take : (n : ℕ) (xs : List A) → n ≤ length xs → length (take n xs) ≡ n
  length-take zero xs h = refl
  length-take (suc n) [] h = ground arith
  length-take (suc n) (x ∷ xs) h = ground (arith, length-take n xs)

  length-drop : (n : ℕ) (xs : List A) → length (drop n xs) ≡ length xs - n
  length-drop zero xs = ground arith
  length-drop (suc n) [] = ground arith
  length-drop (suc n) (x ∷ xs) = ground (arith, length-drop n xs)

-- The sizes of the arrays of an envelope.
pub record IsSized (e : SealedEnvelope) : Type 0 where
  pub ephemeral_size : length e.ephemeral_pub ≡ 32
  pub nonce_size : length e.nonce ≡ 24
  pub signature_size : length e.signature ≡ 64

assembled :
    (short : Bool) (a b c d : Bytes) (e : SealedEnvelope)
    → short ≡ false
    → a ≡ e.ephemeral_pub
    → b ≡ e.nonce
    → c ≡ e.signature
    → d ≡ e.ciphertext
    → (if short
        then err invalid_envelope
        else ok (record { ephemeral_pub = a; nonce = b; signature = c; ciphertext = d }))
      ≡ ok e
assembled short a b c d e p q r s t = ground arith

-- The length of the bytes that are sent.
pub length-to_bytes :
    (e : SealedEnvelope)
    → length (to_bytes e)
      ≡ length e.ephemeral_pub + (length e.nonce + (length e.signature + length e.ciphertext))
unfolding to_bytes
length-to_bytes e = omega (
  arith,
  length-append e.ephemeral_pub (e.nonce ++ (e.signature ++ e.ciphertext)),
  length-append e.nonce (e.signature ++ e.ciphertext),
  length-append e.signature e.ciphertext,
)

long_enough : (n a b c d : ℕ) → n ≡ a + (b + (c + d)) → a ≡ 32 → b ≡ 24 → c ≡ 64 → ltb n 120 ≡ false
long_enough n a b c d h p q r = ground arith

-- Whatever envelope is sent, with arrays of their sizes, is the one that is parsed.
pub from_bytes-to_bytes : (e : SealedEnvelope) → IsSized e → from_bytes (to_bytes e) ≡ ok e
unfolding from_bytes to_bytes
from_bytes-to_bytes e h =
    let tail = e.signature ++ e.ciphertext in
    let rest = e.nonce ++ tail in
    let raw = e.ephemeral_pub ++ rest in
    let d1 = drop-append 32 e.ephemeral_pub rest h.ephemeral_size in
    let d2 = drop-sum 32 24 raw ∙ ap (drop 24) d1 ∙ drop-append 24 e.nonce tail h.nonce_size in
    let d3 =
      drop-sum 56 64 raw
      ∙ ap (drop 64) d2
      ∙ drop-append 64 e.signature e.ciphertext h.signature_size in
    assembled (ltb (length raw) 120) (take 32 raw) (take 24 (drop 32 raw)) (take 64 (drop 56 raw))
      (drop 120 raw) e
      (long_enough (length raw) (length e.ephemeral_pub) (length e.nonce) (length e.signature)
        (length e.ciphertext) (length-to_bytes e) h.ephemeral_size h.nonce_size h.signature_size)
      (take-append 32 e.ephemeral_pub rest h.ephemeral_size)
      (ap (take 24) d1 ∙ take-append 24 e.nonce tail h.nonce_size)
      (ap (take 64) d2 ∙ take-append 64 e.signature e.ciphertext h.signature_size) d3
