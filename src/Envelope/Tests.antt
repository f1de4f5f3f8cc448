-- ===== src/Envelope/Tests.antt =====
-- The theorems on envelopes with toy primitives that satisfy what the crates document.
use teri_chat.Prelude.{
  ◌≤◌, zero, suc, ℕ, ◌≡◌, ◌+◌, refl, true, some, [], ◌∷◌, ◌++◌, ok, arith, length, drop,
  length-append, ◌∙◌,
}
use teri_chat.Table.{exists}
use teri_chat.Envelope.{
  Bytes, Primitives, IdentityKeypair, SealedEnvelope, Randomness, seal, open_sealed,
  identity_verify_key, agreement_pubkey, seal_with, envelope_key, valid_agreement_key,
}
use teri_chat.Envelope.{to_bytes, from_bytes}
use teri_chat.Envelope.Wire.{IsSized}
use teri_chat.Envelope.Delivery.{seal-wire, Agrees, Sizes, seal-open}

abbrev repeat : ℕ → ℕ → Bytes
repeat zero b = []
repeat (suc n) b = b ∷ repeat n b

-- Keys are constants, a signature is 64 bytes, and a ciphertext is the plaintext after a tag.
abbrev toy : Primitives
toy = record {
  verifying_key = λ s. repeat 32 1;
  parses_as_key = λ k. true;
  sign = λ s m. repeat 64 3;
  parses_as_signature = λ s. true;
  verify_strict = λ k m s. true;
  public_key = λ s. repeat 32 2;
  diffie_hellman = λ a b. [];
  expand = λ salt ikm info. some info;
  encrypt = λ k n m. some (repeat 16 0 ++ m);
  decrypt = λ k n c. some (drop 16 c);
  hkdf_info = [];
}

drop_tag : (m : Bytes) → drop 16 (repeat 16 0 ++ m) ≡ m
drop_tag m = refl

toy-Agrees : Agrees toy
toy-Agrees = record {
  exchange = λ a b. refl;
  own_key = λ s. refl;
  own_signature = λ s m. refl;
  verified = λ s m. refl;
  decrypted = λ k n m c h. ground arith;
}

some-length : (a c : Bytes) (n : ℕ) → length a ≡ n → some a ≡ some c → length c ≡ n
some-length a c n p h = ground arith

toy-Sizes : Sizes toy
toy-Sizes = record {
  of_public_key = λ s. refl;
  of_signature = λ s m. refl;
  of_ciphertext = λ k n m c h.
      some-length (repeat 16 0 ++ m) c (length m + 16) (length-append (repeat 16 0) m ∙ omega arith)
        h;
}

abbrev ada : IdentityKeypair
ada = record { signing = 1 ∷ []; agreement = 2 ∷ [] }

abbrev bob : IdentityKeypair
bob = record { signing = 3 ∷ []; agreement = 4 ∷ [] }

abbrev random : Randomness
random = record { ephemeral_priv = some (5 ∷ []); nonce = some (repeat 24 6) }

abbrev letter : SealedEnvelope
letter = record {
  ephemeral_pub = repeat 32 2;
  nonce = repeat 24 6;
  signature = repeat 64 3;
  ciphertext = repeat 16 0 ++ (7 ∷ 8 ∷ []);
}

sealed : seal toy random ada (agreement_pubkey toy bob) (7 ∷ 8 ∷ []) ≡ ok letter
unfolding seal seal_with envelope_key identity_verify_key agreement_pubkey valid_agreement_key
    exists
sealed = refl

seal-open_example : open_sealed toy bob (identity_verify_key toy ada) letter ≡ ok (7 ∷ 8 ∷ [])
seal-open_example = seal-open toy random ada bob (7 ∷ 8 ∷ []) letter toy-Agrees sealed

letter-IsSized : IsSized letter
letter-IsSized = record { ephemeral_size = refl; nonce_size = refl; signature_size = refl }

seal-wire_example :
    (length (to_bytes letter) ≤ 1_048_576) × (from_bytes (to_bytes letter) ≡ ok letter)
seal-wire_example =
    seal-wire toy random ada (agreement_pubkey toy bob) (7 ∷ 8 ∷ []) letter toy-Sizes
      (λ n h. some-length (repeat 24 6) n 24 refl h) sealed
