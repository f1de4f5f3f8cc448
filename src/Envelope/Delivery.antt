-- ===== src/Envelope/Delivery.antt =====
-- A sealed envelope opens for its recipient, and fits the server's cap.
use teri_chat.Prelude.{
  ℕ, ◌≡◌, ◌≤◌, ◌+◌, ◌∙◌, ap, true, false, some, arith, ok, length, Option-cases, Result-cases, inl,
  inr, ltb,
}
use teri_chat.Envelope.{
  Bytes, Primitives, IdentityKeypair, SealedEnvelope, Randomness, seal, seal_with, open_sealed,
  open_verified, identity_verify_key, agreement_pubkey, envelope_key, signed, to_bytes, from_bytes,
  max_plaintext_bytes,
}
use teri_chat.Envelope.Wire.{IsSized, length-to_bytes, from_bytes-to_bytes}

-- What the crates document: both sides of a key exchange agree, a key and a signature of their own
-- parse and verify, and what was encrypted decrypts.
pub record Agrees (p : Primitives) : Type 0 where
  pub exchange :
      (a b : Bytes) → p.diffie_hellman a (p.public_key b) ≡ p.diffie_hellman b (p.public_key a)
  pub own_key : (s : Bytes) → p.parses_as_key (p.verifying_key s) ≡ true
  pub own_signature : (s m : Bytes) → p.parses_as_signature (p.sign s m) ≡ true
  pub verified : (s m : Bytes) → p.verify_strict (p.verifying_key s) m (p.sign s m) ≡ true
  pub decrypted : (k n m c : Bytes) → p.encrypt k n m ≡ some c → p.decrypt k n c ≡ some m

-- The sizes that the crates document.
pub record Sizes (p : Primitives) : Type 0 where
  pub of_public_key : (s : Bytes) → length (p.public_key s) ≡ 32
  pub of_signature : (s m : Bytes) → length (p.sign s m) ≡ 64
  pub of_ciphertext : (k n m c : Bytes) → p.encrypt k n m ≡ some c → length c ≡ length m + 16

capped :
    (n a b c d m : ℕ)
    → n ≡ a + (b + (c + d))
    → a ≡ 32
    → b ≡ 24
    → c ≡ 64
    → d ≡ m + 16
    → ltb max_plaintext_bytes m ≡ false
    → n ≤ 1_048_576
capped n a b c d m h p q r s t = ground arith

module _ (p : Primitives) where
  -- What a sealed envelope is made of.
  record Sealed (random : Randomness) (sender : IdentityKeypair) (recipient plaintext : Bytes)
      (e : SealedEnvelope) : Type 0 where
    secret : Bytes
    key : Bytes
    drawn : random.nonce ≡ some e.nonce
    derived :
        envelope_key p
          (p.diffie_hellman secret recipient)
          e.ephemeral_pub
          (identity_verify_key p sender)
          recipient
        ≡ ok key
    public : e.ephemeral_pub ≡ p.public_key secret
    encrypted : p.encrypt key e.nonce plaintext ≡ some e.ciphertext
    by_sender :
        e.signature
        ≡ p.sign sender.signing
            (signed p (identity_verify_key p sender) recipient e.ephemeral_pub e.nonce e.ciphertext)
    fits : ltb max_plaintext_bytes (length plaintext) ≡ false

  seal-Sealed :
      (random : Randomness) (sender : IdentityKeypair) (recipient plaintext : Bytes)
      (e : SealedEnvelope)
      → seal p random sender recipient plaintext ≡ ok e
      → Sealed random sender recipient plaintext e
  unfolding seal seal_with
  seal-Sealed random sender recipient plaintext e h = elim (Option-cases (random.ephemeral_priv)) [
    | inl r ↦ absurd (ground arith)
    | inr (secret, r) ↦
        elim (Result-cases (
          envelope_key p (p.diffie_hellman secret recipient) (p.public_key secret)
            (identity_verify_key p sender) recipient)) [
              | inr (x, q) ↦ absurd (ground arith)
              | inl (key, q) ↦ record {
                secret = secret;
                key = key;
                drawn = ground arith;
                derived = ground arith;
                public = ground arith;
                encrypted = ground arith;
                by_sender = ground arith;
                fits = ground arith;
              }
            ]
  ]

  Sealed-opens :
      (random : Randomness) (sender recipient : IdentityKeypair) (plaintext : Bytes)
      (e : SealedEnvelope)
      → Agrees p
      → Sealed random sender (agreement_pubkey p recipient) plaintext e
      → open_sealed p recipient (identity_verify_key p sender) e ≡ ok plaintext
  unfolding open_sealed open_verified identity_verify_key agreement_pubkey
  Sealed-opens random sender recipient plaintext e a s =
      let text =
        signed p (p.verifying_key sender.signing) (p.public_key recipient.agreement) e.ephemeral_pub
          e.nonce e.ciphertext in
      ground (
        arith,
        a.own_key sender.signing,
        a.own_signature sender.signing text,
        a.verified sender.signing text,
        a.exchange recipient.agreement s.secret,
        a.decrypted s.key e.nonce plaintext e.ciphertext s.encrypted,
        s.derived,
        s.public,
        s.by_sender,
      )

  -- When the primitives agree with each other, an envelope that was sealed for a recipient opens
  -- for that recipient, against the sender's key, to what was sealed.
  pub seal-open :
      (random : Randomness) (sender recipient : IdentityKeypair) (plaintext : Bytes)
      (e : SealedEnvelope)
      → Agrees p
      → seal p random sender (agreement_pubkey p recipient) plaintext ≡ ok e
      → open_sealed p recipient (identity_verify_key p sender) e ≡ ok plaintext
  seal-open random sender recipient plaintext e a h =
      Sealed-opens random sender recipient plaintext e a
        (seal-Sealed random sender (agreement_pubkey p recipient) plaintext e h)

  Sealed-IsSized :
      (random : Randomness) (sender : IdentityKeypair) (recipient plaintext : Bytes)
      (e : SealedEnvelope)
      → Sizes p
      → ((n : Bytes) → random.nonce ≡ some n → length n ≡ 24)
      → Sealed random sender recipient plaintext e
      → IsSized e
  Sealed-IsSized random sender recipient plaintext e z n s = record {
    ephemeral_size = ap length s.public ∙ z.of_public_key s.secret;
    nonce_size = n e.nonce s.drawn;
    signature_size = ap length s.by_sender ∙ z.of_signature sender.signing _;
  }

  -- When the primitives have their documented sizes and the nonce has 24 bytes, a sealed envelope
  -- is at most the server's cap of 1 MiB long on the wire, and is parsed there as it was sealed.
  pub seal-wire :
      (random : Randomness) (sender : IdentityKeypair) (recipient plaintext : Bytes)
      (e : SealedEnvelope)
      → Sizes p
      → ((n : Bytes) → random.nonce ≡ some n → length n ≡ 24)
      → seal p random sender recipient plaintext ≡ ok e
      → (length (to_bytes e) ≤ 1_048_576) × (from_bytes (to_bytes e) ≡ ok e)
  seal-wire random sender recipient plaintext e z n h =
      let s = seal-Sealed random sender recipient plaintext e h in
      let sized = Sealed-IsSized random sender recipient plaintext e z n s in
      (
        capped (length (to_bytes e)) (length e.ephemeral_pub) (length e.nonce) (length e.signature)
            (length e.ciphertext) (length plaintext) (length-to_bytes e) sized.ephemeral_size
            sized.nonce_size sized.signature_size
            (z.of_ciphertext s.key e.nonce plaintext e.ciphertext s.encrypted) s.fits,
        from_bytes-to_bytes e sized,
      )
