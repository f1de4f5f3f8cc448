-- ===== src/Envelope.antt =====
-- The envelopes of crates/tericrypt/src/lib.rs, over the primitives that the crate calls.
--
-- A byte is a number and an array a list. Zeroizing is not modelled. The key of an envelope has
-- always the size of a cipher key, so the cipher is made without a failure of its own.
pub mod Wire
pub mod Delivery
mod Tests
use teri_chat.Prelude.{
  ℕ, ◌-◌, ◌+◌, ◌<◌, Bool, true, false, not, Option, none, some, List, [], ◌∷◌, ◌++◌, length, take,
  drop, ltb, Result, ok, err, ◌==◌, if◌then◌else◌,
}
use teri_chat.Table.{exists}

abbrev pub Bytes : Type 0
Bytes = List ℕ

abbrev pub header_len : ℕ
header_len = 120

abbrev pub tag_len : ℕ
tag_len = 16

-- The cap of 1 MiB, less the header and the tag.
abbrev pub max_plaintext_bytes : ℕ
max_plaintext_bytes = 1_048_576 - header_len - tag_len

pub data TeriCryptError : Type 0 where
  randomness too_large invalid_envelope invalid_public_key : TeriCryptError
  invalid_agreement_key invalid_signature decrypt_failed internal : TeriCryptError

-- The calls of ed25519_dalek, x25519_dalek, hkdf and chacha20poly1305.
pub record Primitives : Type 0 where
  pub verifying_key : Bytes → Bytes
  pub parses_as_key : Bytes → Bool
  pub sign : Bytes → Bytes → Bytes
  pub parses_as_signature : Bytes → Bool
  pub verify_strict : Bytes → Bytes → Bytes → Bool
  pub public_key : Bytes → Bytes
  pub diffie_hellman : Bytes → Bytes → Bytes
  pub expand : Bytes → Bytes → Bytes → Option Bytes
  pub encrypt : Bytes → Bytes → Bytes → Option Bytes
  pub decrypt : Bytes → Bytes → Bytes → Option Bytes
  -- `terichat-dm-v2`.
  pub hkdf_info : Bytes

pub record IdentityKeypair : Type 0 where
  pub signing : Bytes
  pub agreement : Bytes

pub record SealedEnvelope : Type 0 where
  pub ephemeral_pub : Bytes
  pub nonce : Bytes
  pub signature : Bytes
  pub ciphertext : Bytes

-- What the system's randomness gives: the ephemeral secret and the nonce, if it is available.
pub record Randomness : Type 0 where
  pub ephemeral_priv : Option Bytes
  pub nonce : Option Bytes

unfoldable pub to_bytes : SealedEnvelope → Bytes
to_bytes e = e.ephemeral_pub ++ (e.nonce ++ (e.signature ++ e.ciphertext))

unfoldable pub from_bytes : Bytes → Result TeriCryptError SealedEnvelope
from_bytes raw =
    if ltb (length raw) header_len
    then err invalid_envelope
    else ok (record {
      ephemeral_pub = take 32 raw;
      nonce = take 24 (drop 32 raw);
      signature = take 64 (drop 56 raw);
      ciphertext = drop 120 raw;
    })

unfoldable pub valid_agreement_key : Bytes → Bool
valid_agreement_key raw = exists (λ b. not (b == 0)) raw

module _ (p : Primitives) where
  unfoldable pub valid_verify_key : Bytes → Bool
  valid_verify_key raw = if exists (λ b. not (b == 0)) raw then p.parses_as_key raw else false

  unfoldable pub identity_verify_key : IdentityKeypair → Bytes
  identity_verify_key k = p.verifying_key k.signing

  unfoldable pub agreement_pubkey : IdentityKeypair → Bytes
  agreement_pubkey k = p.public_key k.agreement

  unfoldable pub envelope_key : Bytes → Bytes → Bytes → Bytes → Result TeriCryptError Bytes
  envelope_key shared ephemeral_pub sender_verify recipient_agreement =
      elim (p.expand ephemeral_pub shared (p.hkdf_info ++ (sender_verify ++ recipient_agreement))) [
        | none ↦ err internal
        | some okm ↦ ok okm
      ]

  -- The bytes that the sender signs.
  abbrev pub signed : Bytes → Bytes → Bytes → Bytes → Bytes → Bytes
  signed sender_verify recipient_agreement ephemeral_pub nonce ciphertext =
      sender_verify ++ (recipient_agreement ++ (ephemeral_pub ++ (nonce ++ ciphertext)))

  -- `seal` after its checks and with its ephemeral secret.
  unfoldable pub seal_with :
      IdentityKeypair → Bytes → Bytes → Bytes → Option Bytes → Result TeriCryptError SealedEnvelope
  unfolding identity_verify_key envelope_key
  seal_with sender recipient plaintext secret drawn =
      let ephemeral_pub = p.public_key secret in
      let sender_verify = identity_verify_key sender in
      elim (envelope_key (p.diffie_hellman secret recipient) ephemeral_pub sender_verify
        recipient) [
          | err e ↦ err e
          | ok key ↦ elim drawn [
            | none ↦ err randomness
            | some nonce ↦ elim (p.encrypt key nonce plaintext) [
              | none ↦ err internal
              | some ciphertext ↦ ok (record {
                ephemeral_pub = ephemeral_pub;
                nonce = nonce;
                signature =
                    p.sign sender.signing
                      (signed sender_verify recipient ephemeral_pub nonce ciphertext);
                ciphertext = ciphertext;
              })
            ]
          ]
        ]

  unfoldable pub seal :
      Randomness → IdentityKeypair → Bytes → Bytes → Result TeriCryptError SealedEnvelope
  unfolding seal_with valid_agreement_key
  seal random sender recipient plaintext =
      if ltb max_plaintext_bytes (length plaintext)
      then err too_large
      else if not (valid_agreement_key recipient)
      then err invalid_agreement_key
      else elim random.ephemeral_priv [
        | none ↦ err randomness
        | some secret ↦ seal_with sender recipient plaintext secret random.nonce
      ]

  -- `open` once the signature was verified.
  unfoldable pub open_verified :
      IdentityKeypair → Bytes → SealedEnvelope → Result TeriCryptError Bytes
  unfolding agreement_pubkey envelope_key
  open_verified recipient sender_verify e =
      elim (envelope_key (p.diffie_hellman recipient.agreement e.ephemeral_pub) e.ephemeral_pub
        sender_verify (agreement_pubkey recipient)) [
          | err x ↦ err x
          | ok key ↦ elim (p.decrypt key e.nonce e.ciphertext) [
            | none ↦ err decrypt_failed
            | some plaintext ↦ ok plaintext
          ]
        ]

  unfoldable pub open_sealed :
      IdentityKeypair → Bytes → SealedEnvelope → Result TeriCryptError Bytes
  unfolding agreement_pubkey open_verified
  open_sealed recipient sender_verify e =
      if not (p.parses_as_key sender_verify)
      then err invalid_public_key
      else if not (p.parses_as_signature e.signature)
      then err invalid_signature
      else if not (
          p.verify_strict sender_verify
            (signed sender_verify (agreement_pubkey recipient) e.ephemeral_pub e.nonce e.ciphertext)
            e.signature)
      then err invalid_signature
      else open_verified recipient sender_verify e
