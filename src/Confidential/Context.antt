-- ===== src/Confidential/Context.antt =====
-- common/src/confidential/confidential_ctx.rs: the keys and nonces of one block's confidential
-- execution. A method returns the new context and its result; where it fails, the context is what
-- the statements before the failure left.
pub mod Invariant
pub mod Storage
pub mod Nonces
pub mod Session
mod Tests
mod UnitTests
use Prim.Native.String.{◌++◌ as concat}
use mathlib.Core.Option
use oasis_ethwasi_runtime.Prelude.{
  ℕ, ◌+◌, ◌-◌, ◌≡◌, List, [], ◌∷◌, ◌++◌, Option, none, some, String, Bool, true, false, ◌&&◌,
  Outcome, ok, err, panic, ◌>>=◌, ◌>>◌, ensure, ok_or, map_err, unwrap, leb, if◌then◌else◌, length,
  replicate, take, drop, is_some,
}
use oasis_ethwasi_runtime.Prelude.Bytes.{Bytes}
use oasis_ethwasi_runtime.Confidential.Mrae.{Mrae, KeyPair}
use oasis_ethwasi_runtime.Confidential.Crypto.{Decryption, encrypt, decrypt}

pub record ConfidentialCtx : Type 0 where
  pub peer_public_key : Option Bytes
  pub contract : Option (Bytes × KeyPair)
  pub next_nonce : Option Bytes
  pub activated : Bool
  pub prev_block_hash : Bytes
  pub d2 : Option Bytes
  pub next_storage_nonce : Option Bytes

pub record AuthenticatedPayload : Type 0 where
  pub decrypted_data : Bytes
  pub additional_data : Bytes

-- `Error::Confidential`: a text, or the text that `decrypt_session` formats from the payload's length
-- and the error of the decryption.
pub data Error : Type 0 where
  confidential : String → Error
  session_payload : ℕ → String → Error

-- The context after a call, and what the call returned.
abbrev pub Step : Type 0 → Type 0
Step A = ConfidentialCtx × Outcome Error A

unfoldable pub new : Bytes → ConfidentialCtx
new prev_block_hash = record {
  peer_public_key = none;
  contract = none;
  next_nonce = none;
  activated = false;
  prev_block_hash = prev_block_hash;
  d2 = none;
  next_storage_nonce = none;
}

pub is_encrypting : ConfidentialCtx → Bool
is_encrypting c = c.activated && is_some c.contract

pub deactivate : ConfidentialCtx → ConfidentialCtx
deactivate c = record c {
  peer_public_key = none;
  contract = none;
  next_nonce = none;
  activated = false;
  d2 = none;
  next_storage_nonce = none;
}

pub peer : ConfidentialCtx → Option Bytes
peer c = c.peer_public_key

-- The three complaints of `encrypt_session`, in the order in which they are pushed.
abbrev pub complaint {ℓ} : {A : Type ℓ} → Option A → String → String
complaint none text = text
complaint (some a) text = ""

abbrev pub session_complaints : ConfidentialCtx → String
session_complaints c = concat (complaint c.peer_public_key "; no peer public key specified") (
    concat
      (complaint c.contract "; no contract specified from which to extract contract public key")
      (complaint c.next_nonce "; no next nonce specified"))

module _ (m : Mrae) where
  open m use {nonce_size, nonce_tag_size, tag_size, key_size, seal, unseal, digest, increment}

  abbrev pub storage_key : KeyPair → Bytes
  storage_key pair = take key_size pair.state_key

  -- H(prev_block_hash || address)[:11] || 0x00000000
  abbrev pub first_storage_nonce : Bytes → Bytes → Bytes
  first_storage_nonce prev_block_hash address =
      take nonce_tag_size (digest (prev_block_hash ++ address))
      ++ replicate (nonce_size - nonce_tag_size) 0

  pub decrypt_data : ConfidentialCtx → Bytes → Outcome Error Bytes
  decrypt_data c encrypted_tx_data = do
    (address, pair) ← ok_or c.contract (
        confidential
          "The confidential context must have a contract key when opening encrypted transaction data")
    decryption ← map_err confidential (decrypt m (some encrypted_tx_data) pair.private_key)
    ok decryption.plaintext

  pub swap_contract : ConfidentialCtx → Option (Bytes × KeyPair) → ConfidentialCtx × Option Bytes
  swap_contract c contract = (
    record c {
      contract = contract;
      d2 = Option.map (λ k. storage_key (k.1)) contract;
      next_storage_nonce = Option.map (λ k. first_storage_nonce c.prev_block_hash (k.0)) contract;
    },
    Option.map (λ k. k.0) c.contract,
  )

  -- `get_or_create_keys` is the key manager's; `none` is its failure.
  pub activate : (Bytes → Option KeyPair) → ConfidentialCtx → Option Bytes → Step (Option Bytes)
  unfolding swap_contract
  activate get_or_create_keys c none =
      let (c', old) = swap_contract (record c { activated = true }) none in (c', ok old)
  activate get_or_create_keys c (some address) =
      let started = record c { activated = true } in
      elim (get_or_create_keys (m.keccak address)) [
        | none ↦ (started, err (confidential "failed to get or create keys"))
        | some pair ↦ let (c', old) = swap_contract started (some (address, pair)) in (c', ok old)
      ]

  -- The nonce moves on only when a message has been sealed.
  advance_nonce : ConfidentialCtx → Bytes → Bytes → Step Bytes
  advance_nonce c nonce sealed = elim (increment nonce) [
    | ok nonce' ↦ (record c { next_nonce = some nonce' }, ok sealed)
    | err e ↦ (c, err (confidential e))
    | panic ↦ (c, panic)
  ]

  seal_session : ConfidentialCtx → Bytes → KeyPair → Bytes → Bytes → Step Bytes
  unfolding advance_nonce
  seal_session c peer_key pair nonce text =
      elim (encrypt m text nonce peer_key pair.public_key pair.private_key []) [
        | ok sealed ↦ advance_nonce c nonce sealed
        | err e ↦ (c, err (confidential e))
        | panic ↦ (c, panic)
      ]

  session_parts :
      ConfidentialCtx → Option Bytes → Option (Bytes × KeyPair) → Option Bytes → Bytes → Step Bytes
  unfolding seal_session
  session_parts c (some peer_key) (some (address, pair)) (some nonce) text =
      seal_session c peer_key pair nonce text
  session_parts c _ _ _ text =
      (c, err (confidential (concat "Cannot encrypt session" (concat (session_complaints c) "."))))

  pub encrypt_session : ConfidentialCtx → Bytes → Step Bytes
  unfolding session_parts
  encrypt_session c text = session_parts c c.peer_public_key c.contract c.next_nonce text

  -- The peer is set before the nonce is moved on.
  accept_session : ConfidentialCtx → Decryption → Step AuthenticatedPayload
  accept_session c d =
      let c' = record c { peer_public_key = some d.peer_public_key } in
      elim (increment d.nonce) [
        | ok nonce ↦ (
          record c' { next_nonce = some nonce },
          ok (record { decrypted_data = d.plaintext; additional_data = d.aad }),
        )
        | err e ↦ (c', err (confidential e))
        | panic ↦ (c', panic)
      ]

  open_session : ConfidentialCtx → Option (Bytes × KeyPair) → Bytes → Step AuthenticatedPayload
  unfolding accept_session
  open_session c none encrypted_payload = (c, panic)
  open_session c (some (address, pair)) encrypted_payload =
      elim (decrypt m (some encrypted_payload) pair.private_key) [
        | ok d ↦ accept_session c d
        | err e ↦ (c, err (session_payload (length encrypted_payload) e))
        | panic ↦ (c, panic)
      ]

  pub decrypt_session : ConfidentialCtx → Bytes → Step AuthenticatedPayload
  unfolding open_session
  decrypt_session c encrypted_payload = open_session c c.contract encrypted_payload

  pub encrypt_storage_key : ConfidentialCtx → Bytes → Outcome Error Bytes
  encrypt_storage_key c text = do key ← unwrap c.d2; ok (seal key (replicate nonce_size 0) text [])

  -- ciphertext || tag || nonce
  seal_storage : ConfidentialCtx → Option Bytes → Option Bytes → Bytes → Bytes → Step Bytes
  seal_storage c (some nonce) (some key) storage_key text = elim (increment nonce) [
    | ok nonce' ↦ (
      record c { next_storage_nonce = some nonce' },
      ok (seal key nonce text storage_key ++ nonce),
    )
    | err e ↦ (c, err (confidential e))
    | panic ↦ (c, panic)
  ]
  seal_storage c _ _ storage_key text = (c, panic)

  pub encrypt_storage_value : ConfidentialCtx → Bytes → Bytes → Step Bytes
  unfolding seal_storage
  encrypt_storage_value c storage_key text =
      seal_storage c c.next_storage_nonce c.d2 storage_key text

  pub decrypt_storage_value : ConfidentialCtx → Bytes → Bytes → Outcome Error Bytes
  decrypt_storage_value c storage_key bytes = do
    ensure (leb (tag_size + nonce_size) (length bytes)) (confidential "truncated ciphertext")
    let nonce_offset = length bytes - nonce_size
    key ← unwrap c.d2
    ok_or (unseal key (drop nonce_offset bytes) (take nonce_offset bytes) storage_key)
        (confidential "invalid storage (decryption) key")
