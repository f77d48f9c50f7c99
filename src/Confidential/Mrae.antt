-- ===== src/Confidential/Mrae.antt =====
-- What common/src/confidential takes from oasis_core_runtime and oasis_core_keymanager_client:
-- the Deoxys-II box and cipher, the hashes, the nonces and the keys. Keys, nonces and addresses are
-- byte strings; an instance of Deoxys-II is given by its key.
use oasis_ethwasi_runtime.Prelude.{ℕ, suc, length, ◌≡◌, Option, some, String, ok, Outcome}
use oasis_ethwasi_runtime.Prelude.Bytes.{Bytes}

pub record KeyPair : Type 0 where
  pub public_key : Bytes
  pub private_key : Bytes
  pub state_key : Bytes

pub record Mrae : Type 0 where
  -- `PublicKey::len()`, `NONCE_SIZE`, `NONCE_TAG_SIZE`, `TAG_SIZE` and `KEY_SIZE`.
  pub public_key_len : ℕ
  pub nonce_size : ℕ
  pub nonce_tag_size : ℕ
  pub tag_size : ℕ
  pub key_size : ℕ
  -- `deoxysii::box_seal` and `box_open`: nonce, text, additional data, peer's public key, own
  -- private key.
  pub box_seal : Bytes → Bytes → Bytes → Bytes → Bytes → Outcome String Bytes
  pub box_open : Bytes → Bytes → Bytes → Bytes → Bytes → Option Bytes
  -- `DeoxysII::seal` and `open`: key, nonce, text, additional data.
  pub seal : Bytes → Bytes → Bytes → Bytes → Bytes
  pub unseal : Bytes → Bytes → Bytes → Bytes → Option Bytes
  -- `Hash::digest_bytes` and `keccak`.
  pub digest : Bytes → Bytes
  pub keccak : Bytes → Bytes
  -- `Nonce::increment`, which fails when the counter is used up.
  pub increment : Bytes → Outcome String Bytes

-- The sender's box opens for the owner of the matching key.
pub record BoxLaws (m : Mrae) (Matches : Bytes → Bytes → Type 0) : Type 0 where
  pub open-seal :
      (nonce text aad sender_pk sender_sk peer_pk peer_sk sealed : Bytes)
      → Matches sender_pk sender_sk
      → Matches peer_pk peer_sk
      → m.box_seal nonce text aad peer_pk sender_sk ≡ ok sealed
      → m.box_open nonce sealed aad sender_pk peer_sk ≡ some text

-- A sealed text opens under the same key, nonce and additional data.
pub record SealLaws (m : Mrae) : Type 0 where
  pub unseal-seal :
      (key nonce text aad : Bytes) → m.unseal key nonce (m.seal key nonce text aad) aad ≡ some text

-- A nonce of fixed size carries a counter, which an increment moves by one.
pub record NonceLaws (m : Mrae) (value : Bytes → ℕ) : Type 0 where
  pub counts : (n n' : Bytes) → m.increment n ≡ ok n' → value n' ≡ suc (value n)
  pub keeps_len : (n n' : Bytes) → m.increment n ≡ ok n' → length n' ≡ length n
