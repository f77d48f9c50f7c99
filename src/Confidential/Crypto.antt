-- ===== src/Confidential/Crypto.antt =====
-- common/src/confidential/crypto.rs: the wire format of a sealed payload,
-- PUBLIC_KEY || CIPHER_LEN || AAD_LEN || CIPHER || AAD || NONCE.
pub mod Header
pub mod Inversion
pub mod RoundTrip
pub mod Overflow
mod Tests
use oasis_ethwasi_runtime.Prelude.{
  ℕ, ◌+◌, ◌%◌, ◌^◌, ◌≡◌, List, [], ◌∷◌, ◌++◌, Option, none, some, String, not, Outcome, ok, err,
  panic, ◌>>=◌, ◌>>◌, ensure, ok_or, leb, ◌==◌, length, replicate,
}
use oasis_ethwasi_runtime.Prelude.Bytes.{Bytes, slice, to_le_bytes, from_le_bytes}
use oasis_ethwasi_runtime.Confidential.Mrae.{Mrae}

abbrev pub cipher_len_size : ℕ
cipher_len_size = 8

abbrev pub aad_len_size : ℕ
aad_len_size = 8

-- A sum of `usize` values on a 64-bit target, in a release build: it wraps.
abbrev pub usize_add : ℕ → ℕ → ℕ
usize_add a b = (a + b) % 2 ^ 64

pub record Decryption : Type 0 where
  pub plaintext : Bytes
  pub nonce : Bytes
  pub peer_public_key : Bytes
  pub aad : Bytes

pub record Payload : Type 0 where
  pub peer_public_key : Bytes
  pub cipher_len : ℕ
  pub aad_len : ℕ
  pub cipher : Bytes
  pub aad : Bytes
  pub nonce : Bytes

unfoldable pub encode_encryption : Bytes → Bytes → Bytes → Bytes → Bytes
encode_encryption ciphertext nonce public_key aad =
    public_key
    ++ (to_le_bytes 8 (length ciphertext)
        ++ (to_le_bytes 8 (length aad) ++ (ciphertext ++ (aad ++ nonce))))

module _ (m : Mrae) where
  open m use {public_key_len, nonce_size, box_seal, box_open}

  -- `PublicKey::len() + NONCE_SIZE + CIPHER_LEN_SIZE + AAD_LEN_SIZE`, a sum of constants.
  abbrev pub min_len : ℕ
  min_len = public_key_len + nonce_size + cipher_len_size + aad_len_size

  abbrev pub expected_data_length : ℕ → ℕ → ℕ
  expected_data_length cipher_len aad_len =
      usize_add
        (usize_add (usize_add (public_key_len + cipher_len_size + aad_len_size) cipher_len) aad_len)
        nonce_size

  -- The two lengths of the header, where the data is long enough to hold one.
  unfoldable pub split_lengths : Bytes → Outcome String (Bytes × ℕ × ℕ)
  split_lengths bytes = do
    ensure (leb min_len (length bytes)) "invalid nonce or public key"
    public_key ← slice 0 public_key_len bytes
    cipher_array ← slice public_key_len (public_key_len + cipher_len_size) bytes
    aad_array ←
        slice (public_key_len + cipher_len_size) (public_key_len + cipher_len_size + aad_len_size)
          bytes
    ok (public_key, from_le_bytes cipher_array, from_le_bytes aad_array)

  -- The three slices behind the header.
  pub split_body : Bytes → Bytes × ℕ × ℕ → Outcome String Payload
  split_body bytes (public_key, cipher_len, aad_len) = do
    ensure (length bytes == expected_data_length cipher_len aad_len) "invalid size for ciphertext"
    let cipher_start = public_key_len + cipher_len_size + aad_len_size
    let cipher_end = usize_add cipher_start cipher_len
    cipher ← slice cipher_start cipher_end bytes
    let aad_end = usize_add cipher_end aad_len
    aad ← slice cipher_end aad_end bytes
    nonce ← slice aad_end (usize_add aad_end nonce_size) bytes
    ok (record {
      peer_public_key = public_key;
      cipher_len = cipher_len;
      aad_len = aad_len;
      cipher = cipher;
      aad = aad;
      nonce = nonce;
    })

  unfoldable pub split_encrypted_payload : Bytes → Outcome String Payload
  unfolding split_lengths split_body
  split_encrypted_payload bytes = split_lengths bytes >>= split_body bytes

  -- plaintext, nonce, peer_public_key, public_key, secret_key, aad.
  unfoldable pub encrypt : Bytes → Bytes → Bytes → Bytes → Bytes → Bytes → Outcome String Bytes
  encrypt plaintext nonce peer_public_key public_key secret_key aad = do
    ciphertext ← box_seal nonce plaintext aad peer_public_key secret_key
    ok (encode_encryption ciphertext nonce public_key aad)

  decrypt_some : Bytes → Bytes → Outcome String Decryption
  decrypt_some bytes secret_key = do
    p ← split_encrypted_payload bytes
    plaintext ←
        ok_or (box_open p.nonce p.cipher p.aad p.peer_public_key secret_key) "payload open failed"
    ok (record {
      plaintext = plaintext;
      nonce = p.nonce;
      peer_public_key = p.peer_public_key;
      aad = p.aad;
    })

  -- No data decrypts to the default values: empty texts, and a zero nonce and public key.
  unfoldable pub decrypt : Option Bytes → Bytes → Outcome String Decryption
  unfolding decrypt_some
  decrypt none secret_key = ok (record {
    plaintext = [];
    nonce = replicate nonce_size 0;
    peer_public_key = replicate public_key_len 0;
    aad = [];
  })
  decrypt (some bytes) secret_key = decrypt_some bytes secret_key
