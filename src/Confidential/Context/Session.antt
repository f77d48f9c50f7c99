-- ===== src/Confidential/Context/Session.antt =====
-- The encrypted session between a client and a contract (confidential_ctx.rs).
use oasis_ethwasi_runtime.Prelude.{◌^◌, ◌<◌, ◌≡◌, [], some, arith, ok, length}
use oasis_ethwasi_runtime.Prelude.Bytes.{Bytes}
use oasis_ethwasi_runtime.Confidential.Mrae.{Mrae, KeyPair, BoxLaws}
use oasis_ethwasi_runtime.Confidential.Crypto.{encrypt, decrypt}
use oasis_ethwasi_runtime.Confidential.Crypto.RoundTrip.{decrypt-encrypt}
use oasis_ethwasi_runtime.Confidential.Context.{ConfidentialCtx, encrypt_session, decrypt_session}

module _ (m : Mrae) (Matches : Bytes → Bytes → Type 0) (laws : BoxLaws m Matches) (pair : KeyPair)
    (peer_pk peer_sk : Bytes) (own : Matches pair.public_key pair.private_key)
    (theirs : Matches peer_pk peer_sk) (own_fits : length pair.public_key ≡ m.public_key_len)
    (peer_fits : length peer_pk ≡ m.public_key_len) where
  -- Where the box opens what was sealed with matching keys, and keys and nonce have their fixed
  -- sizes: a request of less than 2 ^ 64 bytes that a client sealed for the contract, under a
  -- nonce that can be incremented, is opened. The contract learns the text and the additional
  -- data, and the context the client's key and the nonce after the request's.
  pub decrypt_session-encrypt :
      (c : ConfidentialCtx) (address text nonce nonce' aad request : Bytes)
      → c.contract ≡ some (address, pair)
      → length nonce ≡ m.nonce_size
      → length request < 2 ^ 64
      → encrypt m text nonce pair.public_key peer_pk peer_sk aad ≡ ok request
      → m.increment nonce ≡ ok nonce'
      → decrypt_session m c request ≡ (
        record c { peer_public_key = some peer_pk; next_nonce = some nonce' },
        ok (record { decrypted_data = text; additional_data = aad }),
      )
  unfolding decrypt_session
  decrypt_session-encrypt c address text nonce nonce' aad request held size fits sealed next =
      let opened =
        decrypt-encrypt m Matches laws text nonce peer_pk peer_sk pair.public_key pair.private_key
          aad request theirs own peer_fits size fits sealed in
      ground (arith, opened)

  -- Where the box opens what was sealed with matching keys, and keys and nonce have their fixed
  -- sizes: a reply of less than 2 ^ 64 bytes that the contract sealed for its peer, under a nonce
  -- that can be incremented, is opened by that client, under the nonce that the context held, and
  -- the context moves on to the next one.
  pub decrypt-encrypt_session :
      (c : ConfidentialCtx) (address text nonce nonce' reply : Bytes)
      → c.contract ≡ some (address, pair)
      → c.peer_public_key ≡ some peer_pk
      → c.next_nonce ≡ some nonce
      → length nonce ≡ m.nonce_size
      → length reply < 2 ^ 64
      → m.increment nonce ≡ ok nonce'
      → (encrypt_session m c text).1 ≡ ok reply
      → (decrypt m (some reply) peer_sk
          ≡ ok (record {
            plaintext = text;
            nonce = nonce;
            peer_public_key = pair.public_key;
            aad = [];
          }))
        × ((encrypt_session m c text).0 ≡ record c { next_nonce = some nonce' })
  unfolding encrypt_session
  decrypt-encrypt_session c address text nonce nonce' reply held to at size fits next done =
      let sealed : encrypt m text nonce peer_pk pair.public_key pair.private_key [] ≡ ok reply =
        ground arith in
      (
        decrypt-encrypt m Matches laws text nonce pair.public_key pair.private_key peer_pk peer_sk
            [] reply own theirs own_fits size fits sealed,
        ground arith,
      )
