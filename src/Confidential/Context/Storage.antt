-- ===== src/Confidential/Context/Storage.antt =====
-- Contract storage encryption (confidential_ctx.rs): no panic where a contract is active, values
-- read back, and the nonces that one activation uses.
use oasis_ethwasi_runtime.Prelude.{
  ◌+◌, ◌-◌, ◌≤◌, ◌≡◌, ◌≢◌, refl, ◌∙◌, ◌++◌, some, true, arith, ok, panic, length, length-append,
  take, drop, take-append, drop-append, le→leb, inl, inr, Option-cases,
}
use oasis_ethwasi_runtime.Prelude.Bytes.{Bytes}
use oasis_ethwasi_runtime.Confidential.Mrae.{Mrae, SealLaws}
use oasis_ethwasi_runtime.Confidential.Context.{
  ConfidentialCtx, is_encrypting, storage_key, encrypt_storage_key, encrypt_storage_value,
  decrypt_storage_value,
}
use oasis_ethwasi_runtime.Confidential.Context.Invariant.{IsConsistent}

module _ (m : Mrae) where
  encrypting_parts :
      (c : ConfidentialCtx)
      → IsConsistent m c
      → is_encrypting c ≡ true
      → (k : Bytes) × (n : Bytes) × (c.d2 ≡ some k) × (c.next_storage_nonce ≡ some n)
  unfolding is_encrypting
  encrypting_parts c v on = elim (Option-cases c.contract) [
    | inl e ↦ absurd (ground arith)
    | inr (p, e) ↦ elim (Option-cases c.next_storage_nonce) [
      | inl f ↦ absurd (ground arith)
      | inr (n, f) ↦ (storage_key m (p.1), n, v.keyed ∙ rw e, f)
    ]
  ]

  -- In a consistent context that is encrypting, none of the three storage operations panics, if
  -- the increment of a nonce does not.
  pub storage-total :
      (c : ConfidentialCtx) (key text : Bytes)
      → IsConsistent m c
      → is_encrypting c ≡ true
      → ((n : Bytes) → m.increment n ≢ panic)
      → (encrypt_storage_key m c text ≢ panic)
        × ((encrypt_storage_value m c key text).1 ≢ panic)
        × (decrypt_storage_value m c key text ≢ panic)
  unfolding is_encrypting encrypt_storage_key encrypt_storage_value decrypt_storage_value
  storage-total c key text v on safe =
      let (k, n, e, f) = encrypting_parts c v on in
      (λ p. ground arith, λ p. ground (arith, safe n), λ p. ground arith)

  pub sealed_value :
      (c : ConfidentialCtx) (key text out k n : Bytes)
      → c.d2 ≡ some k
      → c.next_storage_nonce ≡ some n
      → (encrypt_storage_value m c key text).1 ≡ ok out
      → out ≡ m.seal k n text key ++ n
  unfolding encrypt_storage_value
  sealed_value c key text out k n e f done = ground arith

  -- Where the cipher opens what it sealed, and a sealed value is at least as long as a tag: a
  -- value sealed under a storage key and a nonce of the fixed size is read back under that key by
  -- any context with the same cipher, whatever its nonces are by then.
  pub decrypt-encrypt_storage :
      (laws : SealLaws m) (c later : ConfidentialCtx) (key text out k n : Bytes)
      → c.d2 ≡ some k
      → later.d2 ≡ some k
      → c.next_storage_nonce ≡ some n
      → length n ≡ m.nonce_size
      → m.tag_size ≤ length (m.seal k n text key)
      → (encrypt_storage_value m c key text).1 ≡ ok out
      → decrypt_storage_value m later key out ≡ ok text
  unfolding decrypt_storage_value
  decrypt-encrypt_storage laws c later key text out k n e e' f size tag done =
      let s = m.seal k n text key in
      let shape = sealed_value c key text out k n e f done in
      let total : length out ≡ length s + length n = rw shape (length-append s n) in
      let offset : length s ≡ length out - m.nonce_size = omega arith in
      let front : take (length out - m.nonce_size) out ≡ s =
        rw (← offset, shape) (take-append (length s) s n refl) in
      let back : drop (length out - m.nonce_size) out ≡ n =
        rw (← offset, shape) (drop-append (length s) s n refl) in
      rw (
        le→leb (m.tag_size + m.nonce_size) (length out) (omega arith),
        e',
        front,
        back,
        laws.unseal-seal k n text key,
      )
