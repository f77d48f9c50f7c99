-- ===== src/Confidential/Context/Nonces.antt =====
-- The nonces under which contract storage is sealed (confidential_ctx.rs).
use oasis_ethwasi_runtime.Prelude.{
  ℕ, suc, ◌+◌, ◌-◌, ◌≡◌, refl, sym, ap, subst, ◌∙◌, List, [], ◌∷◌, ◌++◌, Option, some, arith,
  Outcome, ok, err, panic, length, length-append, drop, drop-append, Outcome-cases, inl, inr,
  get_elem?, get_elem?-cons,
}
use oasis_ethwasi_runtime.Prelude.Bytes.{Bytes}
use oasis_ethwasi_runtime.Confidential.Mrae.{Mrae, KeyPair, NonceLaws}
use oasis_ethwasi_runtime.Confidential.Context.{
  ConfidentialCtx, Error, first_storage_nonce, storage_key, activate, encrypt_storage_value,
}
use oasis_ethwasi_runtime.Confidential.Context.Storage.{sealed_value}

module _ (m : Mrae) where
  abbrev pub nonce_of : Bytes → Bytes
  nonce_of out = drop (length out - m.nonce_size) out

  abbrev after_write : Outcome Error Bytes → List Bytes → List Bytes
  after_write (ok out) next = out ∷ next
  after_write (err e) next = []
  after_write panic next = []

  -- What a run of writes, of keys and texts, returns, up to the first that fails.
  unfoldable pub stored_values : ConfidentialCtx → List (Bytes × Bytes) → List Bytes
  stored_values c [] = []
  stored_values c ((key, text) ∷ writes) =
      let (c', r) = encrypt_storage_value m c key text in after_write r (stored_values c' writes)

  nonce_back :
      (c : ConfidentialCtx) (key text out k n : Bytes)
      → c.d2 ≡ some k
      → c.next_storage_nonce ≡ some n
      → length n ≡ m.nonce_size
      → (encrypt_storage_value m c key text).1 ≡ ok out
      → nonce_of out ≡ n
  nonce_back c key text out k n e f size done =
      let s = m.seal k n text key in
      let shape = sealed_value m c key text out k n e f done in
      let offset : length s ≡ length (s ++ n) - m.nonce_size = omega (arith, length-append s n) in
      rw (shape, ← offset) (drop-append (length s) s n refl)

  write_moves :
      (value : Bytes → ℕ) (laws : NonceLaws m value) (c : ConfidentialCtx)
      (key text out k n : Bytes)
      → c.d2 ≡ some k
      → c.next_storage_nonce ≡ some n
      → (encrypt_storage_value m c key text).1 ≡ ok out
      → let c' = (encrypt_storage_value m c key text).0 in
        (n' : Bytes) × (c'.d2 ≡ some k)
        × (c'.next_storage_nonce ≡ some n')
        × (value n' ≡ suc (value n))
        × (length n' ≡ length n)
  unfolding encrypt_storage_value
  write_moves value laws c key text out k n e f done = elim (Outcome-cases (m.increment n)) [
    | inl (n', i) ↦ (n', ground arith, ground arith, laws.counts n n' i, laws.keeps_len n n' i)
    | inr (inl (x, i)) ↦ absurd (ground arith)
    | inr (inr i) ↦ absurd (ground arith)
  ]

  module _ (value : Bytes → ℕ) (laws : NonceLaws m value) where
    -- The text sealed with the key `k` under the nonce, which stands behind it, for the write's own key.
    abbrev pub IsSealed : Bytes → Bytes × Bytes → Bytes → Bytes → Type 0
    IsSealed k write out nonce =
        (out ≡ m.seal k nonce (write.1) (write.0) ++ nonce) × (length nonce ≡ m.nonce_size)

    -- The write number `i` is sealed under a nonce with the counter that the context stood at, plus `i`.
    pub stored_values-IsSealed :
        (writes : List (Bytes × Bytes)) (c : ConfidentialCtx) (i : ℕ) (k n out : Bytes)
        (write : Bytes × Bytes)
        → c.d2 ≡ some k
        → c.next_storage_nonce ≡ some n
        → length n ≡ m.nonce_size
        → get_elem? writes i ≡ some write
        → get_elem? (stored_values c writes) i ≡ some out
        → (nonce : Bytes) × IsSealed k write out nonce × (value nonce ≡ value n + i)
    unfolding stored_values
    stored_values-IsSealed [] c i k n out write e f size given at = cc
    stored_values-IsSealed ((key, text) ∷ writes) c i k n out write e f size given at =
        let c' = (encrypt_storage_value m c key text).0 in
        elim (Outcome-cases (encrypt_storage_value m c key text).1) [
          | inl (first, done) ↦
              let at' : get_elem? (first ∷ stored_values c' writes) i ≡ some out =
                rw (done, after_write) at at in
              let shape = sealed_value m c key text first k n e f done in
              elim (get_elem?-cons i _ _ _ given) [
                | inl (z, this) ↦ elim (get_elem?-cons i _ out _ at') [
                  | inl (z', here) ↦ (
                    n,
                    (
                      sym here
                          ∙ shape
                          ∙ ap (λ (w : Bytes × Bytes). m.seal k n (w.1) (w.0) ++ n) this,
                      size,
                    ),
                    omega arith,
                  )
                  | inr (j, s, there) ↦ absurd (omega (arith, z, s))
                ]
                | inr (i', s, later) ↦ elim (get_elem?-cons i _ out _ at') [
                  | inl (z', here) ↦ absurd (omega (arith, z', s))
                  | inr (j, s', there) ↦
                      let same : j ≡ i' = omega (arith, s, s') in
                      let (n', e', f', moved, len) =
                        write_moves value laws c key text first k n e f done in
                      let (nonce, sealed, counted) =
                        stored_values-IsSealed writes c' i' k n' out write e' f' (len ∙ size) later
                          (subst (λ q. get_elem? (stored_values c' writes) q ≡ some out) same
                            there) in
                      (nonce, sealed, omega (arith, counted, moved, s))
                ]
              ]
          | inr (inl (y, failed)) ↦ absurd (ground arith)
          | inr (inr failed) ↦ absurd (ground arith)
        ]

    -- Where an increment of a nonce adds one to its counter: from a context with a cipher and a nonce of the
    -- fixed size, each write that succeeds in a row of writes stores its text sealed with the cipher, for
    -- its own key, under a nonce of the fixed size that stands behind it; and two of them are sealed
    -- under the same nonce only if they are the same write.
    pub storage_nonces_distinct :
        (writes : List (Bytes × Bytes)) (c : ConfidentialCtx) (i j : ℕ) (k n out out' : Bytes)
        (write write' : Bytes × Bytes)
        → c.d2 ≡ some k
        → c.next_storage_nonce ≡ some n
        → length n ≡ m.nonce_size
        → get_elem? writes i ≡ some write
        → get_elem? (stored_values c writes) i ≡ some out
        → get_elem? writes j ≡ some write'
        → get_elem? (stored_values c writes) j ≡ some out'
        → (nonce : Bytes) × (nonce' : Bytes) × IsSealed k write out nonce
          × IsSealed k write' out' nonce'
          × (nonce ≡ nonce' → i ≡ j)
    storage_nonces_distinct writes c i j k n out out' write write' e f size given at given' at' =
        let (nonce, sealed, counted) =
          stored_values-IsSealed writes c i k n out write e f size given at in
        let (nonce', sealed', counted') =
          stored_values-IsSealed writes c j k n out' write' e f size given' at' in
        (nonce, nonce', sealed, sealed', λ same. omega (arith, counted, counted', ap value same))

-- Every activation of a contract within a block starts from the same nonce: the first values that
-- two activations of one address seal, in contexts of the same block and with a first nonce of
-- the fixed size, carry the same nonce.
pub reactivation_repeats_nonce :
    (m : Mrae) (keys : Bytes → Option KeyPair) (c d : ConfidentialCtx)
    (address key text key' text' out out' : Bytes) (pair : KeyPair)
    → c.prev_block_hash ≡ d.prev_block_hash
    → keys (m.keccak address) ≡ some pair
    → length (first_storage_nonce m c.prev_block_hash address) ≡ m.nonce_size
    → (encrypt_storage_value m (activate m keys c (some address)).0 key text).1 ≡ ok out
    → (encrypt_storage_value m (activate m keys d (some address)).0 key' text').1 ≡ ok out'
    → nonce_of m out ≡ nonce_of m out'
unfolding activate
reactivation_repeats_nonce m keys c d address key text key' text' out out' pair same known size done
      done' =
    let n = first_storage_nonce m c.prev_block_hash address in
    let k = storage_key m pair in
    let c' = (activate m keys c (some address)).0 in
    let d' = (activate m keys d (some address)).0 in
    nonce_back m c' key text out k n (ground arith) (ground arith) size done
    ∙ sym (nonce_back m d' key' text' out' k n (ground arith) (ground arith) size done')
