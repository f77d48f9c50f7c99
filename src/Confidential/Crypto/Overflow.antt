-- ===== src/Confidential/Crypto/Overflow.antt =====
-- Every way in which `split_encrypted_payload` of crypto.rs can end, the panic included.
use oasis_ethwasi_runtime.Prelude.{
  ℕ, ◌+◌, ◌%◌, ◌^◌, ◌≤◌, ◌<◌, ◌≡◌, ◌≢◌, ◌⊎◌, inl, inr, arith, ok, err, panic, length, ltb, All,
  Bool-cases, ◌==◌, ltb→lt, ltb_false→le, ==_iff, ==_false→ne, Outcome, String,
}
use oasis_ethwasi_runtime.Prelude.Bytes.{
  Bytes, IsByte, part, length-part, part-IsByte, from_le_bytes, from_le_bytes_bound,
}
use oasis_ethwasi_runtime.Confidential.Mrae.{Mrae}
use oasis_ethwasi_runtime.Confidential.Crypto.{Payload, min_len, split_encrypted_payload}
use oasis_ethwasi_runtime.Confidential.Crypto.Header.{packet, length-packet, split_lengths-packet}
use oasis_ethwasi_runtime.Confidential.Crypto.Inversion.{
  split_lengths_short, split_lengths_lem, split_body_lem, split_body_mismatch, split_body_wrapped,
}

-- The lengths that the header of a payload declares, and what the whole would then measure.
abbrev pub declared_cipher_len : Mrae → Bytes → ℕ
declared_cipher_len m bytes = from_le_bytes (part m.public_key_len (m.public_key_len + 8) bytes)

abbrev pub declared_aad_len : Mrae → Bytes → ℕ
declared_aad_len m bytes =
    from_le_bytes (part (m.public_key_len + 8) (m.public_key_len + 8 + 8) bytes)

abbrev pub declared_len : Mrae → Bytes → ℕ
declared_len m bytes =
    m.public_key_len + 16 + declared_cipher_len m bytes + declared_aad_len m bytes + m.nonce_size

abbrev pub split_payload : Mrae → Bytes → Payload
split_payload m bytes =
    let k = m.public_key_len in
    let c = declared_cipher_len m bytes in
    let a = declared_aad_len m bytes in
    record {
      peer_public_key = part 0 k bytes;
      cipher_len = c;
      aad_len = a;
      cipher = part (k + 16) (k + 16 + c) bytes;
      aad = part (k + 16 + c) (k + 16 + c + a) bytes;
      nonce = part (k + 16 + c + a) (length bytes) bytes;
    }

-- The four verdicts: too short, the declared sizes add up to the length, they do so only after
-- wrapping around 2 ^ 64, or not at all.
abbrev pub Verdict : Mrae → Bytes → Outcome String Payload → Type 0
Verdict m bytes r =
    ((length bytes < min_len m) × (r ≡ err "invalid nonce or public key"))
    ⊎ (length bytes ≡ declared_len m bytes) × (r ≡ ok (split_payload m bytes))
    ⊎ (length bytes ≢ declared_len m bytes)
      × (length bytes ≡ declared_len m bytes % 2 ^ 64)
      × (r ≡ panic)
    ⊎ (length bytes ≢ declared_len m bytes % 2 ^ 64) × (r ≡ err "invalid size for ciphertext")

module _ (m : Mrae) (bytes : Bytes) (fits : length bytes < 2 ^ 64) (all : All IsByte bytes) where
  word_fits : (i : ℕ) → i + 8 ≤ length bytes → from_le_bytes (part i (i + 8) bytes) < 2 ^ 64
  word_fits i h =
      from_le_bytes_bound 8 _ (part-IsByte i (i + 8) bytes all)
        (omega (arith, length-part i (i + 8) bytes h))

  -- Splitting a payload of less than 2 ^ 64 bytes ends in one of four ways: an error if it is
  -- shorter than header and nonce; its parts if the sizes declared in the header add up to its
  -- length; a panic if they do so only modulo 2 ^ 64; an error otherwise.
  pub split-Verdict : Verdict m bytes (split_encrypted_payload m bytes)
  unfolding split_encrypted_payload
  split-Verdict = elim (Bool-cases (ltb (length bytes) (min_len m))) [
    | inl short ↦ let lt = ltb→lt _ _ short in inl (lt, rw (split_lengths_short m bytes lt))
    | inr enough ↦
        let long = ltb_false→le _ _ enough in
        let k = m.public_key_len in
        let read = split_lengths_lem m bytes long in
        let c = declared_cipher_len m bytes in
        let a = declared_aad_len m bytes in
        let c_fits : c < 2 ^ 64 = word_fits k (omega arith) in
        let a_fits : a < 2 ^ 64 = word_fits (k + 8) (omega arith) in
        elim (Bool-cases (length bytes == declared_len m bytes)) [
          | inl eq ↦
              let e = (==_iff _ _).0 eq in
              inr (
                inl (
                  e,
                  rw (read, split_body_lem m bytes (part 0 k bytes) c a fits c_fits a_fits long e),
                ))
          | inr ne ↦
              let n = ==_false→ne _ _ ne in
              elim (Bool-cases (length bytes == declared_len m bytes % 2 ^ 64)) [
                | inl eq ↦
                    let e = (==_iff _ _).0 eq in
                    inr (
                      inr (
                        inl (
                          n,
                          e,
                          rw (
                            read,
                            split_body_wrapped m bytes (part 0 k bytes) c a fits c_fits a_fits long
                                e n,
                          ),
                        )))
                | inr ne' ↦
                    let n' = ==_false→ne _ _ ne' in
                    inr (
                      inr (
                        inr (
                          n',
                          rw (
                            read,
                            split_body_mismatch m bytes (part 0 k bytes) c a fits c_fits a_fits long
                                n',
                          ),
                        )))
              ]
        ]
  ]

-- A payload of less than 2 ^ 64 bytes, long enough for header and nonce, whose declared sizes
-- wrap around 2 ^ 64 to its real length makes the split panic.
pub split_overflow :
    (m : Mrae) (pk : Bytes) (cl al : ℕ) (rest : Bytes)
    → length pk ≡ m.public_key_len
    → m.nonce_size ≤ length rest
    → cl < 2 ^ 64
    → al < 2 ^ 64
    → length (packet pk cl al rest) < 2 ^ 64
    → length rest + 2 ^ 64 ≡ cl + al + m.nonce_size
    → split_encrypted_payload m (packet pk cl al rest) ≡ panic
unfolding split_encrypted_payload
split_overflow m pk cl al rest hpk hn hc ha fits wraps =
    let total = length-packet pk cl al rest in
    rw (
      split_lengths-packet m pk cl al rest hpk hn hc ha,
      split_body_wrapped m (packet pk cl al rest) pk cl al fits hc ha (omega arith) (omega arith)
          (omega arith),
    )
