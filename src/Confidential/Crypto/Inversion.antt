-- ===== src/Confidential/Crypto/Inversion.antt =====
-- `split_encrypted_payload` of crypto.rs on any bytes: what it returns, and when it panics.
use oasis_ethwasi_runtime.Prelude.{
  ℕ, ◌+◌, ◌%◌, ◌^◌, ◌≤◌, ◌<◌, ◌≡◌, ◌≢◌, arith, ok, err, panic, inl, inr, length, le→leb, eq→==,
  String, ne→==_false, lt→leb_false,
}
use oasis_ethwasi_runtime.Prelude.Bytes.{Bytes, part, slice_lem, slice_cases, from_le_bytes}
use oasis_ethwasi_runtime.Confidential.Mrae.{Mrae}
use oasis_ethwasi_runtime.Confidential.Crypto.{
  split_lengths, split_body, min_len, expected_data_length, usize_add,
}

module _ (m : Mrae) (bytes : Bytes) where
  open m use {public_key_len as k, nonce_size as s}

  pub split_lengths_short :
      length bytes < min_len m → split_lengths m bytes ≡ err "invalid nonce or public key"
  unfolding split_lengths
  split_lengths_short h = rw (lt→leb_false _ _ h)

  pub split_lengths_lem :
      min_len m ≤ length bytes
      → split_lengths m bytes
        ≡ ok (
          part 0 k bytes,
          from_le_bytes (part k (k + 8) bytes),
          from_le_bytes (part (k + 8) (k + 8 + 8) bytes),
        )
  unfolding split_lengths
  split_lengths_lem h = rw (
    le→leb _ _ h,
    slice_lem 0 k bytes (omega arith) (omega arith),
    slice_lem k (k + 8) bytes (omega arith) (omega arith),
    slice_lem (k + 8) (k + 8 + 8) bytes (omega arith) (omega arith),
  )

  module _ (pk : Bytes) (cl al : ℕ) (fits : length bytes < 2 ^ 64) (c_fits : cl < 2 ^ 64)
      (a_fits : al < 2 ^ 64) (long : min_len m ≤ length bytes) where
    pub split_body_mismatch :
        length bytes ≢ (k + 16 + cl + al + s) % 2 ^ 64
        → split_body m bytes (pk, cl, al) ≡ err "invalid size for ciphertext"
    unfolding split_body
    split_body_mismatch h =
        rw (ne→==_false (length bytes) (expected_data_length m cl al) (omega arith))

    pub split_body_lem :
        length bytes ≡ k + 16 + cl + al + s
        → split_body m bytes (pk, cl, al)
          ≡ ok (record {
            peer_public_key = pk;
            cipher_len = cl;
            aad_len = al;
            cipher = part (k + 16) (k + 16 + cl) bytes;
            aad = part (k + 16 + cl) (k + 16 + cl + al) bytes;
            nonce = part (k + 16 + cl + al) (length bytes) bytes;
          })
    unfolding split_body
    split_body_lem h =
        let e : length bytes ≡ expected_data_length m cl al = omega arith in
        let e0 : k + 8 + 8 ≡ k + 16 = omega arith in
        let e1 : usize_add (k + 16) cl ≡ k + 16 + cl = omega arith in
        let e2 : usize_add (k + 16 + cl) al ≡ k + 16 + cl + al = omega arith in
        let e3 : usize_add (k + 16 + cl + al) s ≡ length bytes = omega arith in
        rw (
          eq→== _ _ e,
          e0,
          e1,
          e2,
          e3,
          slice_lem (k + 16) (k + 16 + cl) bytes (omega arith) (omega arith),
          slice_lem (k + 16 + cl) (k + 16 + cl + al) bytes (omega arith) (omega arith),
          slice_lem (k + 16 + cl + al) (length bytes) bytes (omega arith) (omega arith),
        )

    pub split_body_wrapped :
        length bytes ≡ (k + 16 + cl + al + s) % 2 ^ 64
        → length bytes ≢ k + 16 + cl + al + s
        → split_body m bytes (pk, cl, al) ≡ panic
    unfolding split_body
    split_body_wrapped h n =
        let e : length bytes ≡ expected_data_length m cl al = omega arith in
        let c_end = usize_add (k + 8 + 8) cl in
        let a_end = usize_add c_end al in
        elim (slice_cases {E = String} (k + 8 + 8) c_end bytes) [
          | inr (p, _) ↦ rw (eq→== _ _ e, p)
          | inl (p, le, fits1) ↦ elim (slice_cases {E = String} c_end a_end bytes) [
            | inr (q, _) ↦ rw (eq→== _ _ e, p, q)
            | inl (q, le', fits2) ↦ absurd (omega arith)
          ]
        ]
