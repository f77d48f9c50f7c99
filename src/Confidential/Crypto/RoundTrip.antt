-- ===== src/Confidential/Crypto/RoundTrip.antt =====
-- The wire format of crypto.rs read back: splitting inverts encoding, and encoding inverts splitting.
use oasis_ethwasi_runtime.Prelude.{
  ℕ, ◌+◌, ◌^◌, ◌≤◌, ◌<◌, ◌≡◌, refl, ap, subst, inl, inr, ◌∙◌, [], ◌++◌, append_assoc, append-nil,
  some, arith, ok, drop, drop_all, length, length-append, >>=-eq-ok, All, eq→==,
}
use oasis_ethwasi_runtime.Prelude.Bytes.{
  Bytes, IsByte, slice_part, to_le_bytes, length-to_le_bytes, from_le_bytes,
  to_le_bytes-from_le_bytes, part, part-drop, length-part, part-IsByte,
}
use oasis_ethwasi_runtime.Confidential.Mrae.{Mrae, BoxLaws}
use oasis_ethwasi_runtime.Confidential.Crypto.{
  Payload, encode_encryption, split_lengths, split_body, split_encrypted_payload, encrypt, decrypt,
  expected_data_length, usize_add,
}
use oasis_ethwasi_runtime.Confidential.Crypto.Overflow.{
  declared_len, declared_cipher_len, declared_aad_len, split_payload, split-Verdict,
}
use oasis_ethwasi_runtime.Confidential.Crypto.Header.{split_lengths-packet, length-packet}

abbrev pub payload : Bytes → Bytes → Bytes → Bytes → Payload
payload c n pk a = record {
  peer_public_key = pk;
  cipher_len = length c;
  aad_len = length a;
  cipher = c;
  aad = a;
  nonce = n;
}

length-encode :
    (c n pk a : Bytes)
    → length (encode_encryption c n pk a) ≡ length pk + 16 + length c + length a + length n
unfolding encode_encryption
length-encode c n pk a =
    length-packet pk (length c) (length a) (c ++ (a ++ n))
    ∙ rw (length-append, length-append) (omega arith)

module _ (m : Mrae) (c n pk a : Bytes) (pk_fits : length pk ≡ m.public_key_len)
    (n_fits : length n ≡ m.nonce_size) (fits : length (encode_encryption c n pk a) < 2 ^ 64) where
  body_read :
      split_body m (encode_encryption c n pk a) (pk, length c, length a) ≡ ok (payload c n pk a)
  unfolding split_body
  body_read =
      let k = m.public_key_len in
      let s = m.nonce_size in
      let bytes = encode_encryption c n pk a in
      let total = length-encode c n pk a in
      let front = pk ++ (to_le_bytes 8 (length c) ++ to_le_bytes 8 (length a)) in
      let front_len : length front ≡ k + 8 + 8 =
        rw
          (
            length-append,
            length-append,
            length-to_le_bytes 8 (length c),
            length-to_le_bytes 8 (length a),
          )
          (omega arith) in
      let expected : length bytes ≡ expected_data_length m (length c) (length a) = omega arith in
      let e1 : usize_add (k + 8 + 8) (length c) ≡ k + 8 + 8 + length c = omega arith in
      let e2 : usize_add (k + 8 + 8 + length c) (length a) ≡ k + 8 + 8 + length c + length a =
        omega arith in
      let e3 : usize_add (k + 8 + 8 + length c + length a) s ≡ k + 8 + 8 + length c + length a + s =
        omega arith in
      let p1 : bytes ≡ front ++ (c ++ (a ++ n)) = unfold encode_encryption in simp append_assoc in
      let p2 : bytes ≡ (front ++ c) ++ (a ++ n) = unfold encode_encryption in simp append_assoc in
      let p3 : bytes ≡ ((front ++ c) ++ a) ++ (n ++ []) =
        unfold encode_encryption in simp (append_assoc, append-nil) in
      rw (
        eq→== (length bytes) _ expected,
        e1,
        e2,
        e3,
        slice_part (k + 8 + 8) (k + 8 + 8 + length c) front c (a ++ n) bytes p1 front_len refl,
        slice_part (k + 8 + 8 + length c) (k + 8 + 8 + length c + length a) (front ++ c) a n bytes
            p2 (rw (length-append, front_len)) refl,
        slice_part (k + 8 + 8 + length c + length a) (k + 8 + 8 + length c + length a + s)
            ((front ++ c) ++ a) n [] bytes p3 (rw (length-append, length-append, front_len))
            (rw n_fits),
      )

  -- What was encoded is read back.
  pub split-encode : split_encrypted_payload m (encode_encryption c n pk a) ≡ ok (payload c n pk a)
  unfolding split_encrypted_payload
  split-encode =
      let total = length-encode c n pk a in
      let head : split_lengths m (encode_encryption c n pk a) ≡ ok (pk, length c, length a) =
        unfold encode_encryption in
        split_lengths-packet m pk (length c) (length a) (c ++ (a ++ n)) pk_fits
          (rw (length-append, length-append) (omega arith)) (omega arith) (omega arith) in
      rw head body_read

-- Where the box opens what was sealed with matching keys, a sealed message of less than 2 ^ 64
-- bytes, whose sender key and nonce have their fixed sizes, is opened by the owner of the key it
-- was sealed for, who learns the text, the additional data, the sender's public key and the
-- nonce.
pub decrypt-encrypt :
    (m : Mrae) (Matches : Bytes → Bytes → Type 0) (laws : BoxLaws m Matches)
    (text nonce pk sk peer_pk peer_sk aad sealed : Bytes)
    → Matches pk sk
    → Matches peer_pk peer_sk
    → length pk ≡ m.public_key_len
    → length nonce ≡ m.nonce_size
    → length sealed < 2 ^ 64
    → encrypt m text nonce peer_pk pk sk aad ≡ ok sealed
    → decrypt m (some sealed) peer_sk
      ≡ ok (record { plaintext = text; nonce = nonce; peer_public_key = pk; aad = aad })
unfolding encrypt decrypt
decrypt-encrypt m Matches laws text nonce pk sk peer_pk peer_sk aad sealed own peer hpk hn fits e =
    let (c, boxed, done) = >>=-eq-ok (m.box_seal nonce text aad peer_pk sk) _ e in
    let same : encode_encryption c nonce pk aad ≡ sealed = cc in
    let read = split-encode m c nonce pk aad hpk hn (rw same fits) in
    rw (← same, read, laws.open-seal nonce text aad pk sk peer_pk peer_sk c own peer boxed)

module _ (m : Mrae) (bytes : Bytes) (all : All IsByte bytes) where
  word_again :
      (i : ℕ)
      → i + 8 ≤ length bytes
      → to_le_bytes 8 (from_le_bytes (part i (i + 8) bytes)) ≡ part i (i + 8) bytes
  word_again i h =
      to_le_bytes-from_le_bytes 8 _ (part-IsByte i (i + 8) bytes all)
        (omega (arith, length-part i (i + 8) bytes h))

  rebuild :
      length bytes ≡ declared_len m bytes
      → let p = split_payload m bytes in
        encode_encryption p.cipher p.nonce p.peer_public_key p.aad ≡ bytes
  unfolding encode_encryption
  rebuild e =
      let k = m.public_key_len in
      let c = declared_cipher_len m bytes in
      let a = declared_aad_len m bytes in
      let n = length bytes in
      let lc : length (part (k + 16) (k + 16 + c) bytes) ≡ c =
        omega (arith, length-part (k + 16) (k + 16 + c) bytes (omega arith)) in
      let la : length (part (k + 16 + c) (k + 16 + c + a) bytes) ≡ a =
        omega (arith, length-part (k + 16 + c) (k + 16 + c + a) bytes (omega arith)) in
      let d0 : bytes ≡ part 0 k bytes ++ drop k bytes = part-drop 0 k bytes (omega arith) in
      let d1 = part-drop k (k + 8) bytes (omega arith) in
      let d2 = part-drop (k + 8) (k + 8 + 8) bytes (omega arith) in
      let e2 : drop (k + 8 + 8) bytes ≡ drop (k + 16) bytes =
        ap (λ (i : ℕ). drop i bytes) (omega arith) in
      let d3 = part-drop (k + 16) (k + 16 + c) bytes (omega arith) in
      let d4 = part-drop (k + 16 + c) (k + 16 + c + a) bytes (omega arith) in
      let d5 = part-drop (k + 16 + c + a) n bytes (omega arith) in
      let d6 : drop n bytes ≡ [] = drop_all n bytes refl in
      let d7 = append-nil (part (k + 16 + c + a) n bytes) in
      rw (lc, la, word_again k (omega arith), word_again (k + 8) (omega arith))
        (cc (d0, d1, d2, e2, d3, d4, d5, d6, d7))

  -- A payload of less than 2 ^ 64 bytes that is accepted is the encoding of the parts that it is
  -- split into, and the sizes that are returned with the parts are their lengths.
  pub encode-split :
      (p : Payload)
      → length bytes < 2 ^ 64
      → split_encrypted_payload m bytes ≡ ok p
      → (encode_encryption p.cipher p.nonce p.peer_public_key p.aad ≡ bytes)
        × (p.cipher_len ≡ length p.cipher)
        × (p.aad_len ≡ length p.aad)
        × (length p.peer_public_key ≡ m.public_key_len)
        × (length p.nonce ≡ m.nonce_size)
  encode-split p fits e = elim (split-Verdict m bytes fits all) [
    | inl (short, r) ↦ cc
    | inr (inl (d, r)) ↦
        let same : split_payload m bytes ≡ p = ground arith in
        let k = m.public_key_len in
        let c = declared_cipher_len m bytes in
        let a = declared_aad_len m bytes in
        subst
          (λ (q : Payload).
            (encode_encryption q.cipher q.nonce q.peer_public_key q.aad ≡ bytes)
            × (q.cipher_len ≡ length q.cipher)
            × (q.aad_len ≡ length q.aad)
            × (length q.peer_public_key ≡ m.public_key_len)
            × (length q.nonce ≡ m.nonce_size))
          same
          (
            rebuild d,
            omega (arith, length-part (k + 16) (k + 16 + c) bytes (omega arith)),
            omega (arith, length-part (k + 16 + c) (k + 16 + c + a) bytes (omega arith)),
            omega (arith, length-part 0 k bytes (omega arith)),
            omega (arith, length-part (k + 16 + c + a) (length bytes) bytes (omega arith)),
          )
    | inr (inr (inl (x, y, r))) ↦ cc
    | inr (inr (inr (y, r))) ↦ cc
  ]
