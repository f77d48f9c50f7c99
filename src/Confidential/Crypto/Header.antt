-- ===== src/Confidential/Crypto/Header.antt =====
-- What `split_encrypted_payload` of crypto.rs reads from a given header.
use oasis_ethwasi_runtime.Prelude.{
  ℕ, ◌+◌, ◌^◌, ◌≤◌, ◌<◌, ◌≡◌, refl, [], ◌++◌, append_assoc, arith, ok, length, length-append,
  le→leb,
}
use oasis_ethwasi_runtime.Prelude.Bytes.{
  Bytes, slice_part, to_le_bytes, length-to_le_bytes, from_le_bytes-to_le_bytes,
}
use oasis_ethwasi_runtime.Confidential.Mrae.{Mrae}
use oasis_ethwasi_runtime.Confidential.Crypto.{split_lengths, min_len}

abbrev pub packet : Bytes → ℕ → ℕ → Bytes → Bytes
packet pk cl al rest = pk ++ (to_le_bytes 8 cl ++ (to_le_bytes 8 al ++ rest))

pub length-packet :
    (pk : Bytes) (cl al : ℕ) (rest : Bytes)
    → length (packet pk cl al rest) ≡ length pk + 16 + length rest
length-packet pk cl al rest =
    rw (length-append, length-append, length-append)
      (omega (arith, length-to_le_bytes 8 cl, length-to_le_bytes 8 al))

-- The two lengths are read back from any packet with room for a nonce.
pub split_lengths-packet :
    (m : Mrae) (pk : Bytes) (cl al : ℕ) (rest : Bytes)
    → length pk ≡ m.public_key_len
    → m.nonce_size ≤ length rest
    → cl < 2 ^ 64
    → al < 2 ^ 64
    → split_lengths m (packet pk cl al rest) ≡ ok (pk, cl, al)
unfolding split_lengths
split_lengths-packet m pk cl al rest hpk hn hc ha =
    let lc = length-to_le_bytes 8 cl in
    let la = length-to_le_bytes 8 al in
    let k = m.public_key_len in
    let bytes = packet pk cl al rest in
    let long : min_len m ≤ length bytes = omega (arith, length-packet pk cl al rest) in
    let assoc : bytes ≡ (pk ++ to_le_bytes 8 cl) ++ (to_le_bytes 8 al ++ rest) =
      simp append_assoc in
    let front : length (pk ++ to_le_bytes 8 cl) ≡ k + 8 = rw length-append (omega arith) in
    rw (
      le→leb (min_len m) (length bytes) long,
      slice_part 0 k [] pk (to_le_bytes 8 cl ++ (to_le_bytes 8 al ++ rest)) bytes refl refl
          (omega arith),
      slice_part k (k + 8) pk (to_le_bytes 8 cl) (to_le_bytes 8 al ++ rest) bytes refl hpk
          (omega arith),
      slice_part (k + 8) (k + 8 + 8) (pk ++ to_le_bytes 8 cl) (to_le_bytes 8 al) rest bytes assoc
          front (omega arith),
      from_le_bytes-to_le_bytes 8 cl (omega arith),
      from_le_bytes-to_le_bytes 8 al (omega arith),
    )
