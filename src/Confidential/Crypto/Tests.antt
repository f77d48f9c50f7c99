-- ===== src/Confidential/Crypto/Tests.antt =====
-- Messages sealed, opened and split.
use oasis_ethwasi_runtime.Prelude.{◌≡◌, refl, arith, [], ◌∷◌, some, ok, length, All}
use oasis_ethwasi_runtime.Prelude.Bytes.{Bytes, IsByte, to_le_bytes}
use oasis_ethwasi_runtime.Confidential.Example.{
  toy, Matches, toy_box, nonce, client_key, contract_key, text, aad,
}
use oasis_ethwasi_runtime.Confidential.Crypto.{
  encode_encryption, encrypt, decrypt, split_encrypted_payload,
}
use oasis_ethwasi_runtime.Confidential.Crypto.RoundTrip.{
  payload, split-encode, decrypt-encrypt, encode-split,
}
use oasis_ethwasi_runtime.Confidential.Crypto.Overflow.{Verdict, split-Verdict}

abbrev sealed : Bytes
sealed =
    1 ∷ 2 ∷ 3 ∷ 0 ∷ 0 ∷ 0 ∷ 0 ∷ 0 ∷ 0 ∷ 0 ∷ 1 ∷ 0 ∷ 0 ∷ 0 ∷ 0 ∷ 0 ∷ 0 ∷ 0 ∷ 7 ∷ 104 ∷ 105 ∷ 6 ∷ 0
    ∷ 5 ∷ []

encode_sealed : encode_encryption (7 ∷ text) nonce client_key aad ≡ sealed
unfolding encode_encryption to_le_bytes
encode_sealed = refl

decrypt-encrypt_example :
    decrypt toy (some sealed) contract_key
    ≡ ok (record { plaintext = text; nonce = nonce; peer_public_key = client_key; aad = aad })
unfolding encrypt encode_encryption to_le_bytes
decrypt-encrypt_example =
    decrypt-encrypt toy Matches toy_box text nonce client_key client_key contract_key contract_key
      aad sealed refl refl refl refl (omega arith) refl

All-bytes : All IsByte sealed
All-bytes = (
  omega arith,
  (
    omega arith,
    (
      omega arith,
      (
        omega arith,
        (
          omega arith,
          (
            omega arith,
            (
              omega arith,
              (
                omega arith,
                (
                  omega arith,
                  (
                    omega arith,
                    (
                      omega arith,
                      (
                        omega arith,
                        (
                          omega arith,
                          (
                            omega arith,
                            (
                              omega arith,
                              (
                                omega arith,
                                (
                                  omega arith,
                                  (
                                    omega arith,
                                    (
                                      omega arith,
                                      (
                                        omega arith,
                                        (
                                          omega arith,
                                          (omega arith, (omega arith, (omega arith, tt))),
                                        ),
                                      ),
                                    ),
                                  ),
                                ),
                              ),
                            ),
                          ),
                        ),
                      ),
                    ),
                  ),
                ),
              ),
            ),
          ),
        ),
      ),
    ),
  ),
)

split_sealed : split_encrypted_payload toy sealed ≡ ok (payload (7 ∷ text) nonce client_key aad)
unfolding encode_encryption to_le_bytes
split_sealed = split-encode toy (7 ∷ text) nonce client_key aad refl refl (omega arith)

encode-split_example :
    (encode_encryption (7 ∷ text) nonce client_key aad ≡ sealed)
    × (3 ≡ length (7 ∷ text))
    × (1 ≡ length aad)
    × (length client_key ≡ 2)
    × (length nonce ≡ 2)
encode-split_example =
    encode-split toy sealed All-bytes (payload (7 ∷ text) nonce client_key aad) (omega arith)
      split_sealed

split-Verdict_example : Verdict toy sealed (split_encrypted_payload toy sealed)
split-Verdict_example = split-Verdict toy sealed (omega arith) All-bytes

-- The declared sizes are 2 ^ 64 - 1 and 1, the message is three bytes: 2 of nonce and one too many.
