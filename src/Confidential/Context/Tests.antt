-- ===== src/Confidential/Context/Tests.antt =====
-- Contexts activated, sessions and stored values.
use oasis_ethwasi_runtime.Prelude.{
  ℕ, ◌≡◌, ◌≢◌, refl, arith, List, [], ◌∷◌, Option, some, true, ok, panic, Bool-cases, ltb, inl, inr,
}
use oasis_ethwasi_runtime.Prelude.Bytes.{Bytes, to_le_bytes}
use oasis_ethwasi_runtime.Confidential.Mrae.{KeyPair}
use oasis_ethwasi_runtime.Confidential.Example.{
  toy, Matches, toy_box, toy_seal, toy_nonces, counter, increment, nonce, client_key, contract_key,
  text, aad, pair,
}
use oasis_ethwasi_runtime.Confidential.Crypto.{encode_encryption, encrypt, decrypt}
use oasis_ethwasi_runtime.Confidential.Context.{
  ConfidentialCtx, new, is_encrypting, activate, swap_contract, encrypt_session, session_parts,
  seal_session, advance_nonce, decrypt_session, encrypt_storage_key, encrypt_storage_value,
  seal_storage, decrypt_storage_value,
}
use oasis_ethwasi_runtime.Confidential.Context.Invariant.{
  IsConsistent, run, activates, encrypts_storage, run-new-IsConsistent,
}
use oasis_ethwasi_runtime.Confidential.Context.Storage.{storage-total, decrypt-encrypt_storage}
use oasis_ethwasi_runtime.Confidential.Context.Nonces.{
  stored_values, IsSealed, nonce_of, storage_nonces_distinct, reactivation_repeats_nonce,
}
use oasis_ethwasi_runtime.Confidential.Context.Session.{
  decrypt_session-encrypt, decrypt-encrypt_session,
}

abbrev keys : Bytes → Option KeyPair
keys address = some pair

abbrev address : Bytes
address = 77 ∷ []

abbrev key : Bytes
key = 50 ∷ []

-- A context as an activation leaves it.
abbrev active : ConfidentialCtx
active = record {
  peer_public_key = some client_key;
  contract = some (address, pair);
  next_nonce = some nonce;
  activated = true;
  prev_block_hash = 60 ∷ [];
  d2 = some (8 ∷ []);
  next_storage_nonce = some (60 ∷ 0 ∷ []);
}

active-IsConsistent : IsConsistent toy active
active-IsConsistent = record { keyed = refl; nonced = refl; active = λ e. refl }

no_panic : (n : Bytes) → increment n ≢ panic
no_panic [] h = cc
no_panic (a ∷ []) h = cc
no_panic (a ∷ b ∷ []) h = elim (Bool-cases (ltb b 255)) [
  | inl e ↦ ground arith
  | inr e ↦ ground arith
]
no_panic (a ∷ b ∷ c ∷ n) h = cc

run-new-IsConsistent_example :
    IsConsistent toy
      (run toy keys (new (60 ∷ [])) (activates (some address) ∷ encrypts_storage key text ∷ []))
run-new-IsConsistent_example =
    run-new-IsConsistent toy keys (60 ∷ [])
      (activates (some address) ∷ encrypts_storage key text ∷ [])

storage-total_example :
    (encrypt_storage_key toy active text ≢ panic)
    × ((encrypt_storage_value toy active key text).1 ≢ panic)
    × (decrypt_storage_value toy active key text ≢ panic)
unfolding is_encrypting
storage-total_example = storage-total toy active key text active-IsConsistent refl no_panic

decrypt-encrypt_storage_example :
    decrypt_storage_value toy active key (9 ∷ 104 ∷ 105 ∷ 60 ∷ 0 ∷ []) ≡ ok text
unfolding encrypt_storage_value seal_storage
decrypt-encrypt_storage_example =
    decrypt-encrypt_storage toy toy_seal active active key text (9 ∷ 104 ∷ 105 ∷ 60 ∷ 0 ∷ [])
      (8 ∷ []) (60 ∷ 0 ∷ []) refl refl refl refl (omega arith) refl

abbrev writes : List (Bytes × Bytes)
writes = (key, text) ∷ (key, text) ∷ []

storage_nonces_distinct_example :
    (nonce : Bytes) × (nonce' : Bytes) × IsSealed toy counter toy_nonces
      (8 ∷ [])
      (key, text)
      (9 ∷ 104 ∷ 105 ∷ 60 ∷ 0 ∷ [])
      nonce
    × IsSealed toy counter toy_nonces (8 ∷ []) (key, text) (9 ∷ 104 ∷ 105 ∷ 60 ∷ 1 ∷ []) nonce'
    × (nonce ≡ nonce' → ◌≡◌ {A = ℕ} 0 1)
unfolding stored_values encrypt_storage_value seal_storage
storage_nonces_distinct_example =
    storage_nonces_distinct toy counter toy_nonces writes active 0 1 (8 ∷ []) (60 ∷ 0 ∷ [])
      (9 ∷ 104 ∷ 105 ∷ 60 ∷ 0 ∷ []) (9 ∷ 104 ∷ 105 ∷ 60 ∷ 1 ∷ []) (key, text) (key, text) refl refl
      refl refl refl refl refl

reactivation_repeats_nonce_example :
    nonce_of toy (9 ∷ 104 ∷ 105 ∷ 60 ∷ 0 ∷ []) ≡ nonce_of toy (9 ∷ 60 ∷ 0 ∷ [])
unfolding activate swap_contract encrypt_storage_value seal_storage new
reactivation_repeats_nonce_example =
    reactivation_repeats_nonce toy keys active (new (60 ∷ [])) address key text key []
      (9 ∷ 104 ∷ 105 ∷ 60 ∷ 0 ∷ []) (9 ∷ 60 ∷ 0 ∷ []) pair refl refl refl refl refl

decrypt_session-encrypt_example :
    decrypt_session toy active (encode_encryption (7 ∷ text) nonce client_key aad) ≡ (
      record active { peer_public_key = some client_key; next_nonce = some (0 ∷ 6 ∷ []) },
      ok (record { decrypted_data = text; additional_data = aad }),
    )
unfolding encrypt encode_encryption to_le_bytes
decrypt_session-encrypt_example =
    decrypt_session-encrypt toy Matches toy_box pair client_key client_key refl refl refl refl
      active address text nonce (0 ∷ 6 ∷ []) aad (encode_encryption (7 ∷ text) nonce client_key aad)
      refl refl (omega arith) refl refl

abbrev reply : Bytes
reply = encode_encryption (7 ∷ text) nonce contract_key []

decrypt-encrypt_session_example :
    (decrypt toy (some reply) client_key
      ≡ ok (record { plaintext = text; nonce = nonce; peer_public_key = contract_key; aad = [] }))
    × ((encrypt_session toy active text).0 ≡ record active { next_nonce = some (0 ∷ 6 ∷ []) })
unfolding encrypt encode_encryption to_le_bytes encrypt_session session_parts seal_session
    advance_nonce
decrypt-encrypt_session_example =
    decrypt-encrypt_session toy Matches toy_box pair client_key client_key refl refl refl refl
      active address text nonce (0 ∷ 6 ∷ []) reply refl refl refl refl (omega arith) refl refl
