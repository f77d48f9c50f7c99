-- ===== src/Confidential/Context/UnitTests.antt =====
-- The unit tests of common/src/confidential/confidential_ctx.rs, each as what it asserts, for any peer,
-- address and keys, with a toy in place of the algorithm.
use oasis_ethwasi_runtime.Prelude.{◌≡◌, refl, [], none, some, true, false, err, replicate}
use oasis_ethwasi_runtime.Prelude.Bytes.{Bytes}
use oasis_ethwasi_runtime.Confidential.Mrae.{KeyPair}
use oasis_ethwasi_runtime.Confidential.Example.{toy}
use oasis_ethwasi_runtime.Confidential.Crypto.{decrypt, split_encrypted_payload}
use oasis_ethwasi_runtime.Confidential.Context.{
  ConfidentialCtx, Error, confidential, new, decrypt_data, deactivate,
}

abbrev no_contract_key : Error
no_contract_key =
    confidential
      "The confidential context must have a contract key when opening encrypted transaction data"

module _ (peer address : Bytes) (contract_key : KeyPair) where
  open toy use {nonce_size}

  abbrev nonce : Bytes
  nonce = replicate nonce_size 0

  abbrev zero_hash : Bytes
  zero_hash = replicate 32 0

  abbrev TestDecryptWithNoContractKey : Type 0
  TestDecryptWithNoContractKey = decrypt_data toy (new zero_hash) [] ≡ err no_contract_key

  abbrev with_contract : ConfidentialCtx
  with_contract = record {
    peer_public_key = some peer;
    contract = some (address, contract_key);
    next_nonce = some nonce;
    activated = true;
    prev_block_hash = zero_hash;
    d2 = none;
    next_storage_nonce = some nonce;
  }

  abbrev TestDecryptInvalid : Type 0
  TestDecryptInvalid =
      decrypt_data toy with_contract [] ≡ err (confidential "invalid nonce or public key")

  abbrev TestActivated : Type 0
  TestActivated =
      ((record with_contract { next_storage_nonce = none }).activated ≡ true)
      × ((new zero_hash).activated ≡ false)

  abbrev TestDecryptTxDataAfterDeactivate : Type 0
  TestDecryptTxDataAfterDeactivate =
      decrypt_data toy
        (deactivate (record with_contract { next_storage_nonce = none; activated = false })) []
      ≡ err no_contract_key

  test_decrypt_with_no_contract_key : TestDecryptWithNoContractKey
  unfolding decrypt_data new
  test_decrypt_with_no_contract_key = refl

  test_decrypt_invalid : TestDecryptInvalid
  unfolding decrypt_data decrypt split_encrypted_payload
  test_decrypt_invalid = refl

  test_activated : TestActivated
  unfolding new
  test_activated = (refl, refl)

  test_decrypt_tx_data_after_deactivate : TestDecryptTxDataAfterDeactivate
  unfolding decrypt_data deactivate
  test_decrypt_tx_data_after_deactivate = refl
