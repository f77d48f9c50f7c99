-- ===== src/Gateway/Namespaces.antt =====
-- gateway/src/impls/net.rs, web3.rs and eth_signing.rs, and the calls of gateway/src/impls/eth.rs that only
-- refuse: what these namespaces answer. The hash function, and the versions that the build puts in, are
-- parameters.
pub mod Network
use oasis_ethwasi_runtime.Prelude.{
  ℕ, List, [], ◌++◌, Option, none, Bool, true, Outcome, ok, err, NoError,
}
use oasis_ethwasi_runtime.Prelude.Bytes.{Bytes}
use oasis_ethwasi_runtime.Prelude.Texts.{codes}
use oasis_ethwasi_runtime.Prelude.Numbers.{digits}

-- parity_rpc's errors for calls that are not there, by their texts.
pub data Refusal : Type 0 where
  deprecated unsupported : Bytes → Refusal
  unimplemented : Refusal

-- A number of 32 bits has ten digits at most.
unfoldable pub net_version : Bytes
net_version = digits 10 0xa515

abbrev pub peer_count : Bytes
peer_count = codes "0x0"

abbrev pub is_listening : Bool
is_listening = true

unfoldable pub client_version : Bytes → Bytes → Bytes → Bytes
client_version name version git_rev =
    codes "oasis/" ++ (name ++ (codes "/" ++ (version ++ (codes "/" ++ git_rev))))

unfoldable pub sha3 : (Bytes → ℕ) → Bytes → ℕ
sha3 keccak bytes = keccak bytes

abbrev pub cannot_sign : Bytes
cannot_sign =
    codes
      " is not implemented because the gateway cannot sign transactions. Make sure that the wallet is setup correctly in the client in case transaction signing is expected to happen transparently"

unfoldable pub sign : {Request : Type 0} → Request → Outcome Refusal Bytes
sign request = err (unsupported (codes "eth_sign" ++ cannot_sign))

unfoldable pub send_transaction : {Request : Type 0} → Request → Outcome Refusal ℕ
send_transaction request = err (unsupported (codes "eth_sendTransaction" ++ cannot_sign))

unfoldable pub sign_transaction : {Request : Type 0} → Request → Outcome Refusal Bytes
sign_transaction request = err (unsupported (codes "eth_signTransaction" ++ cannot_sign))

-- There are no uncles.
abbrev pub uncle_by_block_hash_and_index : ℕ → ℕ → Outcome NoError (Option (Unit {0}))
uncle_by_block_hash_and_index hash index = ok none

abbrev pub uncle_by_block_number_and_index : ℕ → ℕ → Outcome NoError (Option (Unit {0}))
uncle_by_block_number_and_index num index = ok none

abbrev pub compilers : Outcome Refusal (List Bytes)
compilers = err (deprecated (codes "Compilation functionality is deprecated."))

abbrev pub work : Outcome Refusal (Unit {0})
work = err unimplemented

abbrev pub submit_work : ℕ → ℕ → ℕ → Outcome Refusal Bool
submit_work nonce pow_hash mix_hash = err unimplemented

abbrev pub submit_hashrate : ℕ → ℕ → Outcome Refusal Bool
submit_hashrate rate id = err unimplemented

abbrev pub compile_lll : Bytes → Outcome Refusal Bytes
compile_lll source = err (deprecated (codes "Compilation of LLL via RPC is deprecated"))

abbrev pub compile_serpent : Bytes → Outcome Refusal Bytes
compile_serpent source = err (deprecated (codes "Compilation of Serpent via RPC is deprecated"))

abbrev pub compile_solidity : Bytes → Outcome Refusal Bytes
compile_solidity source = err (deprecated (codes "Compilation of Solidity via RPC is deprecated"))
