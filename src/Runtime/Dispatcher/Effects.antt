-- ===== src/Runtime/Dispatcher/Effects.antt =====
-- What the calls of a batch (src/dispatcher.rs) do to the context, as the steps of a relation.
use oasis_ethwasi_runtime.Prelude.{ℕ, ◌+◌, ◌≤◌, ◌≡◌, List, [], ◌∷◌, false, contains}
use oasis_ethwasi_runtime.Runtime.Types.{SignedTransaction, ExecutionResult, Tag}
use oasis_ethwasi_runtime.Runtime.Block.{TxnContext}
use oasis_ethwasi_runtime.Runtime.Methods.{txn_tags}
use oasis_ethwasi_runtime.Runtime.Dispatcher.{TxnOutput, ExecuteTxResult, success, checked, failed}

abbrev pub gas_of : TxnOutput → ℕ
gas_of (success r) = r.gas_used
gas_of checked = 0
gas_of (failed message) = 0

abbrev pub total_gas : List ExecuteTxResult → ℕ
total_gas [] = 0
total_gas (x ∷ xs) = gas_of x.output + total_gas xs

-- One result and the block before and after it: a success records a transaction, and carries just
-- its tags; anything else leaves the block's account alone, and carries none.
pub data Effect {State : Type 0} (ctx ctx' : TxnContext State) (x : ExecuteTxResult) : Type 0 where
  executed :
      (t : SignedTransaction) (r : ExecutionResult)
      → x.output ≡ success r
      → x.tags ≡ txn_tags t.hash r.logs
      → contains t.hash ctx.runtime.transaction_set ≡ false
      → ctx'.runtime.transaction_set ≡ t.hash ∷ ctx.runtime.transaction_set
      → ctx'.runtime.env_info.gas_used ≡ ctx.runtime.env_info.gas_used + r.gas_used
      → r.gas_used ≤ t.gas
      → Effect ctx ctx' x
  refused :
      gas_of x.output ≡ 0
      → x.tags ≡ []
      → ctx'.runtime.transaction_set ≡ ctx.runtime.transaction_set
      → ctx'.runtime.env_info.gas_used ≡ ctx.runtime.env_info.gas_used
      → Effect ctx ctx' x

-- The effects of the calls of a batch, one after the other.
pub data Effects {State : Type 0}
    : TxnContext State → TxnContext State → List ExecuteTxResult → Type 0 where
  done : {ctx : TxnContext State} → Effects ctx ctx []
  then_call :
      {ctx mid last : TxnContext State} {x : ExecuteTxResult} {xs : List ExecuteTxResult}
      → Effect ctx mid x
      → Effects mid last xs
      → Effects ctx last (x ∷ xs)

-- The transaction hashes under which results are tagged, put in front of those before them.
abbrev pub hash_onto : List Tag → List ℕ → List ℕ
hash_onto [] hashes = hashes
hash_onto (t ∷ ts) hashes = t.value ∷ hashes

abbrev pub tagged_hashes : List ℕ → List ExecuteTxResult → List ℕ
tagged_hashes hashes [] = hashes
tagged_hashes hashes (x ∷ xs) = tagged_hashes (hash_onto x.tags hashes) xs
