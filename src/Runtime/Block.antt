-- ===== src/Runtime/Block.antt =====
-- src/block.rs: the context of the block that is being executed.
use oasis_ethwasi_runtime.Prelude.{ℕ, ◌+◌, List, [], ◌∷◌, Bool, Outcome, ok, ◌>>=◌, unwrap}
use oasis_ethwasi_runtime.Runtime.Types.{EnvInfo, Header, Tag, Ethcore, Error, block_gas_limit}

pub record BlockContext (State : Type 0) : Type 0 where
  pub state : State
  pub env_info : EnvInfo
  pub transaction_set : List ℕ

-- The dispatcher's context. `tags` holds the arguments of the `emit_txn_tag` calls since the last
-- `take_tags`, oldest first.
pub record TxnContext (State : Type 0) : Type 0 where
  pub header : Header
  pub check_only : Bool
  pub runtime : BlockContext State
  pub tags : List Tag

-- The context of a new block on a state.
abbrev pub new_context : {State : Type 0} → State → Header → Bool → TxnContext State
new_context state header check_only = record {
  header = header;
  check_only = check_only;
  runtime = record {
    state = state;
    env_info = record {
      number = header.round + 1;
      timestamp = header.timestamp;
      gas_limit = block_gas_limit;
      last_hashes = header.previous_hash ∷ [];
      gas_used = 0;
    };
    transaction_set = [];
  };
  tags = [];
}

abbrev pub with_state : {State : Type 0} → TxnContext State → State → TxnContext State
with_state ctx state =
    let block = ctx.runtime in record ctx { runtime = record block { state = state } }

module _ {State : Type 0} (e : Ethcore State) where
  -- `OasisBatchHandler::start_batch` on a context with no block yet.
  unfoldable pub start_batch : Header → Bool → Outcome Error (TxnContext State)
  start_batch header check_only = unwrap (e.from_existing header.previous_hash) >>= λ state.
      ok (new_context state header check_only)

  unfoldable pub end_batch : TxnContext State → Outcome Error (TxnContext State)
  end_batch ctx = unwrap (e.commit ctx.runtime.state) >>= λ state. ok (with_state ctx state)
