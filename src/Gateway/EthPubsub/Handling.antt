-- ===== src/Gateway/EthPubsub/Handling.antt =====
-- What the handler (gateway/src/impls/eth_pubsub.rs) sends over the life of the broker
-- (gateway/src/pubsub.rs), the work for each notice done before that for the next.
pub mod Outcomes
pub mod LogEntries
use oasis_ethwasi_runtime.Prelude.{ℕ, List, [], ◌∷◌, ◌++◌, Bool, ◌==◌, if◌then◌else◌, String}
use oasis_ethwasi_runtime.Gateway.Client.{Client, Codec, Filter}
use oasis_ethwasi_runtime.Gateway.Pubsub.{Notice}
use oasis_ethwasi_runtime.Gateway.Pubsub.Gathered.{gathered}
use oasis_ethwasi_runtime.Gateway.EthPubsub.{Subscribers, TxEntry, State, Sent, notify_blocks}

module _ {TxFilter Heads Logs Txs : Type 0} (heads : Subscribers (Unit {0}) Heads)
    (log_subs : Subscribers Filter Logs) (txs : Subscribers TxFilter Txs)
    (tx_matches : TxFilter → TxEntry → Bool) (keccak : ℕ) (info : List (String × String))
    (c : Client) (k : Codec)
    (states : Notice
      → State heads log_subs txs tx_matches × State heads log_subs txs tx_matches) where
  -- What is sent for the notices of the listener `l`. The states are that at the call and that when the
  -- blocks for the headers have come.
  unfoldable pub handled : ℕ → List Notice → List Sent
  unfolding notify_blocks
  handled = gathered (λ n.
      notify_blocks heads log_subs txs tx_matches keccak info c k (states n).0 (states n).1
        n.from_block n.to_block)
