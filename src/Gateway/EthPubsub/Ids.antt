-- ===== src/Gateway/EthPubsub/Ids.antt =====
-- How a subscription ends (gateway/src/impls/eth_pubsub.rs).
use oasis_ethwasi_runtime.Prelude.{ℕ, ◌≡◌, ◌≢◌, ◌∙◌, Bool, false, ◌||◌, is_some}
use oasis_ethwasi_runtime.Gateway.Client.{Filter}
use oasis_ethwasi_runtime.Gateway.EthPubsub.{
  Subscribers, SubscribersLaws, TxEntry, State, unsubscribe,
}

module _ {TxFilter Heads Logs Txs : Type 0} (heads : Subscribers (Unit {0}) Heads)
    (log_subs : Subscribers Filter Logs) (txs : Subscribers TxFilter Txs)
    (tx_matches : TxFilter → TxEntry → Bool) where
  -- The id is that of a subscription of the state.
  pub subscribed : ℕ → State heads log_subs txs tx_matches → Bool
  subscribed id s =
      is_some (heads.find id s.heads_subscribers)
      || is_some (log_subs.find id s.logs_subscribers)
      || is_some (txs.find id s.tx_subscribers)

  module _ (heads_laws : SubscribersLaws heads) (logs_laws : SubscribersLaws log_subs)
      (txs_laws : SubscribersLaws txs) where
    unsubscribe_answer :
        (id : ℕ) (s : State heads log_subs txs tx_matches)
        → (unsubscribe heads log_subs txs tx_matches id s).1 ≡ subscribed id s
    unfolding unsubscribe subscribed
    unsubscribe_answer id s = rw (
      heads_laws.remove_returns id s.heads_subscribers,
      logs_laws.remove_returns id s.logs_subscribers,
      txs_laws.remove_returns id s.tx_subscribers,
    )

    unsubscribe_gone :
        (id : ℕ) (s : State heads log_subs txs tx_matches)
        → subscribed id (unsubscribe heads log_subs txs tx_matches id s).0 ≡ false
    unfolding unsubscribe subscribed
    unsubscribe_gone id s = rw (
      heads_laws.remove_self id s.heads_subscribers,
      logs_laws.remove_self id s.logs_subscribers,
      txs_laws.remove_self id s.tx_subscribers,
    )

    unsubscribe_kept :
        (id j : ℕ) (s : State heads log_subs txs tx_matches)
        → id ≢ j
        → subscribed j (unsubscribe heads log_subs txs tx_matches id s).0 ≡ subscribed j s
    unfolding unsubscribe subscribed
    unsubscribe_kept id j s ne = rw (
      heads_laws.remove_ne id j s.heads_subscribers ne,
      logs_laws.remove_ne id j s.logs_subscribers ne,
      txs_laws.remove_ne id j s.tx_subscribers ne,
    )

    -- An `unsubscribe` answers whether the id was one of a subscription; afterwards it is not, a second
    -- one with the same id answers that it was not, and every other id is one as before.
    pub unsubscribe_ends :
        (id : ℕ) (s : State heads log_subs txs tx_matches)
        → let s' = (unsubscribe heads log_subs txs tx_matches id s).0 in
          ((unsubscribe heads log_subs txs tx_matches id s).1 ≡ subscribed id s)
          × (subscribed id s' ≡ false)
          × ((unsubscribe heads log_subs txs tx_matches id s').1 ≡ false)
          × ((j : ℕ) → id ≢ j → subscribed j s' ≡ subscribed j s)
    unsubscribe_ends id s =
        let s' = (unsubscribe heads log_subs txs tx_matches id s).0 in
        (
          unsubscribe_answer id s,
          unsubscribe_gone id s,
          unsubscribe_answer id s' ∙ unsubscribe_gone id s,
          λ j ne. unsubscribe_kept id j s ne,
        )
