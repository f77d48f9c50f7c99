-- ===== src/Runtime/Methods/Check.antt =====
-- Which transactions `check::tx` of src/methods.rs lets through.
use oasis_ethwasi_runtime.Prelude.{
  ℕ, ◌≤◌, ◌<◌, ◌≡◌, ◌≢◌, ◌↔◌, inl, inr, arith, ok, err, panic, Outcome-cases,
}
use oasis_ethwasi_runtime.Prelude.Bytes.{Bytes}
use oasis_ethwasi_runtime.Runtime.Types.{
  SignedTransaction, UnverifiedTransaction, Ethcore, EthcoreLaws, check_only_success,
  block_gas_limit, min_gas_price_gwei,
}
use oasis_ethwasi_runtime.Runtime.Methods.{check_tx}

module _ {State : Type 0} (e : Ethcore State) where
  -- A transaction passes exactly when it decodes, asks for no more gas than a block has, its sender
  -- is recovered from its signature, and its gas price is at least `MIN_GAS_PRICE_GWEI`.
  pub check_tx_iff :
      (txn : Bytes) (s : SignedTransaction)
      → (check_tx e txn ≡ ok s) ↔ (
          (e.rlp_decode txn ≡ ok s.unsigned)
          × (s.gas ≤ block_gas_limit)
          × (e.recover s.unsigned ≡ ok s.sender)
          × (min_gas_price_gwei ≤ s.gas_price))
  unfolding check_tx
  check_tx_iff txn s = (λ h. ground arith, λ h. ground arith)

  -- A gas price of 1 wei is enough: any decodable, signed transaction within the gas limit passes at
  -- every price between one wei and one gwei, the latter excluded.
  pub check_tx_below_gwei :
      (txn : Bytes) (t : UnverifiedTransaction) (sender : ℕ)
      → e.rlp_decode txn ≡ ok t
      → e.recover t ≡ ok sender
      → t.gas ≤ block_gas_limit
      → 0 < t.gas_price
      → t.gas_price < 1_000_000_000
      → check_tx e txn ≡ ok (record { unsigned = t; sender = sender })
  unfolding check_tx
  check_tx_below_gwei txn t sender d r g lo hi = ground arith

  pub check_tx-total : EthcoreLaws e → (txn : Bytes) → check_tx e txn ≢ panic
  unfolding check_tx
  check_tx-total laws txn h = elim (Outcome-cases (e.rlp_decode txn)) [
    | inl (t, d) ↦ ground (arith, laws.recover_total t)
    | inr (inl (x, d)) ↦ ground arith
    | inr (inr d) ↦ absurd (laws.rlp_total txn d)
  ]

  pub check_tx-ne-check_only : (txn : Bytes) → check_tx e txn ≢ err check_only_success
  unfolding check_tx
  check_tx-ne-check_only txn h = ground arith
