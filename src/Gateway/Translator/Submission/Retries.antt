-- ===== src/Gateway/Translator/Submission/Retries.antt =====
-- How often and why `send_raw_transaction` submits.
use oasis_ethwasi_runtime.Prelude.{
  ℕ, zero, suc, ◌≤◌, ◌<◌, ◌≡◌, refl, ap, ◌∙◌, sym, arith, String, true, false, if◌then◌else◌, subst,
  Outcome, err, Bool-cases, ◌⊎◌, inl, inr,
}
use oasis_ethwasi_runtime.Prelude.Bytes.{Bytes}
use oasis_ethwasi_runtime.Runtime.Types.{ExecutionResult, UnverifiedTransaction}
use oasis_ethwasi_runtime.Gateway.Client.{Error, rlp_error, signature_error, Codec}
use oasis_ethwasi_runtime.Gateway.Translator.Submission.{
  max_retries, is_full, with_hash, submit, submit_decoded, send_raw_transaction,
}

sum_cases : {A B : Type 0} (s : A ⊎ B) → ((a : A) × (s ≡ inl a)) ⊎ ((b : B) × (s ≡ inr b))
sum_cases (inl a) = inl (a, refl)
sum_cases (inr b) = inr (b, refl)

module _ {Chain : Type 0} (tx : Bytes → Chain → Chain × Outcome Error ExecutionResult) where
  -- The chain after `n` submissions of the payload.
  pub after : ℕ → Bytes → Chain → Chain
  after zero payload c = c
  after (suc n) payload c = after n payload (tx payload c).0

  -- The answer to the submission that follows the first `n`.
  abbrev answer : ℕ → Bytes → Chain → Outcome Error ExecutionResult
  answer n payload c = (tx payload (after n payload c)).1

  -- `n + 1` submissions, of which the first `n` found the block full and the last one decided: it had
  -- another answer, or no retry was left.
  pub record Submitted (retries : ℕ) (payload : Bytes) (hash : ℕ) (c : Chain)
      (r : Chain × Outcome Error (ℕ × ExecutionResult)) : Type 0 where
    pub n : ℕ
    pub bounded : n ≤ retries
    pub full : (i : ℕ) → i < n → is_full (answer i payload c) ≡ true
    pub settled : (is_full (answer n payload c) ≡ false) ⊎ (n ≡ retries)
    pub result : r ≡ (after (suc n) payload c, with_hash hash (answer n payload c))

  full_from :
      (retries : ℕ) (payload : Bytes) (hash : ℕ) (c : Chain)
      (r : Chain × Outcome Error (ℕ × ExecutionResult))
      (rest : Submitted retries payload hash (tx payload c).0 r)
      → is_full (tx payload c).1 ≡ true
      → (i : ℕ) → i < suc rest.n
      → is_full (answer i payload c) ≡ true
  unfolding after
  full_from retries payload hash c r rest e zero h = e
  full_from retries payload hash c r rest e (suc i) h = rest.full i (omega arith)

  submit-Submitted :
      (retries : ℕ) (payload : Bytes) (hash : ℕ) (c : Chain)
      → Submitted retries payload hash c (submit tx retries payload hash c)
  unfolding submit after
  submit-Submitted zero payload hash c = record {
    n = 0;
    bounded = omega arith;
    full = λ i h. absurd (omega arith);
    settled = inr refl;
    result = refl;
  }
  submit-Submitted (suc retries) payload hash c = elim (Bool-cases (is_full (tx payload c).1)) [
    | inl e ↦
        let rest = submit-Submitted retries payload hash (tx payload c).0 in
        record {
          n = suc rest.n;
          bounded = omega (arith, rest.bounded);
          full =
              full_from retries payload hash c (submit tx retries payload hash (tx payload c).0)
                rest e;
          settled = elim rest.settled [ inl a ↦ inl a | inr a ↦ inr (ap suc a) ];
          result =
              ap
                (λ b.
                  if b
                  then submit tx retries payload hash (tx payload c).0
                  else ((tx payload c).0, with_hash hash (tx payload c).1))
                e
              ∙ rest.result;
        }
    | inr e ↦ record {
      n = 0;
      bounded = omega arith;
      full = λ i h. absurd (omega arith);
      settled = inl e;
      result =
          ap
            (λ b.
              if b
              then submit tx retries payload hash (tx payload c).0
              else ((tx payload c).0, with_hash hash (tx payload c).1))
            e;
    }
  ]

  -- `r` is what comes of the payload `raw`, sent when the chain was `c`.
  pub data Sent (k : Codec) (raw : Bytes) (c : Chain)
      (r : Chain × Outcome Error (ℕ × ExecutionResult)) : Type 0 where
    undecoded :
        (u : String) → k.rlp_decode raw ≡ inl u → r ≡ (c, err (rlp_error u)) → Sent k raw c r
    unsigned :
        (t : UnverifiedTransaction) (u : String)
        → k.rlp_decode raw ≡ inr t
        → k.recover t ≡ inl u
        → r ≡ (c, err (signature_error u))
        → Sent k raw c r
    submitted :
        (t : UnverifiedTransaction) (sender : ℕ)
        → k.rlp_decode raw ≡ inr t
        → k.recover t ≡ inr sender
        → Submitted max_retries raw t.hash c r
        → Sent k raw c r

  -- A payload that does not decode, or whose signature is wrong, is refused with that error and the
  -- client is not called. Any other is submitted at most six times, again only after an answer that
  -- the block is full, and the last answer is returned, with the transaction's hash if it is a result.
  pub send_raw_transaction-Sent :
      (k : Codec) (raw : Bytes) (c : Chain) → Sent k raw c (send_raw_transaction tx k raw c)
  unfolding send_raw_transaction submit_decoded
  send_raw_transaction-Sent k raw c = elim (sum_cases (k.rlp_decode raw)) [
    | inl (u, e) ↦ undecoded u e (rw (e, send_raw_transaction))
    | inr (t, e) ↦ elim (sum_cases (k.recover t)) [
      | inl (u, f) ↦ unsigned t u e f (rw (e, send_raw_transaction, f))
      | inr (sender, f) ↦
          let run : send_raw_transaction tx k raw c ≡ submit tx max_retries raw t.hash c =
            rw (e, send_raw_transaction, f) in
          submitted t sender e f (
            subst (λ r. Submitted max_retries raw t.hash c r) (sym run)
              (submit-Submitted max_retries raw t.hash c))
    ]
  ]
