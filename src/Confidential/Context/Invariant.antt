-- ===== src/Confidential/Context/Invariant.antt =====
-- What holds of a confidential context (confidential_ctx.rs) after any sequence of calls.
use mathlib.Core.Option
use oasis_ethwasi_runtime.Prelude.{
  ◌≡◌, refl, List, [], ◌∷◌, Option, none, some, true, arith, is_some,
}
use oasis_ethwasi_runtime.Prelude.Bytes.{Bytes}
use oasis_ethwasi_runtime.Confidential.Mrae.{Mrae, KeyPair}
use oasis_ethwasi_runtime.Confidential.Context.{
  ConfidentialCtx, new, deactivate, storage_key, activate, encrypt_session, decrypt_session,
  encrypt_storage_value,
}

-- The calls of the interface that change the context.
pub data Call : Type 0 where
  activates : Option Bytes → Call
  deactivates : Call
  encrypts_session decrypts_session : Bytes → Call
  encrypts_storage : Bytes → Bytes → Call

module _ (m : Mrae) (keys : Bytes → Option KeyPair) where
  pub call : ConfidentialCtx → Call → ConfidentialCtx
  call c (activates contract) = (activate m keys c contract).0
  call c deactivates = deactivate c
  call c (encrypts_session text) = (encrypt_session m c text).0
  call c (decrypts_session payload) = (decrypt_session m c payload).0
  call c (encrypts_storage key text) = (encrypt_storage_value m c key text).0

  pub run : ConfidentialCtx → List Call → ConfidentialCtx
  run c [] = c
  run c (x ∷ xs) = run (call c x) xs

-- The cipher and the storage nonce are those of the current contract, and there is a contract only
-- in an activated context.
pub record IsConsistent (m : Mrae) (c : ConfidentialCtx) : Type 0 where
  pub keyed : c.d2 ≡ Option.map (λ k. storage_key m (k.1)) c.contract
  pub nonced : is_some c.next_storage_nonce ≡ is_some c.contract
  pub active : is_some c.contract ≡ true → c.activated ≡ true

module _ (m : Mrae) where
  new-IsConsistent : (h : Bytes) → IsConsistent m (new h)
  unfolding new
  new-IsConsistent h = record { keyed = refl; nonced = refl; active = λ e. cc }

  deactivate-IsConsistent : (c : ConfidentialCtx) → IsConsistent m (deactivate c)
  unfolding deactivate
  deactivate-IsConsistent c = record { keyed = refl; nonced = refl; active = λ e. cc }

  activate-IsConsistent :
      (keys : Bytes → Option KeyPair) (c : ConfidentialCtx) (contract : Option Bytes)
      → IsConsistent m c
      → IsConsistent m (activate m keys c contract).0
  unfolding activate
  activate-IsConsistent keys c none v = record { keyed = refl; nonced = refl; active = λ e. refl }
  activate-IsConsistent keys c (some a) v = ground arith

  encrypt_session-IsConsistent :
      (c : ConfidentialCtx) (text : Bytes)
      → IsConsistent m c
      → IsConsistent m (encrypt_session m c text).0
  unfolding encrypt_session
  encrypt_session-IsConsistent c text v = ground arith

  decrypt_session-IsConsistent :
      (c : ConfidentialCtx) (payload : Bytes)
      → IsConsistent m c
      → IsConsistent m (decrypt_session m c payload).0
  unfolding decrypt_session
  decrypt_session-IsConsistent c payload v = ground arith

  encrypt_storage_value-IsConsistent :
      (c : ConfidentialCtx) (key text : Bytes)
      → IsConsistent m c
      → IsConsistent m (encrypt_storage_value m c key text).0
  unfolding encrypt_storage_value
  encrypt_storage_value-IsConsistent c key text v = ground arith

module _ (m : Mrae) (keys : Bytes → Option KeyPair) where
  pub call-IsConsistent :
      (c : ConfidentialCtx) (x : Call) → IsConsistent m c → IsConsistent m (call m keys c x)
  unfolding call
  call-IsConsistent c (activates contract) v = activate-IsConsistent m keys c contract v
  call-IsConsistent c deactivates v = deactivate-IsConsistent m c
  call-IsConsistent c (encrypts_session text) v = encrypt_session-IsConsistent m c text v
  call-IsConsistent c (decrypts_session payload) v = decrypt_session-IsConsistent m c payload v
  call-IsConsistent c (encrypts_storage key text) v =
      encrypt_storage_value-IsConsistent m c key text v

  run-IsConsistent :
      (c : ConfidentialCtx) (xs : List Call) → IsConsistent m c → IsConsistent m (run m keys c xs)
  unfolding run
  run-IsConsistent c [] v = v
  run-IsConsistent c (x ∷ xs) v = run-IsConsistent (call m keys c x) xs (call-IsConsistent c x v)

  -- After any calls on a new context the cipher and the storage nonce are there exactly when a
  -- contract is, the cipher is keyed by that contract's state key, and the context is activated.
  pub run-new-IsConsistent : (h : Bytes) (xs : List Call) → IsConsistent m (run m keys (new h) xs)
  run-new-IsConsistent h xs = run-IsConsistent (new h) xs (new-IsConsistent m h)
