-- ===== src/Confidential/Example.antt =====
-- A box, a cipher and nonces to evaluate the confidential modules with. They keep no secret: sealing
-- puts a byte in front of the text.
use oasis_ethwasi_runtime.Prelude.{
  ℕ, suc, ◌+◌, ◌≡◌, refl, [], ◌∷◌, some, drop, length, ltb, if◌then◌else◌, Outcome, ok, err, arith,
  Bool-cases, inl, inr, String, ap, sym, ◌∙◌,
}
use oasis_ethwasi_runtime.Prelude.Bytes.{Bytes}
use oasis_ethwasi_runtime.Confidential.Mrae.{KeyPair, Mrae, BoxLaws, SealLaws, NonceLaws}

abbrev pub increment : Bytes → Outcome String Bytes
increment (a ∷ b ∷ []) = if ltb b 255 then ok (a ∷ (b + 1) ∷ []) else err "counter overflow"
increment _ = err "not a nonce"

abbrev pub toy : Mrae
toy = record {
  public_key_len = 2;
  nonce_size = 2;
  nonce_tag_size = 1;
  tag_size = 1;
  key_size = 1;
  box_seal = λ nonce text aad peer sk. ok (7 ∷ text);
  box_open = λ nonce sealed aad peer sk. some (drop 1 sealed);
  seal = λ key nonce text aad. 9 ∷ text;
  unseal = λ key nonce text aad. some (drop 1 text);
  digest = λ x. x;
  keccak = λ x. x;
  increment = increment;
}

abbrev pub Matches : Bytes → Bytes → Type 0
Matches pk sk = pk ≡ sk

pub toy_box : BoxLaws toy Matches
toy_box = record {
  open-seal = λ nonce text aad pk sk peer_pk peer_sk sealed own peer e.
      let same : 7 ∷ text ≡ sealed = cc in ap (λ xs. some (drop 1 xs)) (sym same);
}

pub toy_seal : SealLaws toy
toy_seal = record { unseal-seal = λ key nonce text aad. refl }

abbrev pub counter : Bytes → ℕ
counter (a ∷ b ∷ []) = b
counter _ = 0

counter-increment : (n n' : Bytes) → increment n ≡ ok n' → counter n' ≡ suc (counter n)
counter-increment [] n' h = cc
counter-increment (a ∷ []) n' h = cc
counter-increment (a ∷ b ∷ c ∷ n) n' h = cc
counter-increment (a ∷ b ∷ []) n' h = elim (Bool-cases (ltb b 255)) [
  | inl e ↦ let same : a ∷ (b + 1) ∷ [] ≡ n' = ground arith in ap counter (sym same) ∙ omega arith
  | inr e ↦ ground arith
]

length-increment : (n n' : Bytes) → increment n ≡ ok n' → length n' ≡ length n
length-increment [] n' h = cc
length-increment (a ∷ []) n' h = cc
length-increment (a ∷ b ∷ c ∷ n) n' h = cc
length-increment (a ∷ b ∷ []) n' h = elim (Bool-cases (ltb b 255)) [
  | inl e ↦ let same : a ∷ (b + 1) ∷ [] ≡ n' = ground arith in ap length (sym same)
  | inr e ↦ ground arith
]

pub toy_nonces : NonceLaws toy counter
toy_nonces = record { counts = counter-increment; keeps_len = length-increment }

abbrev pub nonce : Bytes
nonce = 0 ∷ 5 ∷ []

abbrev pub client_key : Bytes
client_key = 1 ∷ 2 ∷ []

abbrev pub contract_key : Bytes
contract_key = 3 ∷ 4 ∷ []

abbrev pub text : Bytes
text = 104 ∷ 105 ∷ []

abbrev pub aad : Bytes
aad = 6 ∷ []

abbrev pub pair : KeyPair
pair = record { public_key = contract_key; private_key = contract_key; state_key = 8 ∷ 8 ∷ [] }
