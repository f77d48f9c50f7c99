-- ===== src/Genesis/Example.antt =====
-- A backend, and a reader of texts that are written behind a quotation mark and their length, and of
-- accounts that have no code and no storage.
use oasis_ethwasi_runtime.Prelude.{
  true, ℕ, ◌+◌, ◌≡◌, refl, ap, ◌∙◌, arith, ◌∷◌, ◌++◌, append_assoc, Option, none, some, length,
  take, drop, take-append, drop-append, length-append,
}
use oasis_ethwasi_runtime.Prelude.Bytes.{Bytes}
use oasis_ethwasi_runtime.Genesis.Playback.{ExportedAccount, Json}
use oasis_ethwasi_runtime.Genesis.Playback.Stream.{Rendering}
use oasis_ethwasi_runtime.Genesis.Import.{Backend}

abbrev pub poor : Bytes → Bytes → ExportedAccount
poor balance nonce = record { balance = balance; nonce = nonce; code = none; storage = none }

abbrev pub read_text : Bytes → Option (Bytes × ℕ)
read_text (newline ∷ quote ∷ n ∷ s) = some (take n s, n + 3)
read_text _ = none

abbrev pub read_account : Bytes → Option (ExportedAccount × ℕ)
read_account (m ∷ n ∷ s) = some (poor (take m s) (take n (drop m s)), m + n + 2)
read_account _ = none

abbrev pub json : Json
json = record { text_value = read_text; account_value = read_account }

abbrev pub write_account : ExportedAccount → Bytes
write_account a = length a.balance ∷ length a.nonce ∷ (a.balance ++ a.nonce)

abbrev pub IsPoor : ExportedAccount → Type 0
IsPoor a = poor a.balance a.nonce ≡ a

pub reads_text :
    (t rest : Bytes)
    → read_text (10 ∷ 34 ∷ length t ∷ (t ++ rest)) ≡ some (t, length (10 ∷ 34 ∷ length t ∷ t))
reads_text t rest =
    let size : length t + 3 ≡ length (10 ∷ 34 ∷ length t ∷ t) = omega arith in
    ap (λ p. some (p, length t + 3)) (take-append (length t) t rest refl)
    ∙ ap (λ n. some (t, n)) size

pub reads_account :
    (a : ExportedAccount) (rest : Bytes)
    → IsPoor a
    → read_account (write_account a ++ rest) ≡ some (a, length (write_account a))
reads_account a rest h =
    let m = length a.balance in
    let n = length a.nonce in
    let behind = a.nonce ++ rest in
    let spelled : (a.balance ++ a.nonce) ++ rest ≡ a.balance ++ behind =
      append_assoc a.balance a.nonce rest in
    let size : m + n + 2 ≡ length (write_account a) =
      omega (arith, length-append a.balance a.nonce) in
    ap (λ s. some (poor (take m s) (take n (drop m s)), m + n + 2)) spelled
    ∙ ap (λ p. some (poor p (take n (drop m (a.balance ++ behind))), m + n + 2))
        (take-append m a.balance behind refl)
    ∙ ap (λ p. some (poor a.balance (take n p), m + n + 2)) (drop-append m a.balance behind refl)
    ∙ ap (λ p. some (poor a.balance p, m + n + 2)) (take-append n a.nonce rest refl)
    ∙ ap (λ p. some (p, m + n + 2)) h
    ∙ ap (λ k. some (a, k)) size

abbrev pub rendering : Rendering json
rendering = record {
  IsText = λ t. Unit {0};
  IsAccount = IsPoor;
  text = λ t. 34 ∷ length t ∷ t;
  account = write_account;
  quoted = λ t. (length t ∷ t, refl);
  read_text = λ t rest h. reads_text t rest;
  read_account = reads_account;
}

-- A number is read by the length of its text, and a root is the number of events before it.
abbrev pub backend : Backend
backend = record {
  address = λ s. some (length s);
  u256 = λ s. some (length s);
  h256 = λ s. some (length s);
  hex = λ s. some s;
  accepts = λ op. true;
  commit = λ es. some (length es);
}
