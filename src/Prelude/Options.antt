-- ===== src/Prelude/Options.antt =====
-- What the programs take from clap: the declaration of the options, and what was found on a command line.
-- The parser of the command line is clap's; `Accepts` says what it documents of the matches it returns.
use Prim.Native.String.{String}
use Prim.Native.Nat.{ℕ}
use text.Mathlib.Text.{◌==◌}
use mathlib.Core.Path.{◌≡◌, refl}
use mathlib.Core.Logic.{◌⊎◌}
use mathlib.Core.Bool.{Bool, true, false}
use mathlib.Core.Option.{Option, none, some}
use mathlib.Core.List.{List, [], ◌∷◌}
use oasis_ethwasi_runtime.Prelude.Tests.{is_some, if◌then◌else◌}
use oasis_ethwasi_runtime.Prelude.Lists.{All}
use oasis_ethwasi_runtime.Prelude.Results.{Outcome, ok, err}
use oasis_ethwasi_runtime.Prelude.Bytes.{Bytes}

-- A declared option that takes a value.
pub record Arg : Type 0 where
  pub name : String
  pub required : Bool
  pub default_value : Option Bytes
  pub possible_values : List Bytes
  -- Required where the option named has this value.
  pub required_if : Option (String × Bytes)
  -- The option that it cannot stand without.
  pub requires : Option String

abbrev pub optional : String → Arg
optional name = record {
  name = name;
  required = false;
  default_value = none;
  possible_values = [];
  required_if = none;
  requires = none;
}

abbrev pub required : String → Arg
required name = record (optional name) { required = true }

abbrev pub with_default : String → Bytes → Arg
with_default name value = record (optional name) { default_value = some value }

pub record Matches : Type 0 where
  pub value_of : String → Option Bytes
  -- How often the flag `-v` was given.
  pub verbosity : ℕ

abbrev pub OneOf : List Bytes → Bytes → Type 0
OneOf [] v = ⊥
OneOf (p ∷ ps) v = (v ≡ p) ⊎ OneOf ps v

abbrev pub Chosen : List Bytes → Option Bytes → Type 0
Chosen [] found = Unit {0}
Chosen (p ∷ ps) none = Unit {0}
Chosen (p ∷ ps) (some v) = OneOf (p ∷ ps) v

abbrev pub HasDefault : Option Bytes → Option Bytes → Type 0
HasDefault none found = Unit {0}
HasDefault (some d) found = is_some found ≡ true

abbrev pub HasWhere : Matches → Option (String × Bytes) → Option Bytes → Type 0
HasWhere m none found = Unit {0}
HasWhere m (some (other, v)) found = m.value_of other ≡ some v → is_some found ≡ true

abbrev pub HasOther : Matches → Option String → Option Bytes → Type 0
HasOther m none found = Unit {0}
HasOther m (some other) found = is_some found ≡ true → is_some (m.value_of other) ≡ true

-- An option that is required or has a default has a value; a value is one of those possible, if they are
-- listed; an option has a value where another one says so, and not where the one that it needs has none.
pub record Meets (m : Matches) (a : Arg) : Type 0 where
  pub present : a.required ≡ true → is_some (m.value_of a.name) ≡ true
  pub defaulted : HasDefault a.default_value (m.value_of a.name)
  pub chosen : Chosen a.possible_values (m.value_of a.name)
  pub conditional : HasWhere m a.required_if (m.value_of a.name)
  pub accompanied : HasOther m a.requires (m.value_of a.name)

abbrev pub Accepts : List Arg → Matches → Type 0
Accepts app m = All (Meets m) app

-- What `value_t!` fails with.
pub data ArgError : Type 0 where
  argument_not_found : String → ArgError
  value_validation : String → Bytes → ArgError

abbrev pub validated {ℓ} : {A : Type ℓ} → String → Bytes → Option A → Outcome ArgError A
validated name text none = err (value_validation name text)
validated name text (some a) = ok a

abbrev pub parse_found {ℓ} :
    {A : Type ℓ} → (Bytes → Option A) → String → Option Bytes → Outcome ArgError A
parse_found parse name none = err (argument_not_found name)
parse_found parse name (some text) = validated name text (parse text)

-- `value_t!`: the value of an option, parsed.
abbrev pub value_t {ℓ} : {A : Type ℓ} → (Bytes → Option A) → Matches → String → Outcome ArgError A
value_t parse m name = parse_found parse name (m.value_of name)

pub some_found {ℓ} :
    {A : Type ℓ} (found : Option A) → is_some found ≡ true → (a : A) × (found ≡ some a)
some_found none h = cc
some_found (some a) h = (a, refl)

-- The value that a list of options and values has for a name.
abbrev pub look : String → List (String × Bytes) → Option Bytes
look name [] = none
look name ((other, text) ∷ rest) = if other == name then some text else look name rest
