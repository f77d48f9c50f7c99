-- ===== src/Gateway/Rpc/UnitTests.antt =====
-- The unit test of gateway/src/rpc.rs, as what it asserts: a host is its text.
use oasis_ethwasi_runtime.Prelude.{◌≡◌, refl, [], ◌∷◌, none, some, true, false}
use oasis_ethwasi_runtime.Prelude.Bytes.{Bytes}
use oasis_ethwasi_runtime.Prelude.Texts.{codes}
use oasis_ethwasi_runtime.Gateway.Rpc.Configuration.{address}

abbrev host : Bytes → Bytes
host text = text

abbrev ShouldReturnProperAddress : Type 0
ShouldReturnProperAddress =
    (address host false (codes "localhost") 8180 none ≡ none)
    × (address host true (codes "localhost") 8180 none ≡ some (codes "localhost:8180"))
    × (address host true (codes "localhost") 8180 (some (codes "host:443" ∷ []))
        ≡ some (codes "host:443"))
    × (address host true (codes "localhost") 8180 (some (codes "host" ∷ [])) ≡ some (codes "host"))

should_return_proper_address : ShouldReturnProperAddress
unfolding address
should_return_proper_address = (refl, refl, refl, refl)
