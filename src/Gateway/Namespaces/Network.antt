-- ===== src/Gateway/Namespaces/Network.antt =====
-- The identifier of the network (gateway/src/impls/net.rs).
use oasis_ethwasi_runtime.Prelude.{◌≡◌, some, arith}
use oasis_ethwasi_runtime.Prelude.Numbers.{u64_max, parse_unsigned, parse_unsigned-digits}
use oasis_ethwasi_runtime.Gateway.Namespaces.{net_version}

-- A client that parses the answer of `net_version` as a decimal number has the identifier 0xa515.
pub parse-net_version : parse_unsigned u64_max net_version ≡ some 0xa515
unfolding net_version
parse-net_version = parse_unsigned-digits u64_max 9 0xa515 (omega arith) (omega arith)
