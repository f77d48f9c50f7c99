-- ===== src/Gateway/RpcApis/Tests.antt =====
-- Lists of API names.
use oasis_ethwasi_runtime.Prelude.{List, ◌⊎◌}
use oasis_ethwasi_runtime.Prelude.Bytes.{Bytes}
use oasis_ethwasi_runtime.Prelude.Texts.{codes}
use oasis_ethwasi_runtime.Gateway.RpcApis.{Api}
use oasis_ethwasi_runtime.Gateway.RpcApis.Parsing.{Parses, FailsAt, set_from_str-Verdict}

abbrev without_net : Bytes
without_net = codes "all,-net,web3,-shh"

set_from_str-Verdict_example :
    ((apis : List Api) × Parses without_net apis)
    ⊎ ((before : List Bytes) × (p : Bytes) × (after : List Bytes) × FailsAt before p after
          without_net)
set_from_str-Verdict_example = set_from_str-Verdict without_net
