-- ===== src/Gateway/EthFilter/Tests.antt =====
-- Two polls of a block filter and of a log filter.
use oasis_ethwasi_runtime.Prelude.{ℕ, ◌≡◌, refl, List, [], ◌∷◌, Option, none, some, true, err}
use oasis_ethwasi_runtime.Gateway.Client.{Filter, block_not_found}
use oasis_ethwasi_runtime.Gateway.Translator.{LocalizedLogEntry}
use oasis_ethwasi_runtime.Gateway.Example.{chain, codec, everything, block}
use oasis_ethwasi_runtime.Gateway.EthFilter.{
  PollFilter, block_filter, logs_filter, PollManager, PollLaws, fetch_hashes, filter_changes,
  changes_of,
}
use oasis_ethwasi_runtime.Gateway.EthFilter.Changes.{
  IsReport, block_filter_polls, quiet_log_filter_fails,
}

-- A table of one filter.
abbrev Table : Type 0
Table = Option (PollFilter Filter)

abbrev table : PollManager Filter Table
table = record {
  create_poll = λ f p. (some f, 0);
  poll = λ id p. (p, p);
  store = λ id f p. some f;
  remove_poll = λ id p. (none, true);
}

table_laws : PollLaws table
table_laws = record { poll-store = λ id f g p h. refl }

abbrev into : Filter → Filter
into f = f

abbrev limit : List LocalizedLogEntry → Option ℕ → List LocalizedLogEntry
limit ls n = ls

-- Block 3 is reported by both polls.
block_filter_polls_example :
    IsReport (chain 3) 2 3 (102 ∷ 103 ∷ []) × IsReport (chain 4) 3 4 (103 ∷ 104 ∷ [])
unfolding filter_changes changes_of fetch_hashes
block_filter_polls_example =
    block_filter_polls table table_laws codec into limit (chain 3) (chain 3) (chain 4) (chain 4) 0 2
      (some (block_filter 2)) (block 3) (block 4) (102 ∷ 103 ∷ []) (103 ∷ 104 ∷ []) refl refl refl
      refl refl

abbrev first : Table
first = some (logs_filter 2 everything)

quiet_log_filter_fails_example :
    (filter_changes table codec into limit
      (chain 3)
      (chain 3)
      0
      (filter_changes table codec into limit (chain 3) (chain 3) 0 first).0).1
    ≡ err block_not_found
quiet_log_filter_fails_example =
    quiet_log_filter_fails table table_laws codec into limit (chain 3) (chain 3) (chain 3) (chain 3)
      0 2 everything first (block 3) (block 3) refl refl refl refl refl
