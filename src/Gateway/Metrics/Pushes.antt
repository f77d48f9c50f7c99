-- ===== src/Gateway/Metrics/Pushes.antt =====
-- What the metrics thread pushes (gateway/bin/metrics.rs).
use oasis_ethwasi_runtime.Prelude.{
  ℕ, ◌≡◌, refl, ap, List, [], ◌∷◌, Bool, true, false, length, replicate,
}
use oasis_ethwasi_runtime.Prelude.Bytes.{Bytes}
use oasis_ethwasi_runtime.Gateway.CommandLine.{pull}
use oasis_ethwasi_runtime.Gateway.Metrics.{
  Act, sleep, sent, warn, not_supported, push_metrics, push_loop, start_metrics,
}

abbrev pub pushes : List Act → List (Bytes × Bytes × Bytes)
pushes [] = []
pushes (sent address job label ∷ acts) = (address, job, label) ∷ pushes acts
pushes (sleep secs ∷ acts) = pushes acts
pushes (warn ∷ acts) = pushes acts
pushes (not_supported ∷ acts) = pushes acts

-- No failure ends the loop: in each round the metrics are pushed, to the same address under the same names.
pub push_loop-pushes :
    (address : Bytes) (period : ℕ) (job label : Bytes) (rs : List Bool)
    → pushes (push_loop address period job label rs) ≡ replicate (length rs) (address, job, label)
unfolding push_loop push_metrics
push_loop-pushes address period job label [] = refl
push_loop-pushes address period job label (true ∷ rs) =
    ap ((address, job, label) ∷◌) (push_loop-pushes address period job label rs)
push_loop-pushes address period job label (false ∷ rs) =
    ap ((address, job, label) ∷◌) (push_loop-pushes address period job label rs)

-- In pull mode no metrics are ever given away.
pub pull-pushes :
    {Socket : Type 0} (address : Socket) (rs : List Bool)
    → pushes (start_metrics (pull address) rs) ≡ []
unfolding start_metrics
pull-pushes address rs = refl
