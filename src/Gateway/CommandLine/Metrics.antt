-- ===== src/Gateway/CommandLine/Metrics.antt =====
-- What the gateway's command line says of the metrics (gateway/bin/main.rs).
use oasis_ethwasi_runtime.Prelude.{
  ◌≡◌, refl, ap, subst, ◌∙◌, [], ◌∷◌, Option, none, some, is_some, true, false, Outcome, ok, inl,
  inr, Bool-cases, Option-cases, NoError,
}
use oasis_ethwasi_runtime.Prelude.Bytes.{Bytes}
use oasis_ethwasi_runtime.Prelude.Texts.{same, same→eq, same_refl}
use oasis_ethwasi_runtime.Prelude.Numbers.{u64_max, parse_unsigned}
use oasis_ethwasi_runtime.Prelude.Options.{Matches, Accepts, value_t, some_found, Chosen, OneOf}
use oasis_ethwasi_runtime.Gateway.CommandLine.{
  app, MetricsConfig, push, pull, metrics_config, mode_config, push_config, pull_config,
  metrics_mode_pull, metrics_mode_push, ok_else,
}

module _ {Socket : Type 0} (parse_socket : Bytes → Option Socket) (m : Matches) where
  -- What is started: nothing without a mode, an address, or one to pull from that can be read; to push, with an interval of five seconds where
  -- none can be read, and with the job and the label.
  pub data IsConfigured : Option (MetricsConfig Socket) → Type 0 where
    no_mode :
        (c : Option (MetricsConfig Socket))
        → m.value_of "prometheus-mode" ≡ none
        → c ≡ none
        → IsConfigured c
    no_address :
        (c : Option (MetricsConfig Socket))
        → m.value_of "prometheus-metrics-addr" ≡ none
        → c ≡ none
        → IsConfigured c
    bad_address :
        (c : Option (MetricsConfig Socket)) (text : Bytes)
        → m.value_of "prometheus-mode" ≡ some metrics_mode_pull
        → m.value_of "prometheus-metrics-addr" ≡ some text
        → parse_socket text ≡ none
        → c ≡ none
        → IsConfigured c
    pulls :
        (c : Option (MetricsConfig Socket)) (text : Bytes) (address : Socket)
        → m.value_of "prometheus-mode" ≡ some metrics_mode_pull
        → m.value_of "prometheus-metrics-addr" ≡ some text
        → parse_socket text ≡ some address
        → c ≡ some (pull address)
        → IsConfigured c
    pushes :
        (c : Option (MetricsConfig Socket)) (address job label : Bytes)
        → m.value_of "prometheus-mode" ≡ some metrics_mode_push
        → m.value_of "prometheus-metrics-addr" ≡ some address
        → m.value_of "prometheus-push-job-name" ≡ some job
        → m.value_of "prometheus-push-instance-label" ≡ some label
        → c
          ≡ some (
              push address
                (ok_else 5 (value_t (parse_unsigned u64_max) m "prometheus-push-interval"))
                job
                label)
        → IsConfigured c

  abbrev Configured : Outcome NoError (Option (MetricsConfig Socket)) → Type 0
  Configured r = (c : Option (MetricsConfig Socket)) × (r ≡ ok c) × IsConfigured c

  pull_mode :
      m.value_of "prometheus-mode" ≡ some metrics_mode_pull
      → Configured (pull_config parse_socket (value_t parse_socket m "prometheus-metrics-addr"))
  pull_mode mode = elim (Option-cases (m.value_of "prometheus-metrics-addr")) [
    | inl missing ↦ rw missing (none, refl, no_address none missing refl)
    | inr (text, found) ↦ elim (Option-cases (parse_socket text)) [
      | inl bad ↦ rw (found, bad) (none, refl, bad_address none text mode found bad refl)
      | inr (address, good) ↦
          rw (found, good)
            (
              some (pull address),
              refl,
              pulls (some (pull address)) text address mode found good refl,
            )
    ]
  ]

  push_mode :
      is_some (m.value_of "prometheus-push-job-name") ≡ true
      → is_some (m.value_of "prometheus-push-instance-label") ≡ true
      → m.value_of "prometheus-mode" ≡ some metrics_mode_push
      → Configured (push_config parse_socket m (value_t some m "prometheus-metrics-addr"))
  push_mode has_job has_label mode =
      let (job, found_job) = some_found (m.value_of "prometheus-push-job-name") has_job in
      let (label, found_label) =
        some_found (m.value_of "prometheus-push-instance-label") has_label in
      elim (Option-cases (m.value_of "prometheus-metrics-addr")) [
        | inl missing ↦ rw missing (none, refl, no_address none missing refl)
        | inr (address, found) ↦
            let c =
              push address
                (ok_else 5 (value_t (parse_unsigned u64_max) m "prometheus-push-interval")) job
                label in
            rw (found, found_job, found_label)
              (
                some c,
                refl,
                pushes (some c) address job label mode found found_job found_label refl,
              )
      ]

  one_of :
      (mode : Bytes)
      → same mode metrics_mode_pull ≡ false
      → same mode metrics_mode_push ≡ false
      → OneOf (metrics_mode_pull ∷ metrics_mode_push ∷ []) mode
      → ⊥
  one_of mode other neither (inl e) = cc (same_refl mode, ap (same mode) e)
  one_of mode other neither (inr (inl e)) = cc (same_refl mode, ap (same mode) e)
  one_of mode other neither (inr (inr none_left)) = elim none_left [ ]

  mode_config-Configured :
      Accepts app m
      → (mode : Option Bytes) → m.value_of "prometheus-mode" ≡ mode
      → Configured (mode_config parse_socket m mode)
  mode_config-Configured h none e = (none, refl, no_mode none e refl)
  mode_config-Configured
        (_, (_, (_, (_, (_, (_, (_, (_, (_, (_, (_, (chosen, (_, (job, (label, (_, _))))))))))))))))
        (some mode) e =
      elim (Bool-cases (same mode metrics_mode_pull)) [
        | inl pulled ↦ rw pulled (pull_mode (e ∙ ap some (same→eq _ _ pulled)))
        | inr other ↦ elim (Bool-cases (same mode metrics_mode_push)) [
          | inl pushed ↦
              let is_push = e ∙ ap some (same→eq _ _ pushed) in
              rw (other, pushed)
                (push_mode (job.conditional is_push) (label.conditional is_push) is_push)
          | inr neither ↦ absurd (
              one_of mode other neither (
                subst (λ found. Chosen (metrics_mode_pull ∷ metrics_mode_push ∷ []) found) e
                  chosen.chosen))
        ]
      ]

  -- Reading the options of the metrics from a command line that clap accepts never panics, and gives what
  -- the options say.
  pub metrics_config-IsConfigured :
      Accepts app m
      → (c : Option (MetricsConfig Socket)) × (metrics_config parse_socket m ≡ ok c)
        × IsConfigured c
  unfolding metrics_config
  metrics_config-IsConfigured h = mode_config-Configured h (m.value_of "prometheus-mode") refl
