-- ===== src/Multi/Metrics.antt =====
-- multi/metrics.go: the gauges that the pool of clients reports, package variables in the source.
use go_eth2_client.Prelude.{ℕ, Text, Option, none, some, List, [], ◌∷◌, text_eq, if◌then◌else◌}

-- The label `state` of a gauge, "active" or "inactive" in the source.
pub data State : Type 0 where
  active inactive : State

pub record Totals : Type 0 where
  pub active_total : ℕ
  pub inactive_total : ℕ

-- `none` is a variable that is still nil.
pub record Metrics : Type 0 where
  pub providers_metric : Option Totals
  pub provider_active_metric : Option (List (Text × ℕ))

-- The gauge's value at a label is the newest entry.
abbrev pub gauge : Text → List (Text × ℕ) → Option ℕ
gauge k [] = none
gauge k ((j, v) ∷ m) = if text_eq j k then some v else gauge k m

-- `setProviderActiveMetric`.
abbrev pub set_provider_active_metric : Text → State → Metrics → Metrics
set_provider_active_metric provider state m = elim m.provider_active_metric [
  | none ↦ m
  | some g ↦ record m {
    provider_active_metric = some ((provider, elim state [ active ↦ 1 | inactive ↦ 0 ]) ∷ g);
  }
]

-- `setProvidersMetric`.
abbrev pub set_providers_metric : State → ℕ → Metrics → Metrics
set_providers_metric state count m = elim m.providers_metric [
  | none ↦ m
  | some t ↦ record m {
    providers_metric = some (elim state [
      | active ↦ record t { active_total = count }
      | inactive ↦ record t { inactive_total = count }
    ]);
  }
]
