-- ===== src/Provider/Router/Tests.antt =====
-- Selections from a registry with two models.
use mathlib.Core.List.{Perm}
use xenopus.Prelude.{◌≡◌, ◌⊎◌, refl, List, [], ◌∷◌, ok, err, filter}
use xenopus.Prelude.Sort.{sort_by, Ascends}
use xenopus.Prelude.Text.{text_le}
use xenopus.Provider.Health.{Tracker, record_failure, is_available, snapshot, healthy_snapshot}
use xenopus.Provider.Registry.{ModelCapability, ProviderRegistry, capabilities, key}
use xenopus.Provider.Router.{
  cost_first, quality_first, no_candidate, precedes, is_excluded, candidates_of, select,
}
use xenopus.Provider.Router.Selection.{is_usable, select_lem}

abbrev small : ModelCapability
small = record {
  provider = "p";
  model = "small";
  input_cost_per_mtok = 1;
  output_cost_per_mtok = 2;
  context_window = 8000;
  tags = [];
}

abbrev large : ModelCapability
large = record small { provider = "q"; model = "large"; context_window = 64000 }

abbrev registry : ProviderRegistry (Unit {0})
registry = record {
  providers =
      ("p", record { name = "p"; instance_ = tt })
      ∷ ("q", record { name = "q"; instance_ = tt })
      ∷ [];
  capability_of = ("p/small", small) ∷ ("q/large", large) ∷ [];
}

abbrev fresh : Tracker
fresh = record { rate_limit_cooldown = 30; unavailable_cooldown = 60; threshold = 1; states = [] }

program : Unit {0}
unfolding select candidates_of is_excluded is_available precedes capabilities sort_by text_le key
    record_failure snapshot healthy_snapshot
program = tt

by_quality : (select quality_first [] 5 registry fresh).0 ≡ ok (large ∷ small ∷ [])
unfolding program
by_quality = refl

select_lem_example :
    ((filter (is_usable [] 5 fresh) (capabilities registry) ≡ [])
      × ((select cost_first [] 5 registry fresh).0 ≡ err no_candidate))
    ⊎ ((chain : List ModelCapability) × ((select cost_first [] 5 registry fresh).0 ≡ ok chain)
        × Perm chain (filter (is_usable [] 5 fresh) (capabilities registry))
        × Ascends (precedes cost_first) chain)
select_lem_example = select_lem cost_first [] 5 registry fresh
