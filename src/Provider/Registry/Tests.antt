-- ===== src/Provider/Registry/Tests.antt =====
-- A registry with one provider and two models.
use xenopus.Prelude.{[], ◌∷◌}
use xenopus.Prelude.Dict.{lookup}
use xenopus.Provider.Registry.{
  ModelCapability, ModelProvider, ProviderRegistry, new, register, first_error, write_all, key,
}
use xenopus.Provider.Registry.Backing.{Backed}

abbrev small : ModelCapability
small = record {
  provider = "p";
  model = "small";
  input_cost_per_mtok = 1;
  output_cost_per_mtok = 2;
  context_window = 8000;
  tags = [];
}

abbrev large : ModelCapability
large = record small {
  model = "large";
  input_cost_per_mtok = 5;
  context_window = 64000;
  tags = "high-quality" ∷ [];
}

abbrev p : ModelProvider (Unit {0})
p = record { name = "p"; instance_ = tt }

abbrev stocked : ProviderRegistry (Unit {0})
stocked = (register p (small ∷ large ∷ []) new).1

program : Unit {0}
unfolding new register first_error write_all key lookup
program = tt

new-Backed : Backed {P = Unit {0}} new
unfolding program
new-Backed k c h = cc
