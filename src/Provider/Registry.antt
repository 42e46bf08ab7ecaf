-- ===== src/Provider/Registry.antt =====
-- src/xenopus/provider/registry.py, and `ModelCapability` of provider/types.py. A cost is a number of
-- some fixed fraction of a dollar, so that it is never negative; the provider's instance is `P`.
pub mod Backing
mod Tests
use xenopus.Prelude.{
  ℕ, ◌+◌, Bool, true, false, not, ◌||◌, Option, none, some, List, [], ◌∷◌, map, String, str_eq,
  Result, ok, err, ltb, is_empty, if◌then◌else◌,
}
use xenopus.Prelude.Dict.{Dict, lookup, insert, has, empty, keys}
use xenopus.Prelude.Sort.{sort_by}
use xenopus.Prelude.Text.{join, text_le}

pub record ModelCapability : Type 0 where
  pub provider : String
  pub model : String
  pub input_cost_per_mtok : ℕ
  pub output_cost_per_mtok : ℕ
  pub context_window : ℕ
  pub tags : List String

-- `ModelCapability.__post_init__`
pub data CapabilityError : Type 0 where
  bad_context_window : CapabilityError

unfoldable pub post_init : ModelCapability → Result CapabilityError ModelCapability
post_init cap = if ltb cap.context_window 1 then err bad_context_window else ok cap

-- `f"{self.provider}/{self.model}"`
unfoldable pub key : ModelCapability → String
unfolding join
key cap = join cap.provider (join "/" cap.model)

pub record ModelProvider (P : Type 0) : Type 0 where
  pub name : String
  pub instance_ : P

pub data RegistryError : Type 0 where
  already_registered no_capabilities name_mismatch duplicate_capability : RegistryError
  unknown_capability unknown_provider : RegistryError

pub record ProviderRegistry (P : Type 0) : Type 0 where
  pub providers : Dict (ModelProvider P)
  pub capability_of : Dict ModelCapability

-- The loop of `register` that looks for an error
unfoldable pub first_error :
    String → Dict ModelCapability → List ModelCapability → Option RegistryError
unfolding has
first_error name known [] = none
first_error name known (cap ∷ caps) =
    if str_eq cap.provider name
    then (if has (key cap) known then some duplicate_capability else first_error name known caps)
    else some name_mismatch

-- The loop of `register` that writes
unfoldable pub write_all : List ModelCapability → Dict ModelCapability → Dict ModelCapability
unfolding insert
write_all [] d = d
write_all (cap ∷ caps) d = write_all caps (insert (key cap) cap d)

abbrev pub or_unknown : Option ModelCapability → Result RegistryError ModelCapability
or_unknown none = err unknown_capability
or_unknown (some found) = ok found

module _ {P : Type 0} where
  unfoldable pub new : ProviderRegistry P
  new = record { providers = empty; capability_of = empty }

  abbrev pub unless :
      Option RegistryError
      → ProviderRegistry P
      → ProviderRegistry P
      → Result RegistryError (Unit {0}) × ProviderRegistry P
  unless none changed same = (ok tt, changed)
  unless (some e) changed same = (err e, same)

  unfoldable pub register :
      ModelProvider P
      → List ModelCapability
      → ProviderRegistry P
      → Result RegistryError (Unit {0}) × ProviderRegistry P
  unfolding has insert first_error write_all
  register provider capabilities registry =
      if has provider.name registry.providers
      then (err already_registered, registry)
      else if is_empty capabilities
      then (err no_capabilities, registry)
      else unless (first_error provider.name registry.capability_of capabilities)
          (record {
            providers = insert provider.name provider registry.providers;
            capability_of = write_all capabilities registry.capability_of;
          })
          registry

  unfoldable pub capability : String → ProviderRegistry P → Result RegistryError ModelCapability
  unfolding lookup
  capability k registry = or_unknown (lookup k registry.capability_of)

  abbrev pub provider_or_error : Option (ModelProvider P) → Result RegistryError (ModelProvider P)
  provider_or_error none = err unknown_provider
  provider_or_error (some p) = ok p

  abbrev pub backing :
      Result RegistryError ModelCapability
      → Dict (ModelProvider P)
      → Result RegistryError (ModelProvider P)
  backing (err e) providers = err e
  backing (ok found) providers = provider_or_error (lookup found.provider providers)

  -- `self._providers[cap.provider]` raises KeyError on a missing name: `unknown_provider`
  unfoldable pub provider_for : String → ProviderRegistry P → Result RegistryError (ModelProvider P)
  unfolding capability lookup
  provider_for k registry = backing (capability k registry) registry.providers

  unfoldable pub has_capability : String → ProviderRegistry P → Bool
  unfolding has
  has_capability k registry = has k registry.capability_of

abbrev pub cons_some : {A : Type 0} → Option A → List A → List A
cons_some none xs = xs
cons_some (some x) xs = x ∷ xs

-- `[d[k] for k in ks]`, for keys of `d`
unfoldable pub values_at : {V : Type 0} → List String → Dict V → List V
unfolding lookup
values_at [] d = []
values_at (k ∷ ks) d = cons_some (lookup k d) (values_at ks d)

unfoldable pub capabilities : {P : Type 0} → ProviderRegistry P → List ModelCapability
unfolding values_at
capabilities registry =
    values_at (sort_by text_le (keys registry.capability_of)) registry.capability_of
