-- ===== src/Provider/Registry/Backing.antt =====
-- Every capability of a registry stands under its own key and is backed by a registered provider.
use xenopus.Prelude.{
  ◌≡◌, ◌≢◌, ◌⊎◌, sym, false, none, some, List, [], ◌∷◌, String, str_eq, str_eq_iff, ok, arith,
  Bool-cases, Option-cases, inl, inr, is_empty,
}
use xenopus.Prelude.Dict.{Dict, lookup, insert, has, lookup-insert}
use xenopus.Provider.Registry.{
  ModelCapability, ModelProvider, ProviderRegistry, key, first_error, write_all, register,
  provider_for,
}

has-lookup_ne :
    {V : Type 0} (k : String) (d : Dict V) {v : V} → has k d ≡ false → lookup k d ≢ some v
unfolding has lookup
has-lookup_ne k [] h e = cc
has-lookup_ne k ((j, w) ∷ d) {v} h e = ground (arith, has-lookup_ne k d {v = v})

-- What stands under a key after the loop that writes stood there before, or was written.
write_all-cases :
    (name : String) (known : Dict ModelCapability) (caps : List ModelCapability)
    (d : Dict ModelCapability) (k : String) (c : ModelCapability)
    → first_error name known caps ≡ none
    → lookup k (write_all caps d) ≡ some c
    → (lookup k d ≡ some c) ⊎ ((key c ≡ k) × (c.provider ≡ name))
unfolding first_error write_all
write_all-cases name known [] d k c fine found = inl found
write_all-cases name known (x ∷ xs) d k c fine found =
    elim (write_all-cases name known xs (insert (key x) x d) k c (ground arith) found) [
      | inr h ↦ inr h
      | inl h ↦ elim (Bool-cases (str_eq (key x) k)) [
        | inl e ↦ inr (
            ground (
              arith,
              lookup-insert (key x) k x d,
              str_eq_iff (key x) k,
              str_eq_iff x.provider name,
            ))
        | inr e ↦ inl (ground (arith, lookup-insert (key x) k x d))
      ]
    ]

module _ {P : Type 0} where
  abbrev pub Backed : ProviderRegistry P → Type 0
  Backed r =
      (k : String) (c : ModelCapability)
      → lookup k r.capability_of ≡ some c
      → (key c ≡ k)
        × (p : ModelProvider P) × (lookup c.provider r.providers ≡ some p)
        × (p.name ≡ c.provider)

  register_all-Backed :
      (p : ModelProvider P) (caps : List ModelCapability) (r : ProviderRegistry P)
      → has p.name r.providers ≡ false
      → first_error p.name r.capability_of caps ≡ none
      → Backed r
      → Backed (record {
        providers = insert p.name p r.providers;
        capability_of = write_all caps r.capability_of;
      })
  register_all-Backed p caps r fresh fine b k c found =
      elim (write_all-cases p.name r.capability_of caps r.capability_of k c fine found) [
        | inl old ↦
            let (same_key, q, there, named) = b k c old in
            (
              same_key,
              q,
              ground (
                arith,
                lookup-insert p.name c.provider p r.providers,
                str_eq_iff p.name c.provider,
                has-lookup_ne p.name r.providers {v = q},
              ),
              named,
            )
        | inr (same_key, named) ↦ (
          same_key,
          p,
          ground
              (arith, lookup-insert p.name c.provider p r.providers, str_eq_iff p.name c.provider),
          sym named,
        )
      ]

  -- Registration keeps it, on every path, errors included: a capability stands under its own key, and
  -- the provider that it names is registered under that name.
  pub register-Backed :
      (p : ModelProvider P) (caps : List ModelCapability) (r : ProviderRegistry P)
      → Backed r
      → Backed (register p caps r).1
  unfolding register
  register-Backed p caps r b = elim (Bool-cases (has p.name r.providers)) [
    | inl taken ↦ rw taken b
    | inr fresh ↦ elim (Bool-cases (is_empty caps)) [
      | inl none_given ↦ rw (fresh, none_given) b
      | inr some_given ↦ elim (Option-cases (first_error p.name r.capability_of caps)) [
        | inl fine ↦ rw (fresh, some_given, fine) (register_all-Backed p caps r fresh fine b)
        | inr (e, wrong) ↦ rw (fresh, some_given, wrong) b
      ]
    ]
  ]

  -- In such a registry `provider_for` answers for every registered key: it raises for an unknown key
  -- only, and the provider that it returns is the one that the capability names.
  pub provider_for-Backed :
      (k : String) (c : ModelCapability) (r : ProviderRegistry P)
      → Backed r
      → lookup k r.capability_of ≡ some c
      → (p : ModelProvider P) × (provider_for k r ≡ ok p) × (p.name ≡ c.provider)
  unfolding provider_for
  provider_for-Backed k c r b found =
      let (_, p, there, named) = b k c found in (p, ground arith, named)
