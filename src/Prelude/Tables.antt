-- ===== src/Prelude/Tables.antt =====
-- Tables of rows by their primary key, in the order of their rowids: dicts, with the statements
-- `INSERT` and `UPDATE … WHERE key = ?`.
use mathlib.Core.Path.{◌≡◌, refl}
use mathlib.Core.Bool.{Bool, true, false}
use mathlib.Core.Logic.{inl, inr}
use mathlib.Core.Option.{Option, none, some}
use mathlib.Core.List.{[], ◌∷◌, ◌++◌}
use Prim.Native.String.{String}
use native.Mathlib.Omega.{arith}
use text.Mathlib.Text.{◌==◌ as str_eq}
use text.Mathlib.TextEquality.{eq_iff as str_eq_iff}
use xenopus.Prelude.Tests.{if◌then◌else◌, Bool-cases}
use xenopus.Prelude.Lists.{All, All-map, All-append, filter}
use xenopus.Prelude.Dict.{Dict, lookup, has, keys}

module _ {ℓ} {V : Type ℓ} where
  -- The primary key names one row at most.
  unfoldable pub alter : String → (V → V) → Dict V → Dict V
  alter k f [] = []
  alter k f ((j, v) ∷ m) = if str_eq j k then (j, f v) ∷ m else (j, v) ∷ alter k f m

  -- A new row, whose key is not there
  abbrev pub append_row : String → V → Dict V → Dict V
  append_row k v m = m ++ (k, v) ∷ []

  abbrev pub apply_to : (V → V) → Option V → Option V
  apply_to f none = none
  apply_to f (some v) = some (f v)

  pub lookup-alter :
      (k j : String) (f : V → V) (m : Dict V)
      → lookup j (alter k f m) ≡ (if str_eq k j then apply_to f (lookup j m) else lookup j m)
  unfolding lookup alter
  lookup-alter k j f [] = ground arith
  lookup-alter k j f ((i, w) ∷ m) =
      ground (arith, str_eq_iff k j, str_eq_iff i k, str_eq_iff i j, lookup-alter k j f m)

  pub lookup-append_row :
      (k j : String) (v w : V) (m : Dict V)
      → lookup j m ≡ some w
      → lookup j (append_row k v m) ≡ some w
  unfolding lookup
  lookup-append_row k j v w [] h = cc
  lookup-append_row k j v w ((i, u) ∷ m) h = ground (arith, lookup-append_row k j v w m)

  -- A predicate on the rows, kept by an update that keeps it at the row under the key
  abbrev pub Rows {κ} : (V → Type κ) → Dict V → Type κ
  Rows P m = All (λ e. P e.1) m

  pub Rows-alter {κ} :
      (P : V → Type κ) (k : String) (f : V → V) (m : Dict V)
      → ((v : V) → lookup k m ≡ some v → P v → P (f v))
      → Rows P m
      → Rows P (alter k f m)
  unfolding lookup alter
  Rows-alter P k f [] step h = tt
  Rows-alter P k f ((j, v) ∷ m) step (p, h) = elim (Bool-cases (str_eq j k)) [
    | inl e ↦ rw e (step v (rw e refl) p, h)
    | inr e ↦ rw e (p, Rows-alter P k f m (λ w found. step w (rw e found)) h)
  ]

  pub Rows-lookup {κ} :
      (P : V → Type κ) (k : String) (v : V) (m : Dict V) → Rows P m → lookup k m ≡ some v → P v
  unfolding lookup
  Rows-lookup P k v [] h e = cc
  Rows-lookup P k v ((j, w) ∷ m) (p, h) e = elim (Bool-cases (str_eq j k)) [
    | inl same ↦ let eq : w ≡ v = ground (arith, rw same at e) in rw (← eq) p
    | inr other ↦ Rows-lookup P k v m h (rw other at e)
  ]

  -- No key stands twice.
  abbrev pub IsKeyed : Dict V → Type 0
  IsKeyed [] = Unit
  IsKeyed ((k, v) ∷ m) = (has k m ≡ false) × IsKeyed m

  pub has-alter : (k j : String) (f : V → V) (m : Dict V) → has j (alter k f m) ≡ has j m
  unfolding has alter
  has-alter k j f [] = refl
  has-alter k j f ((i, w) ∷ m) = ground (arith, has-alter k j f m)

  has-append_row :
      (k j : String) (v : V) (m : Dict V)
      → has j (append_row k v m) ≡ (if has j m then true else str_eq k j)
  unfolding has
  has-append_row k j v [] = ground arith
  has-append_row k j v ((i, w) ∷ m) = ground (arith, has-append_row k j v m)

  pub alter-IsKeyed : (k : String) (f : V → V) (m : Dict V) → IsKeyed m → IsKeyed (alter k f m)
  unfolding alter
  alter-IsKeyed k f [] h = tt
  alter-IsKeyed k f ((j, v) ∷ m) (new, h) = elim (Bool-cases (str_eq j k)) [
    | inl e ↦ rw e (new, h)
    | inr e ↦ rw e (rw (has-alter k j f m) new, alter-IsKeyed k f m h)
  ]

  pub append_row-IsKeyed :
      (k : String) (v : V) (m : Dict V) → has k m ≡ false → IsKeyed m → IsKeyed (append_row k v m)
  unfolding has
  append_row-IsKeyed k v [] new h = (refl, tt)
  append_row-IsKeyed k v ((j, w) ∷ m) new (old, h) = (
    ground (arith, has-append_row k j v m, str_eq_iff k j, str_eq_iff j k),
    append_row-IsKeyed k v m (ground arith) h,
  )

  pub has_of_lookup : (k : String) (v : V) (m : Dict V) → lookup k m ≡ some v → has k m ≡ true
  unfolding lookup has
  has_of_lookup k v [] h = cc
  has_of_lookup k v ((j, w) ∷ m) h = ground (arith, has_of_lookup k v m)

  -- The row under a key, with what it satisfies
  abbrev pub Finds : (V → Bool) → Dict V → String → Type ℓ
  Finds p m k = (v : V) × (lookup k m ≡ some v) × (p v ≡ true)

  -- The keys that a `SELECT` returns name rows that it selects.
  pub keys-filter-Finds :
      (p : V → Bool) (m : Dict V) → IsKeyed m → All (Finds p m) (keys (filter (λ e. p e.1) m))
  unfolding lookup
  keys-filter-Finds p [] h = tt
  keys-filter-Finds p ((j, v) ∷ m) (new, h) =
      let rest =
        All-map (Finds p m) (Finds p ((j, v) ∷ m))
          (λ k found. (found.0, ground (arith, str_eq_iff j k, has_of_lookup k found.0 m), found.2))
          (keys (filter (λ e. p e.1) m)) (keys-filter-Finds p m h) in
      elim (Bool-cases (p v)) [
        | inl e ↦ rw e ((v, rw ((str_eq_iff j j).1 refl) refl, e), rest)
        | inr e ↦ rw e rest
      ]

  pub Rows-append_row {κ} :
      (P : V → Type κ) (k : String) (v : V) (m : Dict V)
      → Rows P m
      → P v
      → Rows P (append_row k v m)
  Rows-append_row P k v m h p = All-append (λ e. P e.1) m ((k, v) ∷ []) h (p, tt)
