-- ===== src/Prelude/Decimal.antt =====
-- Python's `f"{n:0wd}"`: the decimal digits of a number, padded with zeros on the left.
use Prim.Native.Nat.{ℕ, zero, suc, ◌+◌, ◌-◌, ◌*◌, ◌/◌, ◌%◌, ◌<◌}
use Prim.Native.Char.{Char, code}
use Prim.Native.String.{String}
use mathlib.Core.Path.{◌≡◌, refl, sym, ap, ◌∙◌}
use native.Mathlib.Omega.{arith}
use xenopus.Prelude.Tests.{ltb, if◌then◌else◌, Bool-cases}
use mathlib.Core.Logic.{inl, inr}

abbrev digit : ℕ → Char
digit zero = "0"
digit (suc zero) = "1"
digit (suc (suc zero)) = "2"
digit (suc (suc (suc zero))) = "3"
digit (suc (suc (suc (suc zero)))) = "4"
digit (suc (suc (suc (suc (suc zero))))) = "5"
digit (suc (suc (suc (suc (suc (suc zero)))))) = "6"
digit (suc (suc (suc (suc (suc (suc (suc zero))))))) = "7"
digit (suc (suc (suc (suc (suc (suc (suc (suc zero)))))))) = "8"
digit _ = "9"

code-digit : (d : ℕ) → d < 10 → code (digit d) ≡ d + 48
code-digit zero h = refl
code-digit (suc zero) h = refl
code-digit (suc (suc zero)) h = refl
code-digit (suc (suc (suc zero))) h = refl
code-digit (suc (suc (suc (suc zero)))) h = refl
code-digit (suc (suc (suc (suc (suc zero))))) h = refl
code-digit (suc (suc (suc (suc (suc (suc zero)))))) h = refl
code-digit (suc (suc (suc (suc (suc (suc (suc zero))))))) h = refl
code-digit (suc (suc (suc (suc (suc (suc (suc (suc zero)))))))) h = refl
code-digit (suc (suc (suc (suc (suc (suc (suc (suc (suc zero))))))))) h = refl
code-digit (suc (suc (suc (suc (suc (suc (suc (suc (suc (suc n)))))))))) h = absurd (omega arith)

-- The digits of `n` in front of `s`; the fuel `n + 1` is enough.
unfoldable pub digits_onto : ℕ → ℕ → String → String
digits_onto zero n s = s
digits_onto (suc f) n s =
    let rest = digits_onto f (n / 10) (String.◌∷◌ (digit (n % 10)) s) in
    if ltb n 10 then String.◌∷◌ (digit n) s else rest

abbrev count : String → ℕ
count String.[] = 0
count (String.◌∷◌ c s) = suc (count s)

unfoldable pub zeros_onto : ℕ → String → String
zeros_onto zero s = s
zeros_onto (suc k) s = String.◌∷◌ "0" (zeros_onto k s)

-- `f"{n:0{width}d}"`
unfoldable pub padded : ℕ → ℕ → String
unfolding digits_onto zeros_onto
padded width n = let s = digits_onto (suc n) n String.[] in zeros_onto (width - count s) s

-- Reading the digits back.
value : String → ℕ → ℕ
value String.[] acc = acc
value (String.◌∷◌ c s) acc = value s (acc * 10 + (code c - 48))

value-digits_onto : (f n : ℕ) (s : String) → n < f → value (digits_onto f n s) 0 ≡ value s n
unfolding value digits_onto
value-digits_onto zero n s h = absurd (omega arith)
value-digits_onto (suc f) n s h = elim (Bool-cases (ltb n 10)) [
  | inl small ↦ rw small (ap (value s) (omega (arith, code-digit n (ground arith))))
  | inr large ↦ rw large (
      value-digits_onto f (n / 10) _ (ground arith)
      ∙ ap (value s) (omega (arith, code-digit (n % 10) (omega arith))))
]

value-zeros_onto : (k : ℕ) (s : String) → value (zeros_onto k s) 0 ≡ value s 0
unfolding value zeros_onto
value-zeros_onto zero s = refl
value-zeros_onto (suc k) s = value-zeros_onto k s

value-padded : (width n : ℕ) → value (padded width n) 0 ≡ n
unfolding padded value
value-padded width n =
    let s = digits_onto (suc n) n String.[] in
    value-zeros_onto (width - count s) s ∙ value-digits_onto (suc n) n String.[] (omega arith)

-- Different numbers have different texts.
pub padded-injective : (width n m : ℕ) → padded width n ≡ padded width m → n ≡ m
padded-injective width n m e =
    sym (value-padded width n) ∙ ap (λ s. value s 0) e ∙ value-padded width m
