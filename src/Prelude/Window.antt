-- ===== src/Prelude/Window.antt =====
-- Sliding windows over the times of accepted events, the newest last, as the rate limits use them.
use Prim.Native.Nat.{ℕ, ◌+◌, ◌-◌, ◌≤◌}
use mathlib.Core.Path.{◌≡◌, refl}
use mathlib.Core.List.{List, [], ◌∷◌, ◌++◌}
use native.Mathlib.Omega.{arith}
use xenopus.Prelude.Tests.{ltb, if◌then◌else◌}
use xenopus.Prelude.Lists.{length}

-- `[t for t in hits if now - t < width]`
unfoldable pub recent : ℕ → ℕ → List ℕ → List ℕ
recent width now [] = []
recent width now (t ∷ ts) =
    if ltb (now - t) width then t ∷ recent width now ts else recent width now ts

-- What is recent at a later time was recent before.
pub recent-recent :
    (width now later : ℕ) (ts : List ℕ)
    → now ≤ later
    → recent width later (recent width now ts) ≡ recent width later ts
unfolding recent
recent-recent width now later [] h = refl
recent-recent width now later (t ∷ ts) h = ground (arith, recent-recent width now later ts)

pub length-recent-append :
    (width now : ℕ) (ts us : List ℕ)
    → length (recent width now (ts ++ us))
      ≡ length (recent width now ts) + length (recent width now us)
unfolding recent
length-recent-append width now [] us = omega arith
length-recent-append width now (t ∷ ts) us = ground (arith, length-recent-append width now ts us)

pub length-recent-le : (width now : ℕ) (ts : List ℕ) → length (recent width now ts) ≤ length ts
unfolding recent
length-recent-le width now [] = omega arith
length-recent-le width now (t ∷ ts) = ground (arith, length-recent-le width now ts)

-- Accepted times, the newest first, of which no `width` holds more than `limit`: with each of them,
-- at most `limit` are recent.
abbrev pub Spaced : ℕ → ℕ → List ℕ → Type 0
Spaced width limit [] = Unit
Spaced width limit (a ∷ rest) =
    (length (recent width a (a ∷ rest)) ≤ limit) × Spaced width limit rest
