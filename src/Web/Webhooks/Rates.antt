-- ===== src/Web/Webhooks/Rates.antt =====
-- How many requests of a source the rate limit lets through in any minute.
use xenopus.Prelude.{
  ℕ, ◌≤◌, ◌≡◌, refl, ◌&&◌, List, [], ◌∷◌, ◌++◌, String, str_eq, str_eq_iff, arith, length,
  if◌then◌else◌,
}
use xenopus.Prelude.Dict.{Dict, lookup, lookup-insert}
use xenopus.Prelude.Window.{recent, recent-recent, length-recent-append, Spaced}
use xenopus.Web.Webhooks.{allow, minute, or_empty}

-- The times, the newest first, at which the calls from one source were allowed
unfoldable pub allowed_times : ℕ → String → List (String × ℕ) → Dict (List ℕ) → List ℕ → List ℕ
unfolding allow
allowed_times limit source [] hits times = times
allowed_times limit source ((from, now) ∷ calls) hits times =
    let (allowed, hits') = allow limit from now hits in
    allowed_times limit source calls hits'
      (if allowed && str_eq from source then now ∷ times else times)

-- The calls come at times that do not decrease, from this time on.
abbrev pub InOrder : ℕ → List (String × ℕ) → Type 0
InOrder last [] = Unit
InOrder last ((_, now) ∷ calls) = (last ≤ now) × InOrder now calls

-- From a time on, the bucket counts the recent ones among the times that were allowed.
abbrev Counts : ℕ → String → Dict (List ℕ) → List ℕ → Type 0
Counts last source hits times =
    (now : ℕ)
    → last ≤ now
    → length (recent minute now (or_empty (lookup source hits))) ≡ length (recent minute now times)

allow-Counts :
    (limit : ℕ) (source from : String) (last now : ℕ) (hits : Dict (List ℕ)) (times : List ℕ)
    → last ≤ now
    → Counts last source hits times
    → Counts now source
        (allow limit from now hits).1
        (if (allow limit from now hits).0 && str_eq from source then now ∷ times else times)
unfolding allow
allow-Counts limit source from last now hits times h counts later le =
    let old : List ℕ = or_empty (lookup from hits) in
    let kept : List ℕ = recent minute now old in
    ground (
      arith,
      str_eq_iff from source,
      lookup-insert from source kept hits,
      lookup-insert from source (kept ++ now ∷ []) hits,
      recent-recent minute now later old le,
      length-recent-append minute later kept (now ∷ []),
      length-recent-append minute later (now ∷ []) times,
      counts later,
    )

allow-Spaced :
    (limit : ℕ) (source from : String) (last now : ℕ) (hits : Dict (List ℕ)) (times : List ℕ)
    → last ≤ now
    → Counts last source hits times
    → Spaced minute limit times
    → Spaced minute limit
        (if (allow limit from now hits).0 && str_eq from source then now ∷ times else times)
unfolding allow recent
allow-Spaced limit source from last now hits times h counts spaced =
    ground (arith, str_eq_iff from source, counts now)

allowed_times-kept :
    (limit : ℕ) (source : String) (last : ℕ) (calls : List (String × ℕ)) (hits : Dict (List ℕ))
    (times : List ℕ)
    → InOrder last calls
    → Counts last source hits times
    → Spaced minute limit times
    → Spaced minute limit (allowed_times limit source calls hits times)
unfolding allowed_times
allowed_times-kept limit source last [] hits times order counts spaced = spaced
allowed_times-kept limit source last ((from, now) ∷ calls) hits times (h, order) counts spaced =
    allowed_times-kept limit source now calls _ _ order
      (allow-Counts limit source from last now hits times h counts)
      (allow-Spaced limit source from last now hits times h counts spaced)

-- From an empty bucket, whatever sources call `allow` at times that do not decrease: with each call
-- of a source that is allowed, at most the limit were allowed for this source within the minute that
-- ends with it.
pub allowed_times-Spaced :
    (limit : ℕ) (source : String) (start : ℕ) (calls : List (String × ℕ))
    → InOrder start calls
    → Spaced minute limit (allowed_times limit source calls [] [])
unfolding lookup
allowed_times-Spaced limit source start calls order =
    allowed_times-kept limit source start calls [] [] order (λ now h. refl) tt
