-- ===== src/Web/Webhooks/Nonces.antt =====
-- How long the registry remembers a nonce.
use xenopus.Prelude.{ℕ, ◌+◌, ◌≤◌, ◌<◌, ◌≡◌, true, false, some, [], ◌∷◌, String, str_eq_iff, arith}
use xenopus.Prelude.Dict.{Dict, lookup, insert, has, lookup-insert}
use xenopus.Web.Webhooks.{fresh, unexpired, or_empty}

-- This nonce of this source is recorded, with the time at which it was seen.
abbrev pub Recorded : String → String → ℕ → Dict (Dict ℕ) → Type 0
Recorded source nonce at seen = lookup nonce (or_empty (lookup source seen)) ≡ some at

lookup-unexpired :
    (ttl now at : ℕ) (n : String) (d : Dict ℕ)
    → now ≤ at + ttl
    → lookup n d ≡ some at
    → lookup n (unexpired ttl now d) ≡ some at
unfolding lookup unexpired
lookup-unexpired ttl now at n [] h e = cc
lookup-unexpired ttl now at n ((k, v) ∷ d) h e = ground (arith, lookup-unexpired ttl now at n d)

has_of_lookup : (n : String) (d : Dict ℕ) {v : ℕ} → lookup n d ≡ some v → has n d ≡ true
unfolding lookup has
has_of_lookup n [] e = cc
has_of_lookup n ((k, w) ∷ d) {v} e = ground (arith, has_of_lookup n d {v = v})

has-unexpired-insert :
    (ttl at later : ℕ) (n : String) (d : Dict ℕ)
    → has n d ≡ false
    → at + ttl < later
    → has n (unexpired ttl later (insert n at d)) ≡ false
unfolding has unexpired insert
has-unexpired-insert ttl at later n [] h late = ground (arith, str_eq_iff n n)
has-unexpired-insert ttl at later n ((k, v) ∷ d) h late =
    ground (arith, has-unexpired-insert ttl at later n d)

-- A fresh nonce is recorded.
pub fresh-Recorded :
    (ttl : ℕ) (source nonce : String) (now : ℕ) (seen : Dict (Dict ℕ))
    → (fresh ttl source nonce now seen).0 ≡ true
    → Recorded source nonce now (fresh ttl source nonce now seen).1
unfolding fresh
fresh-Recorded ttl source nonce now seen h =
    let kept : Dict ℕ = unexpired ttl now (or_empty (lookup source seen)) in
    ground (
      arith,
      lookup-insert source source (insert nonce now kept) seen,
      str_eq_iff source source,
      lookup-insert nonce nonce now kept,
      str_eq_iff nonce nonce,
    )

-- It stays recorded as long as every call comes within its time to live.
pub Recorded-fresh :
    (ttl : ℕ) (source nonce : String) (at : ℕ) (source' nonce' : String) (now : ℕ)
    (seen : Dict (Dict ℕ))
    → now ≤ at + ttl
    → Recorded source nonce at seen
    → Recorded source nonce at (fresh ttl source' nonce' now seen).1
unfolding fresh
Recorded-fresh ttl source nonce at source' nonce' now seen h r =
    let kept : Dict ℕ = unexpired ttl now (or_empty (lookup source' seen)) in
    ground (
      arith,
      lookup-insert source' source (insert nonce' now kept) seen,
      lookup-insert source' source kept seen,
      str_eq_iff source' source,
      lookup-insert nonce' nonce now kept,
      str_eq_iff nonce' nonce,
      lookup-unexpired ttl now at nonce (or_empty (lookup source seen)),
      has_of_lookup nonce kept {v = at},
    )

-- And so long it is not fresh.
pub Recorded-not_fresh :
    (ttl : ℕ) (source nonce : String) (at now : ℕ) (seen : Dict (Dict ℕ))
    → now ≤ at + ttl
    → Recorded source nonce at seen
    → (fresh ttl source nonce now seen).0 ≡ false
unfolding fresh
Recorded-not_fresh ttl source nonce at now seen h r =
    let kept : Dict ℕ = unexpired ttl now (or_empty (lookup source seen)) in
    ground (
      arith,
      lookup-unexpired ttl now at nonce (or_empty (lookup source seen)),
      has_of_lookup nonce kept {v = at},
    )

-- Once its time to live has passed, the same nonce is fresh again.
pub fresh_again :
    (ttl : ℕ) (source nonce : String) (at later : ℕ) (seen : Dict (Dict ℕ))
    → (fresh ttl source nonce at seen).0 ≡ true
    → at + ttl < later
    → (fresh ttl source nonce later (fresh ttl source nonce at seen).1).0 ≡ true
unfolding fresh
fresh_again ttl source nonce at later seen h late =
    let kept : Dict ℕ = unexpired ttl at (or_empty (lookup source seen)) in
    ground (
      arith,
      lookup-insert source source (insert nonce at kept) seen,
      str_eq_iff source source,
      has-unexpired-insert ttl at later nonce kept,
    )
