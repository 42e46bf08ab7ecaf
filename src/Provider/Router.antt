-- ===== src/Provider/Router.antt =====
-- src/xenopus/provider/router.py: which models may serve a request, in the order of a policy. The
-- clock is read once for the whole selection.
pub mod Order
pub mod Selection
mod Tests
use xenopus.Prelude.{
  ℕ, ◌+◌, Bool, true, false, ◌==◌, Option, none, some, List, [], ◌∷◌, String, str_eq, Result, ok,
  err, ltb, any, is_empty, if◌then◌else◌,
}
use xenopus.Prelude.Sort.{sort_by}
use xenopus.Prelude.Text.{text_le}
use xenopus.Provider.Health.{Tracker, is_available}
use xenopus.Provider.Registry.{ModelCapability, ProviderRegistry, key, capabilities}

pub data RoutingPolicy : Type 0 where
  quality_first cost_first latency_first local_first privacy_first : RoutingPolicy

pub data RoutingError : Type 0 where
  no_candidate : RoutingError

-- `0 if tag in cap.tags else 1`
unfoldable pub tag_rank : String → ModelCapability → ℕ
tag_rank tag cap = if any (λ t. str_eq t tag) cap.tags then 0 else 1

-- The order of tuples: the first components, or the rest where they are equal
abbrev pub then_by : ℕ → ℕ → Bool → Bool
then_by a b rest = if a == b then rest else ltb a b

abbrev pub by_tag_and_cost : String → ModelCapability → ModelCapability → Bool
by_tag_and_cost tag c d =
    then_by (tag_rank tag c) (tag_rank tag d)
      (then_by c.input_cost_per_mtok d.input_cost_per_mtok (text_le (key c) (key d)))

-- The order of `sort_key`: whether the key of the first capability is at most that of the second
unfoldable pub precedes : RoutingPolicy → ModelCapability → ModelCapability → Bool
unfolding tag_rank
precedes cost_first c d =
    then_by (c.input_cost_per_mtok + c.output_cost_per_mtok)
      (d.input_cost_per_mtok + d.output_cost_per_mtok) (text_le (key c) (key d))
precedes local_first c d = by_tag_and_cost "local" c d
precedes privacy_first c d = by_tag_and_cost "private" c d
precedes latency_first c d = by_tag_and_cost "low-latency" c d
precedes quality_first c d =
    then_by (tag_rank "high-quality" c) (tag_rank "high-quality" d)
      (then_by d.context_window c.context_window (text_le (key c) (key d)))

-- `cap.key() in exclude`
unfoldable pub is_excluded : List String → ModelCapability → Bool
unfolding key
is_excluded exclude cap = any (λ k. str_eq k (key cap)) exclude

-- The comprehension of `select`: `is_available` may restore a provider, so the tracker is passed on.
unfoldable pub candidates_of :
    List String → ℕ → List ModelCapability → Tracker → List ModelCapability × Tracker
candidates_of exclude now [] tracker = ([], tracker)
candidates_of exclude now (cap ∷ caps) tracker = elim (is_excluded exclude cap) [
  | true ↦ candidates_of exclude now caps tracker
  | false ↦
      let (free, tracker') = is_available cap.provider now tracker in
      let (rest, tracker'') = candidates_of exclude now caps tracker' in
      (if free then cap ∷ rest else rest, tracker'')
]

unfoldable pub select :
    {P : Type 0}
    → RoutingPolicy
    → List String
    → ℕ
    → ProviderRegistry P
    → Tracker
    → Result RoutingError (List ModelCapability) × Tracker
unfolding candidates_of
select policy exclude now registry tracker =
    let (candidates, tracker') = candidates_of exclude now (capabilities registry) tracker in
    (
      if is_empty candidates then err no_candidate else ok (sort_by (precedes policy) candidates),
      tracker',
    )
