-- ===== src/Runtime/Plan/Walks.antt =====
-- The depth-first search of `_find_cycle` in src/xenopus/runtime/plan.py, over its visits.
use xenopus.Prelude.{Option, none, some, List, [], ◌∷◌, ◌++◌, String, str_eq, if◌then◌else◌}
use xenopus.Prelude.Dict.{Dict, lookup, insert}

pub data Color : Type 0 where
  white gray black : Color

-- The dict of colors and the path of `_find_cycle`
pub record Search : Type 0 where
  pub color : Dict Color
  pub path : List String

-- How a visit ends: with a cycle, without one, with a KeyError, or out of fuel
pub data Walk : Type 0 where
  cycle : List String → Walk
  clear : Search → Walk
  missing out_of_fuel : Walk

-- `path[path.index(nid):]`
unfoldable pub path_from : String → List String → List String
path_from nid [] = []
path_from nid (x ∷ path) = if str_eq x nid then x ∷ path else path_from nid path

-- `path.pop()`
unfoldable pub pop : List String → List String
pop [] = []
pop (x ∷ []) = []
pop (x ∷ y ∷ path) = x ∷ pop (y ∷ path)

abbrev pub enter : String → Search → Search
enter nid s = record { color = insert nid gray s.color; path = s.path ++ nid ∷ [] }

abbrev pub leave : String → Search → Search
leave nid s = record { color = insert nid black s.color; path = pop s.path }

abbrev pub and_leave : String → Walk → Walk
and_leave nid (clear s) = clear (leave nid s)
and_leave nid w = w

abbrev pub and_then : Walk → (Search → Walk) → Walk
and_then (clear s) next = next s
and_then w next = w

-- What the color of a dependency asks for
abbrev pub step : (String → Search → Walk) → String → (Search → Walk) → Search → Option Color → Walk
step visit dep next s none = missing
step visit dep next s (some gray) = cycle (path_from dep s.path)
step visit dep next s (some white) = and_then (visit dep s) next
step visit dep next s (some black) = next s

-- The loop over the sorted dependencies
unfoldable pub visit_each : (String → Search → Walk) → List String → Search → Walk
unfolding path_from
visit_each visit [] s = clear s
visit_each visit (dep ∷ deps) s =
    step visit dep (λ s'. visit_each visit deps s') s (lookup dep s.color)

-- The body of the outer loop
abbrev pub start :
    (String → Search → Walk) → String → (Search → Walk) → Search → Option Color → Walk
start visit nid next s (some white) = and_then (visit nid s) next
start visit nid next s none = missing
start visit nid next s c = next s

unfoldable pub search_each : (String → Search → Walk) → List String → Search → Walk
search_each visit [] s = clear s
search_each visit (nid ∷ nids) s =
    start visit nid (λ s'. search_each visit nids s') s (lookup nid s.color)
