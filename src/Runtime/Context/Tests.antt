-- ===== src/Runtime/Context/Tests.antt =====
-- A conversation, and the theorems at it.
use mathlib.Core.List.{Sublistᴰ, Memᴰ, reverse}
use xenopus.Prelude.{◌+◌, ◌≤◌, ◌<◌, ◌≡◌, ◌⊎◌, refl, arith, true, List, [], ◌∷◌, ◌++◌, map, ok, All}
use xenopus.Prelude.Sort.{sort_by}
use xenopus.Runtime.Context.{
  Role, Message, ContextSegment, total, protected_of, droppable_of, precedes, assemble, is_same,
}
use xenopus.Runtime.Context.Assembly.{assemble-Placed, assemble-moved, history}

abbrev said : Message
said = record { role = Role.user; content = "continue" }

abbrev answered : Message
answered = record { role = Role.assistant; content = "step done" }

abbrev rules : ContextSegment
rules = record {
  message = record { role = Role.system; content = "be careful" };
  protected = true;
  est_tokens = 2;
}

abbrev talk : List ContextSegment
talk = rules ∷ history said 2 ∷ history answered 3 ∷ []

assemble-Placed_example :
    (kept : List ContextSegment) × (assemble talk 5
      ≡ ok (map (λ s. s.message) (sort_by (precedes talk) (protected_of talk ++ reverse kept))))
    × Sublistᴰ kept (reverse (droppable_of talk))
    × (total (protected_of talk) + total kept ≤ 5)
    × All
        (λ s. Memᴰ s kept ⊎ (5 < total (protected_of talk) + total kept + s.est_tokens))
        (droppable_of talk)
unfolding total
assemble-Placed_example =
    assemble-Placed talk 5 (omega arith) (omega arith) (omega arith, (omega arith, tt))

assemble-moved_example :
    assemble (history said 2 ∷ history answered 3 ∷ history said 2 ∷ []) 9
    ≡ ok (said ∷ said ∷ answered ∷ [])
unfolding is_same
assemble-moved_example =
    assemble-moved said answered 2 3 9 (omega arith) (omega arith) (omega arith) refl

-- The newest message is kept, and the older one, which does not fit, is not.
newest : assemble talk 5 ≡ ok (rules.message ∷ answered ∷ [])
unfolding assemble sort_by is_same
newest = refl
