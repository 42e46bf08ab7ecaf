-- ===== src/Runtime/Context.antt =====
-- src/xenopus/runtime/context.py: the messages that fit into a token budget. An estimate of tokens is
-- not negative.
pub mod Assembly
pub mod Boundaries
mod Tests
use mathlib.Core.Bool.{decide}
use mathlib.Core.List.{reverse}
use Prim.Native.Char.{Char}
use xenopus.Prelude.{
  ℕ, suc, ◌+◌, ◌-◌, ◌/◌, max, Bool, true, false, not, ◌&&◌, List, [], ◌∷◌, ◌++◌, map, String,
  str_eq, Result, ok, err, ltb, leb, ◌==◌, filter, if◌then◌else◌,
}
use xenopus.Prelude.Text.{join}
use xenopus.Prelude.Sort.{sort_by}

abbrev content_boundary_open : String
content_boundary_open = "<untrusted-content>"

abbrev pub content_boundary_close : String
content_boundary_close = "</untrusted-content>"

unfoldable pub wrap_untrusted : String → String
unfolding join
wrap_untrusted content =
    join content_boundary_open (join "\n" (join content (join "\n" content_boundary_close)))

pub data Role : Type 0 where
  system user assistant tool : Role

Role-discrete : Discrete Role
Role-discrete = hlevel

pub record Message : Type 0 where
  pub role : Role
  pub content : String

pub record ContextSegment : Type 0 where
  pub message : Message
  pub protected : Bool
  pub est_tokens : ℕ

-- `len(text)`
abbrev text_length : String → ℕ
text_length String.[] = 0
text_length (String.◌∷◌ c s) = suc (text_length s)

unfoldable pub from_message : Message → Bool → ContextSegment
from_message message protected = record {
  message = message;
  protected = protected;
  est_tokens = max 1 (text_length message.content / 4);
}

-- `==` of the dataclasses
abbrev pub same_flag : Bool → Bool → Bool
same_flag true p = p
same_flag false p = not p

unfoldable pub is_same_role : Role → Role → Bool
unfolding Role-discrete decide
is_same_role a b = decide (Role-discrete a b)

unfoldable pub is_same : ContextSegment → ContextSegment → Bool
unfolding is_same_role
is_same a b =
    is_same_role a.message.role b.message.role
    && str_eq a.message.content b.message.content
    && same_flag a.protected b.protected
    && (a.est_tokens == b.est_tokens)

-- `segments.index(s)`; `assemble` asks only for segments that are there.
unfoldable pub index : ContextSegment → List ContextSegment → ℕ
index s [] = 0
index s (t ∷ segments) = if is_same t s then 0 else suc (index s segments)

unfoldable pub total : List ContextSegment → ℕ
total [] = 0
total (s ∷ segments) = s.est_tokens + total segments

abbrev pub protected_of : List ContextSegment → List ContextSegment
protected_of segments = filter (λ s. s.protected) segments

abbrev pub droppable_of : List ContextSegment → List ContextSegment
droppable_of segments = filter (λ s. not s.protected) segments

-- The loop over the droppable segments, newest first
unfoldable pub fill : ℕ → List ContextSegment → List ContextSegment
fill remaining [] = []
fill remaining (s ∷ segments) =
    let kept = s ∷ fill (remaining - s.est_tokens) segments in
    let dropped = fill remaining segments in
    if leb remaining 0 then [] else if leb s.est_tokens remaining then kept else dropped

abbrev pub kept_of : List ContextSegment → ℕ → List ContextSegment
kept_of segments token_budget =
    fill (token_budget - total (protected_of segments)) (reverse (droppable_of segments))

abbrev pub precedes : List ContextSegment → ContextSegment → ContextSegment → Bool
precedes segments a b = leb (index a segments) (index b segments)

-- `kept_segments`, sorted
unfoldable pub chosen : List ContextSegment → ℕ → List ContextSegment
unfolding fill total index
chosen segments token_budget =
    sort_by (precedes segments) (protected_of segments ++ reverse (kept_of segments token_budget))

pub data ContextError : Type 0 where
  no_budget context_budget : ContextError

unfoldable pub assemble : List ContextSegment → ℕ → Result ContextError (List Message)
unfolding chosen
assemble segments token_budget =
    if ltb token_budget 1
    then err no_budget
    else if ltb token_budget (total (protected_of segments))
    then err context_budget
    else ok (map (λ s. s.message) (chosen segments token_budget))
