-- ===== src/Memory/Store/Tests.antt =====
-- Memories of one project, and the theorems at them.
use xenopus.Prelude.{
  Bool, ◌≤◌, ◌≡◌, refl, true, false, none, some, [], ◌∷◌, ◌++◌, String, All, length,
}
use xenopus.Prelude.Dict.{has}
use xenopus.Prelude.Sort.{sort_by}
use xenopus.Memory.Types.{
  active, semantic, episodic, MemoryScope, Evidence, MemoryRecord, MemorySearchQuery, MemoryDraft,
  same_scope, is_kind_in,
}
use xenopus.Memory.Store.{Memories, search, matches, selects, ranks_before}
use xenopus.Memory.Store.Trust.{Trusted}
use xenopus.Memory.Store.Promotions.{Call, supersede, perform, perform-Trusted}
use xenopus.Memory.Store.Searches.{Fits, search-Fits, search-kinds_after_limit}

abbrev evidence : Evidence
evidence = record {
  source = "tool";
  tool_observation_id = some "obs-1";
  journal_correlation_id = none;
}

abbrev sure : MemoryRecord
sure = record {
  item = record {
    memory_id = "mem-1";
    content = "tests run with make";
    kind = semantic;
    scope = MemoryScope.project;
    scope_ref = "p";
    source = "agent";
    confidence = 900000;
    evidence = some evidence;
    created_at = 5;
    expires_at = none;
    status = active;
  };
  reuse_count = 0;
  correction_count = 0;
  superseded_by = none;
}

abbrev lesson : MemoryRecord
lesson = record sure {
  item = record sure.item { memory_id = "mem-2"; kind = episodic; confidence = 600000 };
}

abbrev memories : Memories
memories = ("mem-2", lesson) ∷ ("mem-1", sure) ∷ []

abbrev newer : MemoryDraft
newer = record {
  content = "tests run with just";
  kind = semantic;
  scope = MemoryScope.project;
  scope_ref = "p";
  source = "agent";
  confidence = 700000;
  evidence = none;
  ttl = none;
}

abbrev change : Call
change = supersede "mem-1" "mem-3" 9 newer

perform-Trusted_example : Trusted 500000 (perform 500000 change memories)
unfolding has
perform-Trusted_example =
    perform-Trusted 500000 change memories ((refl, (refl, tt)), (refl, (refl, tt)))

abbrev like_all : String → String → Bool
like_all pattern_text content = true

abbrev query : MemorySearchQuery
query = record {
  scope = MemoryScope.project;
  scope_ref = "p";
  kinds = episodic ∷ [];
  include_stale = false;
  min_confidence = 0;
  text_substring = "";
  limit = 1;
}

search-Fits_example :
    All (Fits query) (search like_all query memories)
    × (length (search like_all query memories) ≤ 1)
search-Fits_example = search-Fits like_all query memories

ranked : matches like_all query memories ≡ (sure ∷ []) ++ (lesson ∷ [])
unfolding matches selects sort_by ranks_before same_scope
ranked = refl

search-kinds_after_limit_example : search like_all query memories ≡ []
unfolding is_kind_in
search-kinds_after_limit_example =
    search-kinds_after_limit like_all query memories (sure ∷ []) (lesson ∷ []) refl ranked refl
      (refl, tt)
