-- ===== src/Repository/Tests.antt =====
-- Searches at small inputs.
use prompt_manager.Base.{◌≡◌, refl, true, false, map, select, count, page, descending, pos}
use prompt_manager.Text.{codes, trim_space, to_lower, contains}
use prompt_manager.Domain.{PromptListOptions}
use prompt_manager.Store.{query, like}
use prompt_manager.Repository.Paging.{limit_or, offset_of}
use prompt_manager.Repository.Prompts
use prompt_manager.Repository.Prompts.{joined, search_pattern}
use prompt_manager.Repository.Search.{is_found, list_search}

abbrev greet : PromptListOptions
greet = record { limit = pos 10; offset = pos 0; search = codes " GREET "; include_deleted = false }

list_search_example :
    (Prompts.list greet ≡ (
      query λ e db. map (joined db) (
        page
          (limit_or 50 (pos 10))
          (offset_of (pos 0))
          (descending (λ p. p.updated_at) (select (is_found greet e) db.prompts)))))
    × (Prompts.count_all greet ≡ (query λ e db. count (is_found greet e) db.prompts))
unfolding trim_space to_lower
list_search_example = list_search greet refl

-- A search of "_" finds a name without it.
underscore_found : like false (search_pattern (codes "_")) (codes "greeting") ≡ true
unfolding like
underscore_found = refl

underscore_missing : contains (codes "greeting") (codes "_") ≡ false
unfolding contains
underscore_missing = refl

-- On PostgreSQL a backslash in a search takes the meaning from the wildcard behind it.
escaped : like true (search_pattern (codes "\\_")) (codes "a_b") ≡ true
unfolding like
escaped = refl

unescaped : like false (search_pattern (codes "\\_")) (codes "a_b") ≡ false
unfolding like
unescaped = refl

-- A search is lowered beyond ASCII.
lowered : to_lower (codes "ÄΩЖ") ≡ codes "äωж"
unfolding to_lower
lowered = refl
