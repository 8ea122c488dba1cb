-- ===== src/Repository/Search.antt =====
-- What a search of the prompts finds.
use prompt_manager.Base.{
  ◌≡◌, refl, sym, not, is_some, ap, ◌++◌, Bool, true, false, ◌||◌, ◌&&◌, [], ◌∷◌, map, select,
  count, page, descending,
}
use prompt_manager.Text.{Text, is_empty, has_prefix, contains, trim_space, to_lower}
use prompt_manager.Domain.{Prompt, PromptListOptions}
use prompt_manager.Store.{Engine, query, like}
use prompt_manager.Store.Wildcards.{has_wildcard, like-contains}
use prompt_manager.Repository.Paging.{limit_or, offset_of}
use prompt_manager.Repository.Prompts
use prompt_manager.Repository.Prompts.{joined, live, listed, search_of}

contains_blank : (s : Text) → contains s [] ≡ true
unfolding contains has_prefix
contains_blank [] = refl
contains_blank (c ∷ s) = refl

-- the search, trimmed and in lower case
abbrev pub searched : PromptListOptions → Text
searched opts = trim_space (to_lower opts.search)

-- a prompt whose name, in the lower case of the engine, contains the search
abbrev pub is_found : PromptListOptions → Engine → Prompt → Bool
is_found opts e p =
    (opts.include_deleted || not (is_some p.deleted_at))
    && contains (e.lower p.name) (searched opts)

listed_lem :
    (escapes : Bool) (search name : Text)
    → has_wildcard search ≡ false
    → (is_empty search || like escapes (b'%' ∷ (search ++ b'%' ∷ [])) name) ≡ contains name search
listed_lem escapes [] name h = sym (contains_blank name)
listed_lem escapes (c ∷ s) name h = like-contains escapes (c ∷ s) name h

listed-is_found :
    (opts : PromptListOptions)
    → has_wildcard (searched opts) ≡ false
    → (λ e. listed e (search_of opts) opts.include_deleted) ≡ is_found opts
listed-is_found opts plain i e p =
    (opts.include_deleted || live p)
    && listed_lem e.like_escapes (searched opts) (e.lower p.name) plain i

-- For a search that, trimmed and in lower case, has neither `%` nor `_` nor a backslash, List reads
-- the page of the prompts, with the latest changes first, whose names in the lower case of the
-- engine contain it, and Count counts them, whether or not the engine's LIKE takes a backslash for an
-- escape; a blank search stands for all names.
pub list_search :
    (opts : PromptListOptions)
    → has_wildcard (searched opts) ≡ false
    → (Prompts.list opts ≡ (
        query λ e db. map (joined db) (
          page
            (limit_or 50 opts.limit)
            (offset_of opts.offset)
            (descending (λ p. p.updated_at) (select (is_found opts e) db.prompts)))))
      × (Prompts.count_all opts ≡ (query λ e db. count (is_found opts e) db.prompts))
unfolding Prompts.list Prompts.count_all
list_search opts plain =
    let same_rows = listed-is_found opts plain in
    (
      ap
          (λ (f : Engine → Prompt → Bool). query λ e db. map (joined db) (
            page (limit_or 50 opts.limit) (offset_of opts.offset)
              (descending (λ p. p.updated_at) (select (f e) db.prompts))))
          same_rows,
      ap (λ (f : Engine → Prompt → Bool). query λ e db. count (f e) db.prompts) same_rows,
    )
