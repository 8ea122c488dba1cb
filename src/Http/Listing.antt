-- ===== src/Http/Listing.antt =====
-- The listing of prompts, as the handler answers it.
use prompt_manager.Base.{
  ℕ, zero, suc, ◌+◌, ◌-◌, ◌<◌, ◌≡◌, refl, sym, ap, ◌∙◌, ℤ, pos, half_word, int64, List, [], ◌∷◌,
  arith, length, drop, page, select, descending, map, length-take_eq, length-drop, int64_small,
  length-select, length-descending, ltb, if◌then◌else◌,
}
use prompt_manager.Text.{Text, trim_space}
use prompt_manager.Domain.{Error, Prompt, PromptListOptions, Result, ok}
use prompt_manager.Store.{World, Database, Action, pure}
use prompt_manager.Store.Quiet.{IsQuiet, query_then_quiet}
use prompt_manager.Repository.Paging.{limit_or, offset_of}
use prompt_manager.Repository.Prompts
use prompt_manager.Repository.Prompts.{joined, listed, search_of}
use prompt_manager.Prompt.{list_prompts}
use prompt_manager.Http.Response.{Response, respond_ok, Handler, answer_with}
use prompt_manager.Http.Query.{parse_pagination, parse_flag}
use prompt_manager.Http.Prompts.Handlers.{is_before, list_prompts_handler}

length-map : {A B : Type 0} (f : A → B) (xs : List A) → length (map f xs) ≡ length xs
length-map f [] = refl
length-map f (x ∷ xs) = ap suc (length-map f xs)

-- the rows of a listing, the latest change first
abbrev pub matching : PromptListOptions → World → List Prompt
matching opts w =
    descending (λ p. p.updated_at)
      (select (listed w.engine (search_of opts) opts.include_deleted) w.db.prompts)

list_prompts_quiet :
    (opts : PromptListOptions) (w : World)
    → IsQuiet w
    → let repo_opts = record opts { search = trim_space opts.search } in
      list_prompts opts w ≡ (
        ok (
          map
              (joined w.db)
              (page (limit_or 50 opts.limit) (offset_of opts.offset) (matching repo_opts w)),
          length (matching repo_opts w),
        ),
        w,
      )
unfolding list_prompts Prompts.list Prompts.count_all pure
list_prompts_quiet opts w q =
    let repo_opts = record opts { search = trim_space opts.search } in
    let hit = listed w.engine (search_of repo_opts) repo_opts.include_deleted in
    query_then_quiet w q _ _
    ∙ query_then_quiet w q _ _
    ∙ ap
        (λ (n : ℕ). (
          ok (
            map (joined w.db)
                (page (limit_or 50 opts.limit) (offset_of opts.offset) (matching repo_opts w)),
            n,
          ),
          w,
        ))
        (sym (
          length-descending (λ p. p.updated_at) (select hit w.db.prompts)
          ∙ length-select hit w.db.prompts))

more_of_page :
    (limit offset : ℕ) (db : Database) (rows : List Prompt)
    → 0 < limit
    → offset + length rows < half_word
    → is_before (int64 (offset + length (map (joined db) (page limit offset rows)))) (length rows)
      ≡ ltb (offset + limit) (length rows)
more_of_page limit offset db rows some_limit small =
    let shown : length (map (joined db) (page limit offset rows))
        ≡ (if ltb limit (length rows - offset) then limit else length rows - offset) =
      length-map (joined db) (page limit offset rows)
      ∙ length-take_eq limit (drop offset rows)
      ∙ ap (λ (n : ℕ). if ltb limit n then limit else n) (length-drop offset rows) in
    let at =
      int64_small (offset + length (map (joined db) (page limit offset rows)))
        (ground (arith, shown, small)) in
    rw at (ground (arith, shown))

-- the options that the handler passes on, with the search as the service passes it on
abbrev pub options : (limit offset : ℤ) (search include_deleted : Text) → PromptListOptions
options limit offset search include_deleted = record {
  limit = limit;
  offset = offset;
  search = trim_space (trim_space search);
  include_deleted = parse_flag include_deleted;
}

answer_with_ok :
    {A B : Type 0} (call : Action A) (failed : Error → Response B) (rest : A → Handler B)
    (w : World) {a : A} {w' : World}
    → call w ≡ (ok a, w')
    → answer_with call failed rest w ≡ rest a w'
unfolding answer_with
answer_with_ok {A = A} call failed rest w done =
    ap (λ (r : Result A × World). answer_with (λ _. r) failed rest w) done

limit_or_positive : (n : ℕ) → 0 < n → limit_or 50 (pos n) ≡ n
unfolding limit_or
limit_or_positive zero h = absurd (omega arith)
limit_or_positive (suc n) h = refl

-- GET /prompts in a quiet world, with a limit and an offset that are numbers, the limit not 0, and
-- a count of matching prompts that with the offset stays below 2 ^ 63: the answer holds the page of
-- the matching prompts, the latest change first, their number, and whether any come after the page.
pub list_prompts_handler_lem :
    (limit_str offset_str search include_deleted : Text) (limit offset : ℕ) (w : World)
    → IsQuiet w
    → parse_pagination limit_str offset_str ≡ (pos limit, pos offset)
    → 0 < limit
    → let rows = matching (options (pos limit) (pos offset) search include_deleted) w in
      offset + length rows < half_word
      → list_prompts_handler limit_str offset_str search include_deleted w ≡ (
        respond_ok (record {
          items = map (joined w.db) (page limit offset rows);
          total = length rows;
          limit = pos limit;
          offset = pos offset;
          has_more = ltb (offset + limit) (length rows);
        }),
        w,
      )
unfolding list_prompts_handler offset_of
list_prompts_handler_lem limit_str offset_str search_str include_deleted limit offset w q parsed
      some_limit small =
    let rows = matching (options (pos limit) (pos offset) search_str include_deleted) w in
    rw parsed (
      answer_with_ok _ _ _ w (list_prompts_quiet _ w q)
      ∙ rw
          (limit_or_positive limit some_limit, more_of_page limit offset w.db rows some_limit small)
          refl)
