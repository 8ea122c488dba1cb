-- ===== src/Repository/Sql/Laws/Selects.antt =====
-- The SELECT statements of List and Count refine the operations on the table.
use prompt_manager.Base.{
  ℕ, ◌≡◌, refl, subst, append-nil, page, descending, map, some, ap, ◌∙◌, Bool, true, false,
  Bool-cases, inl, inr, ◌&&◌, ◌||◌, Option, List, [], ◌∷◌, ◌++◌, select, count, arith,
}
use mathlib.Core.Path.{fun_ext}
use prompt_manager.Text.{Text, is_empty}
use prompt_manager.Domain.{Prompt, PromptListOptions}
use prompt_manager.Store.{Engine, Database, query}
use prompt_manager.Repository.Paging.{limit_or, offset_of}
use prompt_manager.Repository.Prompts
use prompt_manager.Repository.Prompts.{live, joined, listed, search_of, search_pattern}
use prompt_manager.Repository.Sql.Dialect.{
  Dialect, new_builder, is_numbered, mark, placeholder, next,
}
use prompt_manager.Repository.Sql.Statements.{Value, str}
use prompt_manager.Repository.Sql.Meaning.{bound}
use prompt_manager.Repository.Sql.Laws.Builder.{bound-mark}
use prompt_manager.Repository.Sql.Selects.{
  first_condition, conditions_of, search_args, name_like, matches, paged, bounded, list_statement,
  count_statement, meets, rows_of, count_of, query_rows, query_count,
}

module _ (d : Dialect) (e : Engine) (p : Prompt) where
  filled_search :
      (include_deleted : Bool) (search : Text) (rest : List Value)
      → is_empty search ≡ false
      → meets
          (is_numbered d.driver)
          (search_args search ++ rest)
          e
          0
          (conditions_of (new_builder d) include_deleted search)
          p
        ≡ listed e search include_deleted p
  unfolding next placeholder
  filled_search include_deleted search rest filled =
      let found =
        ap (λ (v : Option Value). matches e v (e.lower p.name))
          (bound-mark (is_numbered d.driver) [] rest (str (search_pattern search))) in
      rw filled (go include_deleted found)
    where
      go :
          (include_deleted : Bool) {found : Bool}
          → matches e
              (bound
                (is_numbered d.driver)
                1
                (mark (is_numbered d.driver) 1)
                (str (search_pattern search) ∷ rest))
              (e.lower p.name)
            ≡ found
          → meets
              (is_numbered d.driver)
              (str (search_pattern search) ∷ rest)
              e
              0
              (first_condition include_deleted ++ name_like (mark (is_numbered d.driver) 1) ∷ [])
              p
            ≡ ((include_deleted || live p) && (false || found))
      go true h = rw h (ground arith)
      go false h = rw h (ground arith)

  blank_search :
      (include_deleted : Bool) (search : Text) (args : List Value)
      → is_empty search ≡ true
      → meets
          (is_numbered d.driver)
          args
          e
          0
          (conditions_of (new_builder d) include_deleted search)
          p
        ≡ listed e search include_deleted p
  blank_search true search args blank = rw blank refl
  blank_search false search args blank = rw blank (ground arith)

  meets-eq-listed :
      (include_deleted : Bool) (search : Text) (rest : List Value)
      → meets
          (is_numbered d.driver)
          (search_args search ++ rest)
          e
          0
          (conditions_of (new_builder d) include_deleted search)
          p
        ≡ listed e search include_deleted p
  meets-eq-listed include_deleted search rest = elim (Bool-cases (is_empty search)) [
    | inl blank ↦ blank_search include_deleted search _ blank
    | inr filled ↦ filled_search include_deleted search rest filled
  ]

list_statement-meets :
    (d : Dialect) (e : Engine) (p : Prompt) (opts : PromptListOptions)
    → let s = list_statement d opts in
      meets (is_numbered d.driver) s.args e 0 s.conditions p
      ≡ listed e (search_of opts) opts.include_deleted p
unfolding list_statement
list_statement-meets d e p opts = meets-eq-listed d e p opts.include_deleted (search_of opts) _

count_statement-meets :
    (d : Dialect) (e : Engine) (p : Prompt) (opts : PromptListOptions)
    → meets
        (is_numbered d.driver)
        (search_args (search_of opts))
        e
        0
        (conditions_of (new_builder d) opts.include_deleted (search_of opts))
        p
      ≡ listed e (search_of opts) opts.include_deleted p
count_statement-meets d e p opts =
    subst
      (λ (args : List Value).
        meets (is_numbered d.driver) args e 0
          (conditions_of (new_builder d) opts.include_deleted (search_of opts)) p
        ≡ listed e (search_of opts) opts.include_deleted p)
      (append-nil (search_args (search_of opts)))
      (meets-eq-listed d e p opts.include_deleted (search_of opts) [])

-- Where LIMIT and OFFSET find their arguments, behind a search and without one.
bounds_filled :
    (numbered : Bool) (v l o : Value) (rows : List Prompt)
    → paged
        (bound numbered 2 (mark numbered 2) (v ∷ l ∷ o ∷ []))
        (bound numbered 3 (mark numbered 3) (v ∷ l ∷ o ∷ []))
        rows
      ≡ paged (some l) (some o) rows
bounds_filled numbered v l o rows =
    ap (λ (x : Option Value). paged x (bound numbered 3 (mark numbered 3) (v ∷ l ∷ o ∷ [])) rows)
      (bound-mark numbered (v ∷ []) (o ∷ []) l)
    ∙ ap (λ (x : Option Value). paged (some l) x rows) (bound-mark numbered (v ∷ l ∷ []) [] o)

bounds_blank :
    (numbered : Bool) (l o : Value) (rows : List Prompt)
    → paged
        (bound numbered 1 (mark numbered 1) (l ∷ o ∷ []))
        (bound numbered 2 (mark numbered 2) (l ∷ o ∷ []))
        rows
      ≡ paged (some l) (some o) rows
bounds_blank numbered l o rows =
    ap (λ (x : Option Value). paged x (bound numbered 2 (mark numbered 2) (l ∷ o ∷ [])) rows)
      (bound-mark numbered [] (o ∷ []) l)
    ∙ ap (λ (x : Option Value). paged (some l) x rows) (bound-mark numbered (l ∷ []) [] o)

list_statement-bounded :
    (d : Dialect) (opts : PromptListOptions) (rows : List Prompt)
    → bounded (is_numbered d.driver) (list_statement d opts) rows
      ≡ page (limit_or 50 opts.limit) (offset_of opts.offset) (descending (λ p. p.updated_at) rows)
unfolding list_statement next placeholder
list_statement-bounded d opts rows = elim (Bool-cases (is_empty (search_of opts))) [
  | inl blank ↦ rw blank (elim (Bool-cases opts.include_deleted) [
    | inl all ↦ rw all (bounds_blank _ _ _ _)
    | inr live_only ↦ rw live_only (bounds_blank _ _ _ _)
  ])
  | inr filled ↦ rw filled (elim (Bool-cases opts.include_deleted) [
    | inl all ↦ rw all (bounds_filled _ _ _ _ _)
    | inr live_only ↦ rw live_only (bounds_filled _ _ _ _ _)
  ])
]

-- The statement of List, whatever the dialect and the options, selects and orders the rows that the
-- repository is modelled to answer.
pub list_statement-refines :
    (d : Dialect) (opts : PromptListOptions)
    → query_rows (is_numbered d.driver) (list_statement d opts) ≡ Prompts.list opts
unfolding query_rows rows_of Prompts.list
list_statement-refines d opts =
    ap (λ (f : Engine → Database → List Prompt). query f)
      (fun_ext λ e. fun_ext λ db.
        ap (λ (rows : List Prompt). map (joined db) rows)
          (list_statement-bounded d opts _
            ∙ ap
                (λ (test : Prompt → Bool).
                  page (limit_or 50 opts.limit) (offset_of opts.offset)
                    (descending (λ p. p.updated_at) (select test db.prompts)))
                (fun_ext λ p. list_statement-meets d e p opts)))

pub count_statement-refines :
    (d : Dialect) (opts : PromptListOptions)
    → query_count (is_numbered d.driver) (count_statement d opts) ≡ Prompts.count_all opts
unfolding query_count count_of count_statement Prompts.count_all
count_statement-refines d opts =
    ap (λ (f : Engine → Database → ℕ). query f)
      (fun_ext λ e. fun_ext λ db.
        ap (λ (test : Prompt → Bool). count test db.prompts)
          (fun_ext λ p. count_statement-meets d e p opts))
