-- ===== src/Prompt/Laws/Pages.antt =====
-- The pages of a prompt's versions.
use prompt_manager.Base.{
  ℕ, zero, suc, ◌+◌, ◌-◌, ◌*◌, ◌/◌, ◌≤◌, ◌<◌, ◌≡◌, refl, sym, ap, ◌∙◌, ℤ, pos, negsuc, int64, quot,
  half_word, Bool, Bool-cases, inl, inr, Option, some, List, [], ◌∷◌, arith, length, take, drop,
  page, first, count, select, length-select, length-descending, length-drop, take-take, int64_small,
  ltb, if◌then◌else◌,
}
use native.Mathlib.Nat.{div-add-mod, mod-lt}
use native.Mathlib.Numerals.{add-one}
use prompt_manager.Text.{Text, is_empty, trim_space}
use prompt_manager.Domain.{Prompt, PromptVersion, ok}
use prompt_manager.Store.{Database, World, ◌>>=◌, query, pure}
use prompt_manager.Store.Quiet.{IsQuiet, query_then_quiet, then_ok}
use prompt_manager.Repository.Paging.{limit_or, offset_of}
use prompt_manager.Repository.Prompts.{live_id}
use prompt_manager.Repository.Versions
use prompt_manager.Repository.Versions.{of_prompt, in_status, newest_first}
use prompt_manager.Prompt.Manage.{get_prompt}
use prompt_manager.Prompt.Paging.{PromptVersionPage, page_of, list_prompt_versions_ex}
use prompt_manager.Prompt.Laws.Visibility.{answer, get_prompt_quiet}

length-take_of_le {ℓ} : {A : Type ℓ} (n : ℕ) (xs : List A) → n ≤ length xs → length (take n xs) ≡ n
length-take_of_le zero xs h = refl
length-take_of_le (suc n) [] h = absurd (omega arith)
length-take_of_le (suc n) (x ∷ xs) h = omega (arith, length-take_of_le n xs)

take_all {ℓ} : {A : Type ℓ} (n : ℕ) (xs : List A) → length xs ≤ n → take n xs ≡ xs
take_all zero [] h = refl
take_all zero (x ∷ xs) h = absurd (omega arith)
take_all (suc n) [] h = refl
take_all (suc n) (x ∷ xs) h = ap (λ ys. x ∷ ys) (take_all n xs (omega arith))

-- What a page of `rows` should be: the rows from the offset on, up to the limit, and whether any
-- come after them.
pub record IsPage (rows : List PromptVersion) (limit : ℕ) (offset : ℤ) (p : PromptVersionPage)
    : Type 0 where
  pub items : p.items ≡ page limit (offset_of offset) rows
  pub has_more : p.has_more ≡ ltb (offset_of offset + limit) (length rows)
  pub total : p.total ≡ length rows
  pub limit_shown : p.limit ≡ limit
  pub offset_shown : p.offset ≡ offset

more_iff :
    (limit o : ℕ) (rows : List PromptVersion)
    → ltb limit (length (page (suc limit) o rows)) ≡ ltb (o + limit) (length rows)
more_iff limit o rows = elim (Bool-cases (ltb (o + limit) (length rows))) [
  | inl more ↦
      rw more (ground (arith, length-take_of_le (suc limit) (drop o rows), length-drop o rows))
  | inr last ↦ rw last (
      ground (
        arith,
        take_all (suc limit) (drop o rows),
        length-drop o rows,
        ap length (take_all (suc limit) (drop o rows) (ground (arith, length-drop o rows))),
      ))
]

cut :
    (limit : ℕ) (read : List PromptVersion) {wanted : List PromptVersion}
    → take limit read ≡ wanted
    → (if ltb limit (length read) then take limit read else read) ≡ wanted
cut limit read e = elim (Bool-cases (ltb limit (length read))) [
  | inl more ↦ rw more e
  | inr last ↦ rw last (sym (take_all limit read (ground arith)) ∙ e)
]

page_of-IsPage :
    (limit : ℕ) (offset : ℤ) (rows : List PromptVersion)
    → IsPage rows limit offset
        (page_of limit offset (page (suc limit) (offset_of offset) rows) (length rows))
unfolding page_of
page_of-IsPage limit offset rows = record {
  items = cut limit (page (suc limit) (offset_of offset) rows) (take-take limit _);
  has_more = more_iff limit (offset_of offset) rows;
  total = refl;
  limit_shown = refl;
  offset_shown = refl;
}

-- The number of pages is the least that holds all rows, as long as the sum fits in 63 bits.
pub record CountsPages (limit total : ℕ) (pages : ℤ) : Type 0 where
  pub count : ℕ
  pub same : pages ≡ pos count
  pub enough : total ≤ count * limit
  pub least : count * limit < total + limit

page_of-CountsPages :
    (limit : ℕ) (offset : ℤ) (list : List PromptVersion) (total : ℕ)
    → 0 < limit
    → total + limit ≤ half_word
    → CountsPages limit total (page_of limit offset list total).pages
unfolding page_of
page_of-CountsPages limit offset list total some_limit fits =
    let n = (total + limit - 1) / limit in
    record {
      count = n;
      same = ap (λ (i : ℤ). quot i limit) (int64_small (total + limit - 1) (omega arith));
      enough =
          grind
            (arith, div-add-mod (total + limit - 1) limit, mod-lt (total + limit - 1) some_limit);
      least =
          grind
            (arith, div-add-mod (total + limit - 1) limit, mod-lt (total + limit - 1) some_limit);
    }

-- the versions that a status selects, or all of them for a blank one
abbrev pub selected : Text → Text → PromptVersion → Bool
selected id status =
    if is_empty (trim_space status) then of_prompt id else in_status id (trim_space status)

length-newest_first :
    (hit : PromptVersion → Bool) (db : Database)
    → length (newest_first hit db) ≡ count hit db.versions
length-newest_first hit db =
    length-descending (λ v. v.version_number) (select hit db.versions)
    ∙ length-select hit db.versions

limit_or-pos : (i : ℤ) → 0 < limit_or 50 i
unfolding limit_or
limit_or-pos (pos zero) = omega arith
limit_or-pos (pos (suc n)) = omega arith
limit_or-pos (negsuc n) = omega arith

limit_or_one_more :
    (limit : ℕ) → limit + 1 < half_word → limit_or 50 (int64 (limit + 1)) ≡ suc limit
unfolding limit_or
limit_or_one_more limit h =
    ap (limit_or 50) (int64_small (limit + 1) h)
    ∙ ap (λ (n : ℕ). limit_or 50 (pos n)) (add-one limit)

read_page :
    (hit : PromptVersion → Bool) (limit : ℕ) (offset : ℤ) (w : World)
    → IsQuiet w
    → limit + 1 < half_word
    → (query (λ _ db.
            page (limit_or 50 (int64 (limit + 1))) (offset_of offset) (newest_first hit db))
          >>= λ list. query (λ _ db. count hit db.versions) >>= λ total.
              pure (page_of limit offset list total))
        w
      ≡ (
        ok (
            page_of limit offset
              (page (suc limit) (offset_of offset) (newest_first hit w.db))
              (length (newest_first hit w.db))),
        w,
      )
unfolding pure
read_page hit limit offset w q small =
    query_then_quiet w q _ _
    ∙ query_then_quiet w q _ _
    ∙ rw (limit_or_one_more limit small, length-newest_first hit w.db)

-- In a quiet world, for a prompt that is there, and a count of versions that with the limit stays
-- below 2 ^ 63: ListPromptVersionsEx answers the page of the selected versions, newest first, that
-- the limit and the offset name, whether more follow, their number, and the number of pages that
-- they fill, rounded up; and it changes nothing.
pub list_prompt_versions_ex_lem :
    (id : Text) (limit_given offset : ℤ) (status : Text) (w : World) {p : Prompt}
    → IsQuiet w
    → first (live_id id) w.db.prompts ≡ some p
    → count (selected id status) w.db.versions + limit_or 50 limit_given + 1 < half_word
    → let rows = newest_first (selected id status) w.db in
      let limit = limit_or 50 limit_given in
      (result : PromptVersionPage) × (list_prompt_versions_ex id limit_given offset status w
        ≡ (ok result, w))
      × IsPage rows limit offset result
      × CountsPages limit (length rows) result.pages
unfolding list_prompt_versions_ex Versions.list_by_prompt Versions.list_by_prompt_and_status
    Versions.count_by_prompt Versions.count_by_prompt_and_status
list_prompt_versions_ex_lem id limit_given offset status w {p} q live fits =
    let limit = limit_or 50 limit_given in
    let rows = newest_first (selected id status) w.db in
    let result = page_of limit offset (page (suc limit) (offset_of offset) rows) (length rows) in
    let counted = length-newest_first (selected id status) w.db in
    (
      result,
      then_ok (get_prompt id) w
            (get_prompt_quiet id w q ∙ ap (λ (o : Option Prompt). (answer w.db o, w)) live) _
          ∙ elim (Bool-cases (is_empty (trim_space status))) [
            | inl blank ↦ rw blank (read_page (of_prompt id) limit offset w q (omega arith))
            | inr given ↦
                rw given
                  (read_page (in_status id (trim_space status)) limit offset w q (omega arith))
          ],
      page_of-IsPage limit offset rows,
      page_of-CountsPages limit offset _ (length rows) (limit_or-pos limit_given)
          (omega (arith, counted)),
    )
