-- ===== src/Prompt/Paging.antt =====
-- ListPromptVersions and ListPromptVersionsEx.
use prompt_manager.Base.{ℕ, ◌+◌, ◌-◌, ℤ, int64, quot, Bool, List, length, take, ltb, if◌then◌else◌}
use prompt_manager.Text.{Text, is_empty, trim_space}
use prompt_manager.Domain.{PromptVersion}
use prompt_manager.Store.{Action, ◌>>=◌, ◌>>◌, pure}
use prompt_manager.Repository.Versions
use prompt_manager.Repository.Paging.{limit_or}
use prompt_manager.Prompt.Manage.{get_prompt}

unfoldable pub list_prompt_versions : Text → ℤ → ℤ → Action (List PromptVersion)
list_prompt_versions prompt_id limit offset = do
  get_prompt prompt_id
  Versions.list_by_prompt prompt_id limit offset

pub record PromptVersionPage : Type 0 where
  pub items : List PromptVersion
  pub limit : ℕ
  pub offset : ℤ
  pub has_more : Bool
  pub total : ℕ
  pub pages : ℤ

-- The page of the rows that were read, one more than the limit where there are as many. The sum
-- `total + limit - 1` wraps around at 64 bits.
unfoldable pub page_of : ℕ → ℤ → List PromptVersion → ℕ → PromptVersionPage
page_of limit offset list total =
    let has_more = ltb limit (length list) in
    record {
      items = if has_more then take limit list else list;
      limit = limit;
      offset = offset;
      has_more = has_more;
      total = total;
      pages = quot (int64 (total + limit - 1)) limit;
    }

unfoldable pub list_prompt_versions_ex : Text → ℤ → ℤ → Text → Action PromptVersionPage
list_prompt_versions_ex prompt_id limit_given offset status = do
  get_prompt prompt_id
  let limit = limit_or 50 limit_given
  let effective_limit = int64 (limit + 1)
  let normalized = trim_space status
  if is_empty normalized
      then (do
        list ← Versions.list_by_prompt prompt_id effective_limit offset
        total ← Versions.count_by_prompt prompt_id
        pure (page_of limit offset list total))
      else (do
        list ← Versions.list_by_prompt_and_status prompt_id normalized effective_limit offset
        total ← Versions.count_by_prompt_and_status prompt_id normalized
        pure (page_of limit offset list total))
