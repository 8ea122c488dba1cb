-- ===== src/Repository/Versions.antt =====
-- promptVersionRepository
use prompt_manager.Base.{
  ℕ, ℤ, Bool, ◌&&◌, List, select, first, count, maximum, page, descending, head?, ltb,
}
use prompt_manager.Text.{Text, codes, same}
use prompt_manager.Domain.{PromptVersion}
use prompt_manager.Store.{Action, Database, ◌>>=◌, ◌>>◌, pure, query, exec, found, insert_version}
use prompt_manager.Repository.Paging.{limit_or, offset_of}
use prompt_manager.Repository.Users.{or_default}

unfoldable pub create : PromptVersion → Action (Unit {0})
create version = do
  exec λ now.
      insert_version
        (record version { status = or_default version.status (codes "draft"); created_at = now })
  pure tt

unfoldable pub get_by_id : Text → Action PromptVersion
get_by_id version_id = do
  row ← query λ _ db. first (λ v. same v.id version_id) db.versions
  found row

abbrev pub of_prompt : Text → PromptVersion → Bool
of_prompt prompt_id v = same v.prompt_id prompt_id

abbrev pub in_status : Text → Text → PromptVersion → Bool
in_status prompt_id status v = same v.prompt_id prompt_id && same v.status status

-- ORDER BY version_number DESC
abbrev pub newest_first : (PromptVersion → Bool) → Database → List PromptVersion
newest_first hit db = descending (λ v. v.version_number) (select hit db.versions)

unfoldable pub list_by_prompt : Text → ℤ → ℤ → Action (List PromptVersion)
list_by_prompt prompt_id limit offset =
    query
      λ _ db. page (limit_or 50 limit) (offset_of offset) (newest_first (of_prompt prompt_id) db)

unfoldable pub list_by_prompt_and_status : Text → Text → ℤ → ℤ → Action (List PromptVersion)
list_by_prompt_and_status prompt_id status limit offset = query λ _ db.
    page (limit_or 50 limit) (offset_of offset) (newest_first (in_status prompt_id status) db)

-- SELECT COALESCE(MAX(version_number), 0)
unfoldable pub get_latest_version_number : Text → Action ℕ
get_latest_version_number prompt_id =
    query λ _ db. maximum (of_prompt prompt_id) (λ v. v.version_number) db.versions

unfoldable pub count_by_prompt : Text → Action ℕ
count_by_prompt prompt_id = query λ _ db. count (of_prompt prompt_id) db.versions

unfoldable pub count_by_prompt_and_status : Text → Text → Action ℕ
count_by_prompt_and_status prompt_id status =
    query λ _ db. count (in_status prompt_id status) db.versions

unfoldable pub get_previous_version : Text → ℕ → Action PromptVersion
get_previous_version prompt_id version_number = do
  row ← query λ _ db.
      head?
        (newest_first (λ v. same v.prompt_id prompt_id && ltb v.version_number version_number) db)
  found row
