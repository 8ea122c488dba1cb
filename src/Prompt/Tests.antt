-- ===== src/Prompt/Tests.antt =====
-- A database to try the service on, runs of it, and the theorems at concrete inputs.
use prompt_manager.Base.{
  false, ℕ, zero, suc, ◌≡◌, refl, ap, true, none, some, List, [], ◌∷◌, length, map, pos, negsuc,
  All, arith,
}
use prompt_manager.Text.{Text, codes, to_lower}
use prompt_manager.Domain.{Prompt, Result, ok, err, prompt_not_found, prompt_already_exists}
use prompt_manager.Store.{Database, Engine, World}
use prompt_manager.Prompt.{
  Service, CreatePromptInput, CreatePromptVersionInput, create_prompt, get_prompt,
}
use prompt_manager.Prompt.Calls.{Call, perform_all}
use prompt_manager.Prompt.Run.{service}
use prompt_manager.Prompt.Manage.{delete_prompt}
use prompt_manager.Prompt.Paging.{PromptVersionPage, list_prompt_versions_ex}
use prompt_manager.Repository.Paging.{limit_or}
use prompt_manager.Repository.Versions.{newest_first}
use prompt_manager.Repository.Quiet.{with_prompts}
use prompt_manager.Store.Keeps.{IsTrusted}
use prompt_manager.Prompt.Invariant.Lifecycle.{
  PromptIsSound, PromptsAreSound, perform_all-PromptsAreSound,
}
use prompt_manager.Prompt.Invariant.Numbering.{NumberedFrom, perform_all-IsNumbered}
use prompt_manager.Prompt.Invariant.Numbers.{IsNumbered}
use prompt_manager.Prompt.Invariant.Activation.{perform_all-PromptShowsBody}
use prompt_manager.Prompt.Invariant.Bodies.{PromptShowsBody, Shown}
use prompt_manager.Prompt.Invariant.History.{Remembers, recorded, perform_all-Remembers}
use prompt_manager.Prompt.Laws.Visibility.{get-delete_prompt}
use prompt_manager.Prompt.Laws.Pages.{IsPage, CountsPages, selected, list_prompt_versions_ex_lem}
use prompt_manager.Prompt.Laws.Revival.{brought_back, create_prompt_revives}
use prompt_manager.Prompt.Laws.Creation.{stored, create_prompt_taken, create_prompt_new}
use prompt_manager.Prompt.{set_active_version, create_prompt_version, restore_prompt}
use prompt_manager.Domain.{PromptVersion}
use prompt_manager.Repository.Prompts.{joined}
use prompt_manager.Prompt.Laws.Versions.{stored_version, get-create_prompt_version}
use prompt_manager.Prompt.Laws.Activation.{activated, get-set_active_version}
use prompt_manager.Prompt.Laws.Lifecycle.{restored, restore-delete_prompt}

abbrev pub engine : Engine
engine = record {
  unique_message = codes "UNIQUE constraint failed: prompts.name";
  foreign_key_message = codes "FOREIGN KEY constraint failed";
  foreign_keys = true;
  like_escapes = false;
  lower = to_lower;
}

abbrev pub empty : Database
empty = record {
  users = [];
  identities = [];
  prompts = [];
  versions = [];
  audits = [];
  executions = [];
}

-- ids "1", "11", "111", …
abbrev pub ones : ℕ → Text
ones zero = codes "1"
ones (suc n) = 49 ∷ ones n

abbrev pub start : World
start = record { db = empty; engine = engine; now = 5; events = []; uuid = ones; issued = 0 }

abbrev pub greeting : CreatePromptInput
greeting = record {
  name = codes " Greeting ";
  description = some (codes " ");
  tags = codes "a" ∷ [];
  created_by = codes "ann@x.org";
}

abbrev pub draft : Text → CreatePromptVersionInput
draft body = record {
  prompt_id = codes "1";
  body = body;
  variables_schema = none;
  metadata = none;
  status = codes "Published ";
  created_by = codes "ann@x.org";
  activate = true;
}

abbrev pub on : Service
on = record { has_audit_log = true }

abbrev script : List Call
script =
    Call.create greeting
    ∷ Call.create_version (draft (codes " hi "))
    ∷ Call.create_version (draft (codes "hello"))
    ∷ Call.delete (codes "1") (codes "ann")
    ∷ []

abbrev ended : World
ended = perform_all on script start

created : map (λ p. p.name) ended.db.prompts ≡ codes "Greeting" ∷ []
unfolding service
created = refl

numbers : map (λ v. v.version_number) ended.db.versions ≡ 1 ∷ 2 ∷ []
unfolding service
numbers = refl

logged : length ended.db.audits ≡ 5
unfolding service
logged = refl

gone : (get_prompt (codes "1") ended).0 ≡ err prompt_not_found
unfolding service
gone = refl

taken :
    (create_prompt
      (record greeting { name = codes "gREETING" })
      (perform_all on (Call.create greeting ∷ []) start)).0
    ≡ err prompt_already_exists
unfolding service
taken = refl

-- the disk fails at the first statement, and time passes
abbrev pub rough : World
rough = record start {
  events =
      record { elapsed = 3; fault = some (codes "disk I/O error"); others = λ db. db }
      ∷ record { elapsed = 2; fault = none; others = λ db. db }
      ∷ [];
}

abbrev pub unchanged : {I : Type 0} (P : I → Database → Type 0) → All (IsTrusted P) rough.events
unchanged P = (record { keeps = λ i db h. h }, (record { keeps = λ i db h. h }, tt))

perform_all-Remembers_example : Remembers (recorded rough.db) (perform_all on script rough).db
perform_all-Remembers_example = perform_all-Remembers on script rough (unchanged Remembers)

perform_all-IsNumbered_example : IsNumbered (perform_all on script rough).db
perform_all-IsNumbered_example = perform_all-IsNumbered on script rough (record {
  now = (record { gapless = λ id n low high. absurd (omega arith); exact = λ id. refl }, tt);
  later = unchanged NumberedFrom;
})

perform_all-PromptShowsBody_example :
    let db = (perform_all on script rough).db in All (PromptShowsBody db.versions) db.prompts
perform_all-PromptShowsBody_example =
    perform_all-PromptShowsBody on script rough (record { now = tt; later = unchanged Shown })

perform_all-PromptsAreSound_example : All PromptIsSound (perform_all on script rough).db.prompts
perform_all-PromptsAreSound_example =
    perform_all-PromptsAreSound on script rough
      (record { now = tt; later = unchanged PromptsAreSound })

abbrev pub filled : World
filled = perform_all on (Call.create greeting ∷ Call.create_version (draft (codes "hi")) ∷ []) start

abbrev pub greeting_row : Prompt
greeting_row = elim filled.db.prompts [ [] ↦ stored [] 0 [] greeting | p ∷ _ ↦ p ]

list_prompt_versions_ex_lem_example :
    let rows = newest_first (selected (codes "1") (codes " published")) filled.db in
    let limit = limit_or 50 (negsuc 0) in
    (result : PromptVersionPage) × (list_prompt_versions_ex
        (codes "1")
        (negsuc 0)
        (pos 0)
        (codes " published")
        filled
      ≡ (ok result, filled))
    × IsPage rows limit (pos 0) result
    × CountsPages limit (length rows) result.pages
unfolding service
list_prompt_versions_ex_lem_example =
    list_prompt_versions_ex_lem (codes "1") (negsuc 0) (pos 0) (codes " published") filled
      {p = greeting_row} refl refl (omega arith)

get-delete_prompt_example :
    let w' = (delete_prompt on (codes "1") (codes "ann") filled).1 in
    get_prompt (codes "1") w' ≡ (err prompt_not_found, w')
unfolding service
get-delete_prompt_example = get-delete_prompt on (codes "1") (codes "ann") filled refl refl

create_prompt_taken_example :
    create_prompt (record greeting { name = codes "GREETING" }) filled
    ≡ (err prompt_already_exists, filled)
unfolding service
create_prompt_taken_example =
    create_prompt_taken (record greeting { name = codes "GREETING" }) filled greeting_row refl refl
      refl refl

create_prompt_new_example :
    let row = stored (ones 0) 5 (codes "Greeting") greeting in
    create_prompt greeting start ≡ (ok row, with_prompts (row ∷ []) (record start { issued = 1 }))
unfolding service
create_prompt_new_example = create_prompt_new greeting start refl refl refl refl

abbrev retired : World
retired = (delete_prompt on (codes "1") (codes "ann") filled).1

abbrev retired_row : Prompt
retired_row = elim retired.db.prompts [ [] ↦ greeting_row | p ∷ _ ↦ p ]

create_prompt_revives_example :
    (create_prompt greeting retired).0 ≡ ok (brought_back greeting 5 retired_row)
unfolding service
create_prompt_revives_example =
    ap (λ (r : Result Prompt × World). r.0)
      (create_prompt_revives greeting retired retired_row refl refl refl refl refl refl refl)

abbrev hello : PromptVersion
hello = elim filled.db.versions [ [] ↦ stored_version start [] greeting_row (draft []) | v ∷ _ ↦ v ]

get-set_active_version_example :
    let w' = (set_active_version on (codes "1") (codes "11") (codes "ann") filled).1 in
    get_prompt (codes "1") w'
    ≡ (ok (joined w'.db (activated (codes "11") (codes "hi") 5 greeting_row)), w')
unfolding service
get-set_active_version_example =
    get-set_active_version on (codes "1") (codes "11") (codes "ann") filled greeting_row hello refl
      refl refl refl

get-create_prompt_version_example :
    let w' = (create_prompt_version on (draft (codes " new")) filled).1 in
    get_prompt (codes "1") w'
    ≡ (ok (joined w'.db (activated (ones filled.issued) (codes "new") 5 greeting_row)), w')
unfolding service
get-create_prompt_version_example =
    get-create_prompt_version on (draft (codes " new")) filled greeting_row refl refl refl refl refl
      refl

restore-delete_prompt_example :
    let w2 = (restore_prompt on (codes "1") (codes "bob") retired).1 in
    get_prompt (codes "1") w2 ≡ (ok (joined w2.db (restored 5 greeting_row)), w2)
unfolding service
restore-delete_prompt_example =
    restore-delete_prompt on (codes "1") (codes "ann") (codes "bob") filled greeting_row refl refl
      refl refl
