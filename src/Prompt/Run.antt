-- ===== src/Prompt/Run.antt =====
-- Opens the service and all that it calls, for proofs that run it.
use prompt_manager.Text.{
  trim_space, to_lower, same, contains, optional_string, optional_trimmed_string, decimal,
}
use prompt_manager.Domain.{is_unique_violation, marshal_strings}
use prompt_manager.Store.{
  pure, raise, attempt, lift, ◌>>=◌, ◌>>◌, raise_if, map_error, query, exec, new_id, affected,
  found, insert_prompt, insert_version, insert_audit, insert_execution, update_prompts, like, clock,
}
use prompt_manager.Repository.Paging.{limit_or, offset_of}
use prompt_manager.Repository.Prompts
use prompt_manager.Repository.Versions
use prompt_manager.Repository.Audits
use prompt_manager.Repository.Executions
use prompt_manager.Prompt.Inputs.{normalized_status, audit}
use prompt_manager.Prompt.Manage.{
  get_prompt, checked_name, update_prompt, delete_prompt, restore_prompt, list_prompts,
}
use prompt_manager.Prompt.Create.{
  existing_of, insert_new, restore_existing, create_or_restore, create_prompt,
}
use prompt_manager.Prompt.Versions.{
  set_active_version, activate_inline, add_version, create_prompt_version,
}
use prompt_manager.Prompt.Paging.{page_of, list_prompt_versions, list_prompt_versions_ex}
use prompt_manager.Prompt.Stats.{get_execution_stats}
use prompt_manager.Prompt.Calls.{perform, perform_all}

unfoldable pub monad : Unit {0}
unfolding pure raise attempt lift ◌>>=◌ ◌>>◌ raise_if map_error affected found
monad = tt

unfoldable pub statements : Unit {0}
unfolding monad query exec new_id
statements = tt

unfoldable pub texts : Unit {0}
unfolding trim_space to_lower same contains optional_string optional_trimmed_string decimal
    is_unique_violation marshal_strings like
texts = tt

unfoldable pub repositories : Unit {0}
unfolding statements insert_prompt insert_version insert_audit update_prompts limit_or offset_of
    Prompts.create Prompts.get_by_id Prompts.get_by_id_include_deleted Prompts.get_by_name
    Prompts.list Prompts.count_all Prompts.update_active_version Prompts.update Prompts.delete
    Prompts.restore Versions.create Versions.get_by_id Versions.list_by_prompt
    Versions.list_by_prompt_and_status Versions.get_latest_version_number Versions.count_by_prompt
    Versions.count_by_prompt_and_status Versions.get_previous_version Audits.create
    Audits.list_by_prompt Executions.create Executions.list_recent Executions.tally
    Executions.grouped Executions.aggregate_usage insert_execution clock
repositories = tt

unfoldable pub service : Unit {0}
unfolding repositories texts normalized_status audit get_prompt checked_name update_prompt
    delete_prompt restore_prompt list_prompts existing_of insert_new restore_existing
    create_or_restore create_prompt set_active_version activate_inline add_version
    create_prompt_version page_of list_prompt_versions list_prompt_versions_ex get_execution_stats
    perform perform_all
service = tt
