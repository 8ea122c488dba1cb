-- ===== src/Repository/Sql/Laws/Statements.antt =====
-- The statements that are put together at run time, against the model of the repository.
use prompt_manager.Base.{◌≡◌}
use prompt_manager.Text.{Text}
use prompt_manager.Domain.{PromptListOptions, PromptUpdateParams, PromptRestoreParams}
use prompt_manager.Repository.Prompts
use prompt_manager.Repository.Sql.Dialect.{Dialect, is_numbered}
use prompt_manager.Repository.Sql.Statements.{update_statement, restore_statement}
use prompt_manager.Repository.Sql.Selects.{list_statement, count_statement, query_rows, query_count}
use prompt_manager.Repository.Sql.Meaning.{execute}
use prompt_manager.Repository.Sql.Laws.Refines.{update_statement-refines, restore_statement-refines}
use prompt_manager.Repository.Sql.Laws.Selects.{list_statement-refines, count_statement-refines}

-- Whatever the dialect, the fields that are given and the options, the statements that Update,
-- Restore, List and Count of the prompts put together, with the arguments that they hand over,
-- do in a database that reads the placeholders of that dialect what the repository is modelled to
-- do on the table, errors and the case without fields included.
pub statements-refine :
    (d : Dialect) (id : Text) (update : PromptUpdateParams) (restore : PromptRestoreParams)
    (opts : PromptListOptions)
    → (execute (is_numbered d.driver) (update_statement d id update) ≡ Prompts.update id update)
      × (execute (is_numbered d.driver) (restore_statement d id restore)
          ≡ Prompts.restore id restore)
      × (query_rows (is_numbered d.driver) (list_statement d opts) ≡ Prompts.list opts)
      × (query_count (is_numbered d.driver) (count_statement d opts) ≡ Prompts.count_all opts)
statements-refine d id update restore opts = (
  update_statement-refines d id update,
  restore_statement-refines d id restore,
  list_statement-refines d opts,
  count_statement-refines d opts,
)
