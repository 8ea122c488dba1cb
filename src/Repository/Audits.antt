-- ===== src/Repository/Audits.antt =====
-- promptAuditLogRepository
use prompt_manager.Base.{ℤ, List, select, take, descending}
use prompt_manager.Text.{Text, same}
use prompt_manager.Domain.{PromptAuditLog}
use prompt_manager.Store.{Action, ◌>>◌, pure, query, exec, insert_audit}
use prompt_manager.Repository.Paging.{limit_or}

unfoldable pub create : PromptAuditLog → Action (Unit {0})
create log = do exec λ now. insert_audit (record log { created_at = now }); pure tt

unfoldable pub list_by_prompt : Text → ℤ → Action (List PromptAuditLog)
list_by_prompt prompt_id limit = query λ _ db.
    take (limit_or 20 limit)
      (descending (λ a. a.created_at) (select (λ a. same a.prompt_id prompt_id) db.audits))
