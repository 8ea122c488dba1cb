-- ===== src/Repository/Identities.antt =====
-- userIdentityRepository
use prompt_manager.Base.{◌&&◌, first}
use prompt_manager.Text.{Text, same}
use prompt_manager.Domain.{UserIdentity}
use prompt_manager.Store.{Action, ◌>>=◌, ◌>>◌, pure, query, exec, found, insert_identity}

unfoldable pub create : UserIdentity → Action (Unit {0})
create identity = do
  exec λ now. insert_identity (record identity { created_at = now; updated_at = now })
  pure tt

unfoldable pub get_by_provider_and_external_id : Text → Text → Action UserIdentity
get_by_provider_and_external_id provider external_id = do
  row ← query λ _ db.
      first (λ i. same i.provider provider && same i.provider_user_id external_id) db.identities
  found row
