-- ===== src/Repository/Sql/Meaning.antt =====
-- What a database makes of the statements: PostgreSQL reads `$n` as the n-th argument, the others
-- take the n-th `?` for it.
use prompt_manager.Base.{
  ℕ, zero, suc, Bool, false, ◌&&◌, Option, none, some, List, [], ◌∷◌, ◌==◌, if◌then◌else◌,
}
use prompt_manager.Text.{Text, codes, same, read_number}
use prompt_manager.Domain.{Prompt}
use prompt_manager.Store.{Action, ◌>>=◌, raise, pure, exec, affected, update_prompts}
use prompt_manager.Repository.Prompts.{live}
use prompt_manager.Repository.Sql.Statements.{
  Value, str, nullable, raw, number, Assignment, assigned, fixed, Update, Built, refused, nothing,
  statement,
}

-- the n-th argument, from 1
abbrev pub nth : ℕ → List Value → Option Value
nth n [] = none
nth zero (v ∷ vs) = none
nth (suc zero) (v ∷ vs) = some v
nth (suc (suc n)) (v ∷ vs) = nth (suc n) vs

abbrev pub nth_of : Option ℕ → List Value → Option Value
nth_of none args = none
nth_of (some n) args = nth n args

-- the argument of a placeholder, which is the `position`-th of the text
unfoldable pub bound : Bool → ℕ → Text → List Value → Option Value
unfolding read_number
bound numbered position [] args = none
bound numbered position (c ∷ s) args =
    if numbered
    then (if c == b'$' then nth_of (read_number s) args else none)
    else if same (c ∷ s) (codes "?")
    then nth position args
    else none

-- `column = value`, for the columns that the statements name
unfoldable pub set_column : Text → Value → Prompt → Option Prompt
unfolding same
set_column column (str t) p =
    if same column (codes "name") then some (record p { name = t }) else none
set_column column (nullable t) p =
    if same column (codes "description")
    then some (record p { description = t })
    else if same column (codes "created_by")
    then some (record p { created_by = t })
    else if same column (codes "body")
    then some (record p { body = t })
    else none
set_column column (raw t) p =
    if same column (codes "tags") then some (record p { tags = t }) else none
set_column column (number n) p = none

abbrev pub set_bound : Text → Option Value → Prompt → Option Prompt
set_bound column none p = none
set_bound column (some v) p = set_column column v p

-- the assignments without a placeholder
unfoldable pub set_fixed : Text → ℕ → Prompt → Option Prompt
unfolding same
set_fixed text now p =
    if same text (codes "updated_at = CURRENT_TIMESTAMP")
    then some (record p { updated_at = now })
    else if same text (codes "status = 'active'")
    then some (record p { status = codes "active" })
    else if same text (codes "deleted_at = NULL")
    then some (record p { deleted_at = none })
    else none

abbrev pub and_then : Option Prompt → (Prompt → Option Prompt) → Option Prompt
and_then none rest = none
and_then (some p) rest = rest p

-- the row after the assignments, behind `position` placeholders
unfoldable pub assign : Bool → List Value → ℕ → ℕ → List Assignment → Prompt → Option Prompt
unfolding bound set_column set_fixed
assign numbered args now position [] p = some p
assign numbered args now position (assigned column placeholder ∷ sets) p =
    and_then (set_bound column (bound numbered (suc position) placeholder args) p)
      (assign numbered args now (suc position) sets)
assign numbered args now position (fixed text ∷ sets) p =
    and_then (set_fixed text now p) (assign numbered args now position sets)

abbrev pub placeholders : List Assignment → ℕ
placeholders [] = 0
placeholders (assigned column placeholder ∷ sets) = suc (placeholders sets)
placeholders (fixed text ∷ sets) = placeholders sets

abbrev pub has_id : Option Value → Prompt → Bool
has_id (some (str id)) p = same p.id id
has_id other_value p = false

unfoldable pub holds : Text → Prompt → Bool
unfolding same
holds condition p =
    if same condition (codes " AND deleted_at IS NULL")
    then live p
    else if same condition (codes " AND status = 'deleted'")
    then same p.status (codes "deleted")
    else false

-- WHERE id = … and the condition
unfoldable pub hit : Bool → Update → Prompt → Bool
unfolding bound holds
hit numbered u p =
    has_id (bound numbered (suc (placeholders u.sets)) u.id_placeholder u.args) p
    && holds u.condition p

abbrev pub or_same : Prompt → Option Prompt → Prompt
or_same p none = p
or_same p (some q) = q

-- A statement that a database refuses is taken to change nothing.
unfoldable pub changed : Bool → Update → ℕ → Prompt → Prompt
unfolding assign
changed numbered u now p = or_same p (assign numbered u.args now 0 u.sets p)

-- Runs what a builder has come to, with the check of RowsAffected.
unfoldable pub execute : Bool → Built → Action (Unit {0})
execute numbered (refused e) = raise e
execute numbered nothing = pure tt
execute numbered (statement u) = do
  rows ← exec λ now. update_prompts (hit numbered u) (changed numbered u now)
  affected rows
