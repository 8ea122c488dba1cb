-- ===== src/Prompt/Stats.antt =====
-- GetExecutionStats.
use prompt_manager.Base.{ℕ, ◌+◌, ◌-◌, ◌*◌, ◌/◌, ◌%◌, ℤ, pos, negsuc, word, int64, List}
use prompt_manager.Text.{Text}
use prompt_manager.Domain.{PromptExecutionAggregate}
use prompt_manager.Store.{Action, clock, ◌>>=◌, ◌>>◌}
use prompt_manager.Repository.Paging.{limit_or}
use prompt_manager.Repository.Executions
use prompt_manager.Repository.Executions.{second}
use prompt_manager.Prompt.Manage.{get_prompt}

-- the nanoseconds of a time of so many seconds; a time before the epoch, behind which no log is,
-- counts as the epoch
abbrev pub time_of : ℤ → (nanoseconds : ℕ) → ℕ
time_of (pos n) nanoseconds = n * second + nanoseconds
time_of (negsuc n) nanoseconds = 0

-- AddDate(0, 0, -days), on a clock without changes of its zone: the seconds wrap around at 64 bits
abbrev pub days_before : ℕ → ℕ → ℕ
days_before now days = time_of (int64 (now / second + (word - days * 86400 % word))) (now % second)

unfoldable pub get_execution_stats : Text → ℤ → Action (List PromptExecutionAggregate)
get_execution_stats prompt_id raw_days = do
  let days = limit_or 7 raw_days
  get_prompt prompt_id
  now ← clock
  Executions.aggregate_usage prompt_id (days_before now days)
