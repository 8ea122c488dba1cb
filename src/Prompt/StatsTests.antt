-- ===== src/Prompt/StatsTests.antt =====
-- Runs of GetExecutionStats, and its theorem at concrete inputs.
use prompt_manager.Base.{ℕ, ◌*◌, ◌≡◌, refl, ℤ, pos, none, List, [], ◌∷◌, arith, map, select}
use prompt_manager.Text.{Text, codes}
use prompt_manager.Domain.{PromptExecutionLog, PromptExecutionAggregate, ok}
use prompt_manager.Store.{World}
use prompt_manager.Repository.Executions
use prompt_manager.Repository.Executions.{day_length, used_since}
use prompt_manager.Prompt.Stats.{get_execution_stats, days_before}
use prompt_manager.Prompt.Run.{service}
use prompt_manager.Prompt.Laws.Stats.{Summarizes, is_recent, get_execution_stats_lem}
use prompt_manager.Prompt.Tests.{filled, greeting_row}

abbrev call : (id status : Text) → ℤ → PromptExecutionLog
call id status duration = record {
  id = id;
  prompt_id = codes "1";
  prompt_version_id = codes "11";
  user_id = none;
  status = status;
  duration_ms = duration;
  request_payload = none;
  response_metadata = none;
  created_at = 0;
}

-- the world at the start of a day
abbrev on_day : ℕ → World → World
on_day n w = record w { now = n * day_length }

-- calls on the days 3, 20, 21 and 21, and day 22
abbrev used : World
used =
    let w1 = (Executions.create (call (codes "a") (codes "success") (pos 9)) (on_day 3 filled)).1 in
    let w2 = (Executions.create (call (codes "b") (codes "failed") (pos 0)) (on_day 20 w1)).1 in
    let w3 = (Executions.create (call (codes "c") (codes "success") (pos 4)) (on_day 21 w2)).1 in
    let w4 = (Executions.create (call (codes "d") (codes "success") (pos 8)) (on_day 21 w3)).1 in
    on_day 22 w4

abbrev summary : PromptExecutionAggregate → ℕ × ℕ × ℕ
summary a = (a.day, a.total_calls, a.success_calls)

-- the oldest call is left out
stats_of_week :
    map summary (
      Executions.grouped
        (select (used_since (codes "1") (days_before used.now 7)) used.db.executions))
    ≡ (21, 2, 2) ∷ (20, 1, 0) ∷ []
unfolding service
stats_of_week = refl

-- So many days that the start wraps around into the future: no call is left.
stats_of_ages :
    select (used_since (codes "1") (days_before used.now 120000000000000)) used.db.executions ≡ []
unfolding service
stats_of_ages = refl

get_execution_stats_lem_example :
    let rows = select (is_recent (codes "1") used.now 7) used.db.executions in
    (stats : List PromptExecutionAggregate) × (get_execution_stats (codes "1") (pos 0) used
      ≡ (ok stats, used))
    × Summarizes rows stats
unfolding service
get_execution_stats_lem_example =
    get_execution_stats_lem (codes "1") (pos 0) used greeting_row refl refl (omega arith)
      (omega arith)
