-- ===== src/Repository/Executions.antt =====
-- promptExecutionLogRepository. A day is a number of days since the epoch, as DATE of SQLite gives it.
use prompt_manager.Base.{
  ℕ, suc, zero, ◌/◌, ℤ, pos, negsuc, ◌+ℤ◌, Bool, ◌&&◌, Option, none, some, List, [], ◌∷◌, map,
  select, take, descending, ltb, leb, ◌==◌, if◌then◌else◌,
}
use prompt_manager.Text.{Text, codes, same}
use prompt_manager.Domain.{PromptExecutionLog, Average, PromptExecutionAggregate}
use prompt_manager.Store.{Action, ExecutionRow, ◌>>◌, pure, query, exec, insert_execution}
use prompt_manager.Repository.Paging.{limit_or}

-- if log.DurationMs != 0
abbrev pub duration_column : ℤ → Option ℤ
duration_column (pos zero) = none
duration_column (pos (suc n)) = some (pos (suc n))
duration_column (negsuc n) = some (negsuc n)

unfoldable pub create : PromptExecutionLog → Action (Unit {0})
create log = do
  exec λ now. insert_execution (record {
    log = record log { created_at = now };
    duration_ms = duration_column log.duration_ms;
  })
  pure tt

abbrev pub or_zero : Option ℤ → ℤ
or_zero none = pos 0
or_zero (some n) = n

-- the log that the columns of a row are scanned into
abbrev pub scanned : ExecutionRow → PromptExecutionLog
scanned x = record x.log { duration_ms = or_zero x.duration_ms }

unfoldable pub list_recent : Text → ℤ → Action (List PromptExecutionLog)
list_recent prompt_id limit = query λ _ db. map scanned (
    take (limit_or 20 limit) (
      descending (λ x. x.log.created_at)
        (select (λ x. same x.log.prompt_id prompt_id) db.executions)))

-- nanoseconds
abbrev pub second : ℕ
second = 1000000000

abbrev pub day_length : ℕ
day_length = 86400000000000

-- DATE(created_at)
abbrev pub day_of : ExecutionRow → ℕ
day_of x = x.log.created_at / day_length

-- CASE WHEN status = 'success' THEN 1 ELSE 0 END
abbrev pub succeeded : ExecutionRow → Bool
succeeded x = same x.log.status (codes "success")

-- AVG leaves NULL out.
abbrev pub averaged : Option ℤ → Option Average → Option Average
averaged none a = a
averaged (some n) none = some (record { sum = n; count = 1 })
averaged (some n) (some a) = some (record { sum = n +ℤ a.sum; count = suc a.count })

-- a row in the aggregate of its day
abbrev pub counted : ExecutionRow → PromptExecutionAggregate → PromptExecutionAggregate
counted x a = record a {
  total_calls = suc a.total_calls;
  success_calls = (if succeeded x then suc a.success_calls else a.success_calls);
  average_millis = averaged x.duration_ms a.average_millis;
}

abbrev pub no_calls : ℕ → PromptExecutionAggregate
no_calls day = record { day = day; total_calls = 0; success_calls = 0; average_millis = none }

-- GROUP BY day ORDER BY day DESC: a row joins the aggregate of its day, or founds it
unfoldable pub tally : ExecutionRow → List PromptExecutionAggregate → List PromptExecutionAggregate
tally x [] = counted x (no_calls (day_of x)) ∷ []
tally x (a ∷ as') =
    if day_of x == a.day
    then counted x a ∷ as'
    else if ltb a.day (day_of x)
    then counted x (no_calls (day_of x)) ∷ a ∷ as'
    else a ∷ tally x as'

unfoldable pub grouped : List ExecutionRow → List PromptExecutionAggregate
grouped [] = []
grouped (x ∷ xs) = tally x (grouped xs)

-- WHERE prompt_id = … AND created_at >= …
abbrev pub used_since : Text → ℕ → ExecutionRow → Bool
used_since prompt_id from x = same x.log.prompt_id prompt_id && leb from x.log.created_at

unfoldable pub aggregate_usage : Text → ℕ → Action (List PromptExecutionAggregate)
aggregate_usage prompt_id from =
    query λ _ db. grouped (select (used_since prompt_id from) db.executions)
