-- ===== src/Prompt/Laws/Stats.antt =====
-- The statistics of the execution logs of a prompt.
use prompt_manager.Base.{
  ℕ, zero, suc, ◌+◌, ◌<◌, ◌≡◌, refl, ap, ◌∙◌, ℤ, ◌&&◌, Option, some, List, [], ◌∷◌, arith, All,
  first, select, count, ◌==◌, if◌then◌else◌, ◌-◌, ◌*◌, ◌/◌, ◌%◌, ◌≤◌, int64, word, half_word, pos,
  negsuc, leb, Bool,
}
use prompt_manager.Text.{Text, same}
use prompt_manager.Domain.{Prompt, PromptExecutionAggregate, ok}
use prompt_manager.Store.{World, clock, ExecutionRow}
use prompt_manager.Store.Quiet.{IsQuiet, bind_ok, then_ok, query_quiet}
use prompt_manager.Repository.Paging.{limit_or}
use prompt_manager.Repository.Prompts.{live_id}
use prompt_manager.Repository.Executions
use prompt_manager.Repository.Executions.{day_of, succeeded, used_since, tally, grouped}
use prompt_manager.Prompt.Manage.{get_prompt}
use prompt_manager.Prompt.Stats.{get_execution_stats, days_before, time_of}
use prompt_manager.Prompt.Laws.Visibility.{answer, get_prompt_quiet}

-- The days fall, so that there is one aggregate for each.
abbrev pub Descends : List PromptExecutionAggregate → Type 0
Descends [] = Unit {0}
Descends (a ∷ as') = All (λ b. b.day < a.day) as' × Descends as'

abbrev pub calls_on : ℕ → List PromptExecutionAggregate → ℕ
calls_on d [] = 0
calls_on d (a ∷ as') = (if a.day == d then a.total_calls else 0) + calls_on d as'

abbrev pub successes_on : ℕ → List PromptExecutionAggregate → ℕ
successes_on d [] = 0
successes_on d (a ∷ as') = (if a.day == d then a.success_calls else 0) + successes_on d as'

-- Every aggregate counts a call.
abbrev pub IsUsed : PromptExecutionAggregate → Type 0
IsUsed a = 0 < a.total_calls

tally-below :
    (x : ExecutionRow) (as' : List PromptExecutionAggregate) (n : ℕ)
    → day_of x < n
    → All (λ b. b.day < n) as'
    → All (λ b. b.day < n) (tally x as')
unfolding tally
tally-below x [] n h k = (h, tt)
tally-below x (a ∷ as') n h k = ground (arith, tally-below x as' n)

below_trans :
    (m n : ℕ) (as' : List PromptExecutionAggregate)
    → m < n
    → All (λ b. b.day < m) as'
    → All (λ b. b.day < n) as'
below_trans m n [] h k = tt
below_trans m n (a ∷ as') h k = (omega (arith, k.0), below_trans m n as' h k.1)

tally-Descends :
    (x : ExecutionRow) (as' : List PromptExecutionAggregate) → Descends as' → Descends (tally x as')
unfolding tally
tally-Descends x [] h = (tt, tt)
tally-Descends x (a ∷ as') h =
    ground (arith, tally-below x as' a.day, below_trans a.day (day_of x) as', tally-Descends x as')

calls_on-tally :
    (d : ℕ) (x : ExecutionRow) (as' : List PromptExecutionAggregate)
    → calls_on d (tally x as') ≡ (if day_of x == d then suc (calls_on d as') else calls_on d as')
unfolding tally
calls_on-tally d x [] = ground arith
calls_on-tally d x (a ∷ as') = ground (arith, calls_on-tally d x as')

successes_on-tally :
    (d : ℕ) (x : ExecutionRow) (as' : List PromptExecutionAggregate)
    → successes_on d (tally x as')
      ≡ (if day_of x == d && succeeded x then suc (successes_on d as') else successes_on d as')
unfolding tally
successes_on-tally d x [] = ground arith
successes_on-tally d x (a ∷ as') = ground (arith, successes_on-tally d x as')

tally-IsUsed :
    (x : ExecutionRow) (as' : List PromptExecutionAggregate)
    → All IsUsed as'
    → All IsUsed (tally x as')
unfolding tally
tally-IsUsed x [] h = (omega arith, tt)
tally-IsUsed x (a ∷ as') h = ground (arith, tally-IsUsed x as')

-- What the aggregates say of the rows: one for each day that has any, latest first, with the calls
-- and the successes of the day.
pub record Summarizes (rows : List ExecutionRow) (as' : List PromptExecutionAggregate)
    : Type 0 where
  pub descends : Descends as'
  pub used : All IsUsed as'
  pub calls : (d : ℕ) → calls_on d as' ≡ count (λ x. day_of x == d) rows
  pub successes : (d : ℕ) → successes_on d as' ≡ count (λ x. day_of x == d && succeeded x) rows

grouped-Summarizes : (rows : List ExecutionRow) → Summarizes rows (grouped rows)
unfolding grouped
grouped-Summarizes [] = record {
  descends = tt;
  used = tt;
  calls = λ d. refl;
  successes = λ d. refl;
}
grouped-Summarizes (x ∷ xs) =
    let ih = grouped-Summarizes xs in
    record {
      descends = tally-Descends x (grouped xs) ih.descends;
      used = tally-IsUsed x (grouped xs) ih.used;
      calls = λ d.
          calls_on-tally d x (grouped xs)
          ∙ ap (λ (n : ℕ). if day_of x == d then suc n else n) (ih.calls d);
      successes = λ d.
          successes_on-tally d x (grouped xs)
          ∙ ap (λ (n : ℕ). if day_of x == d && succeeded x then suc n else n) (ih.successes d);
    }

-- a call of the prompt that is at most so many days of 24 hours old
abbrev pub is_recent : Text → (now days : ℕ) → ExecutionRow → Bool
is_recent id now days x =
    same x.log.prompt_id id && leb now (x.log.created_at + days * 86400000000000)

-- what is left of a difference of seconds that does not wrap around
time_of_difference :
    (s d n : ℕ)
    → s < half_word
    → d ≤ half_word
    → time_of (int64 (s + (word - d % word))) n ≡ (if leb d s then (s - d) * 1000000000 + n else 0)
time_of_difference s d n in_time short = ground arith

days_before_lem :
    (now days created : ℕ)
    → now / 1000000000 < half_word
    → days * 86400 ≤ half_word
    → leb (days_before now days) created ≡ leb now (created + days * 86400000000000)
days_before_lem now days created in_time short =
    rw (time_of_difference (now / 1000000000) (days * 86400) (now % 1000000000) in_time short)
      (ground arith)

-- the number of days: 7 where none or fewer are asked for
abbrev pub days_of : ℤ → ℕ
days_of (pos zero) = 7
days_of (pos (suc n)) = suc n
days_of (negsuc n) = 7

limit_or-days_of : (days : ℤ) → limit_or 7 days ≡ days_of days
unfolding limit_or
limit_or-days_of (pos zero) = refl
limit_or-days_of (pos (suc n)) = refl
limit_or-days_of (negsuc n) = refl

-- the recent calls are those that the statement selects
recent_rows :
    (id : Text) (days : ℤ) (w : World)
    → w.now / 1000000000 < half_word
    → days_of days * 86400 ≤ half_word
    → select (used_since id (days_before w.now (limit_or 7 days))) w.db.executions
      ≡ select (is_recent id w.now (days_of days)) w.db.executions
recent_rows id days w in_time short =
    ap (λ n. select (used_since id (days_before w.now n)) w.db.executions) (limit_or-days_of days)
    ∙ λ i.
        select
          (λ x.
            same x.log.prompt_id id
            && days_before_lem w.now (days_of days) x.log.created_at in_time short i)
          w.db.executions

-- In a quiet world, at a time whose seconds fit into 63 bits and for days whose seconds do too,
-- GetExecutionStats of a prompt that is there answers one aggregate for each day with calls of the
-- prompt that are at most that many days of 24 hours old, 7 where the number is not positive, latest
-- day first, with the number of the calls and of the successful ones of that day; nothing is
-- written.
pub get_execution_stats_lem :
    (id : Text) (days : ℤ) (w : World) (p : Prompt)
    → IsQuiet w
    → first (live_id id) w.db.prompts ≡ some p
    → w.now / 1000000000 < half_word
    → days_of days * 86400 ≤ half_word
    → let rows = select (is_recent id w.now (days_of days)) w.db.executions in
      (stats : List PromptExecutionAggregate) × (get_execution_stats id days w ≡ (ok stats, w))
      × Summarizes rows stats
unfolding get_execution_stats Executions.aggregate_usage clock
get_execution_stats_lem id days w p q row in_time short = (
  grouped _,
  then_ok (get_prompt id) w
        (get_prompt_quiet id w q ∙ ap (λ (o : Option Prompt). (answer w.db o, w)) row) _
      ∙ bind_ok clock w refl _
      ∙ query_quiet _ w q
      ∙ ap (λ (xs : List ExecutionRow). (ok (grouped xs), w)) (recent_rows id days w in_time short),
  grouped-Summarizes _,
)
