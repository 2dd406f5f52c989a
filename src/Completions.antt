-- ===== src/Completions.antt =====
-- src/services/mongoose/print-completion.shared.ts and the queries of
-- src/services/orm/print-completion.service.ts that use it. Times are milliseconds; `e.createdAt > now - d`
-- is written without the subtraction. The context that the last failure and success also show is left out. `parse_int` is the runtime's `parseInt` on the text of an id.
pub mod Grouped
pub mod Counted
pub mod Latest
mod Tests
use mathlib.Core.Option
use d_hub.Base.{
  ℕ, zero, suc, ◌+◌, ◌*◌, String, Bool, false, Option, none, some, List, [], ◌∷◌, ◌++◌, map, str_eq,
  ltb, if◌then◌else◌, length, keep,
}
use d_hub.Base.Dict.{Dict, lookup, insert}
use d_hub.KeyDiff.Keys.{decimal}

-- `context?.correlationId` is the key of a job, and the text "undefined" if it is not there.
pub record PrintCompletion : Type 0 where
  pub id : ℕ
  pub file_name : String
  pub created_at : ℕ
  pub status : String
  pub printer_id : ℕ
  pub completion_log : Option String
  pub correlation_id : Option String

module _ {A : Type 0} where
  unfoldable pub group_from : (A → String) → Dict (List A) → List A → Dict (List A)
  group_from predicate acc [] = acc
  group_from predicate acc (x ∷ xs) =
      group_from predicate
        (insert (predicate x) (Option.get_or (lookup (predicate x) acc) [] ++ x ∷ []) acc) xs

  -- src/utils/array.util.ts; the predicates of the callers read the value alone.
  unfoldable pub group_array_by : (A → String) → List A → Dict (List A)
  unfolding group_from
  group_array_by predicate xs = group_from predicate [] xs

pub record ShortEvent : Type 0 where
  pub status : String
  pub file_name : String
  pub created_at : ℕ
  pub completion_log : Option String

abbrev pub short_event : PrintCompletion → ShortEvent
short_event e = record {
  status = e.status;
  file_name = e.file_name;
  created_at = e.created_at;
  completion_log = e.completion_log;
}

-- `events.reduce((e1, e2) => e1.createdAt > e2.createdAt ? e1 : e2)`, from the first event on.
unfoldable pub latest_from : ShortEvent → List ShortEvent → ShortEvent
latest_from e [] = e
latest_from e (x ∷ xs) = latest_from (if ltb x.created_at e.created_at then e else x) xs

unfoldable pub latest : List ShortEvent → Option ShortEvent
unfolding latest_from
latest [] = none
latest (e ∷ es) = some (latest_from e es)

pub record PrintJobEvents : Type 0 where
  pub correlation_id : String
  pub events : List ShortEvent
  pub last_event : Option ShortEvent

-- What is told of the events with one status.
pub record StatusCounts : Type 0 where
  pub count : ℕ
  pub last : Option ShortEvent
  pub events_last_week : ℕ
  pub events_last_48h : ℕ
  pub events_last_24h : ℕ

pub record AnalyzedCompletions : Type 0 where
  pub printer_id : ℕ
  pub event_count : ℕ
  pub print_count : ℕ
  pub failures : StatusCounts
  pub successes : StatusCounts
  pub correlation_ids : List String
  pub print_jobs : List PrintJobEvents

abbrev pub duration_day_msec : ℕ
duration_day_msec = 24 * 60 * 60 * 1000

abbrev pub is_after : ℕ → ℕ → ShortEvent → Bool
is_after now days e = ltb now (e.created_at + days * duration_day_msec)

abbrev pub has_status : String → ShortEvent → Bool
has_status status e = str_eq e.status status

unfoldable pub count_status : ℕ → String → List ShortEvent → StatusCounts
unfolding latest
count_status now status events =
    let found = keep (has_status status) events in
    record {
      count = length found;
      last = latest found;
      events_last_week = length (keep (is_after now 7) found);
      events_last_48h = length (keep (is_after now 2) found);
      events_last_24h = length (keep (is_after now 1) found);
    }

abbrev pub correlation_text : PrintCompletion → String
correlation_text e = Option.get_or e.correlation_id "undefined"

abbrev pub job_of : String × List PrintCompletion → PrintJobEvents
unfolding latest
job_of entry =
    let events = map short_event entry.1 in
    record { correlation_id = entry.0; events = events; last_event = latest events }

-- One entry of the list that `processCompletions` maps.
unfoldable pub process_completion : ℕ → ℕ → List PrintCompletion → AnalyzedCompletions
unfolding group_array_by count_status job_of
process_completion now printer_id print_events =
    let jobs = map job_of (group_array_by correlation_text print_events) in
    let events = map short_event print_events in
    record {
      printer_id = printer_id;
      event_count = length print_events;
      print_count = length jobs;
      failures = count_status now "PrintFailed" events;
      successes = count_status now "PrintDone" events;
      correlation_ids = map (λ j. j.correlation_id) jobs;
      print_jobs = jobs;
    }

abbrev first : {A : Type 0} → ℕ → List A → List A
first zero xs = []
first (suc n) [] = []
first (suc n) (x ∷ xs) = x ∷ first n xs

-- `listPaged()` reads the first 50 rows.
unfoldable pub list_group_by_printer_status :
    (String → ℕ) → ℕ → List PrintCompletion → List AnalyzedCompletions
unfolding group_array_by process_completion
list_group_by_printer_status parse_int now rows =
    map (λ entry. process_completion now (parse_int entry.0) entry.1)
      (group_array_by (λ e. decimal e.printer_id) (first 50 rows))

unfoldable pub find_print_completion : String → List PrintCompletion → List PrintCompletion
find_print_completion correlation_id =
    keep (λ e. elim e.correlation_id [ none ↦ false | some c ↦ str_eq c correlation_id ])
