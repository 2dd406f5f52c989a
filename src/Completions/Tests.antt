-- ===== src/Completions/Tests.antt =====
-- Three events of a printer.
use d_hub.Base.{
  ℕ, ◌+◌, ◌≤◌, String, ◌≡◌, refl, ◌⊎◌, Option, none, some, List, [], ◌∷◌, map, length, keep,
}
use d_hub.Base.Dict.{lookup}
use d_hub.Completions.{
  PrintCompletion, group_array_by, ShortEvent, short_event, has_status, count_status,
  correlation_text, process_completion,
}
use d_hub.Completions.Grouped.{lookup-group_array_by}
use d_hub.Completions.Counted.{IsOrdered, job_events, process_completion-accounts}
use d_hub.Completions.Latest.{IsLatest, count_status-IsLatest}

abbrev event : ℕ → ℕ → String → Option String → PrintCompletion
event k at status id = record {
  id = k;
  file_name = "a.gcode";
  created_at = at;
  status = status;
  printer_id = 4;
  completion_log = none;
  correlation_id = id;
}

abbrev some_events : List PrintCompletion
some_events =
    event 1 10 "PrintStarted" (some "x")
    ∷ event 2 90000000 "PrintFailed" none
    ∷ event 3 20 "PrintDone" (some "x")
    ∷ event 4 90000000 "PrintFailed" (some "y")
    ∷ []

process_completion-accounts_example :
    let a = process_completion 100000000 4 some_events in
    (job_events a.print_jobs ≡ a.event_count)
    × (length a.correlation_ids ≡ a.print_count)
    × (a.failures.count + a.successes.count ≤ a.event_count)
    × IsOrdered a.failures
    × IsOrdered a.successes
process_completion-accounts_example = process_completion-accounts 100000000 4 some_events

counts : (process_completion 100000000 4 some_events).print_count ≡ 3
unfolding process_completion d_hub.Base.Dict.insert
counts = refl

lookup-group_array_by_example :
    lookup "x" (group_array_by correlation_text some_events)
    ≡ some (event 1 10 "PrintStarted" (some "x") ∷ event 3 20 "PrintDone" (some "x") ∷ [])
lookup-group_array_by_example = lookup-group_array_by correlation_text "x" some_events

abbrev short_events : List ShortEvent
short_events = map short_event some_events

count_status-IsLatest_example :
    let c = count_status 100000000 "PrintFailed" short_events in
    ((keep (has_status "PrintFailed") short_events ≡ []) × (c.count ≡ 0) × (c.last ≡ none))
    ⊎ ((m : ShortEvent) × (c.last ≡ some m)
        × IsLatest m (keep (has_status "PrintFailed") short_events))
count_status-IsLatest_example = count_status-IsLatest 100000000 "PrintFailed" short_events
