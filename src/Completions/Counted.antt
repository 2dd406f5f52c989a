-- ===== src/Completions/Counted.antt =====
-- src/services/mongoose/print-completion.shared.ts: what the numbers of a printer's prints add up to.
use d_hub.Base.{
  ℕ, ◌+◌, ◌≤◌, String, ◌≡◌, refl, ◌∙◌, inl, inr, Bool, true, false, List, [], ◌∷◌, map, arith,
  str_eq_iff, Bool-cases, length, keep,
}
use d_hub.Base.Dict.{Dict}
use d_hub.Completions.{
  PrintCompletion, group_array_by, ShortEvent, short_event, PrintJobEvents, StatusCounts, is_after,
  has_status, count_status, correlation_text, job_of, process_completion,
}
use d_hub.Completions.Grouped.{total, total-group_array_by}

length-keep-le : {A : Type 0} (p : A → Bool) (xs : List A) → length (keep p xs) ≤ length xs
length-keep-le p [] = omega arith
length-keep-le p (x ∷ xs) = ground (arith, length-keep-le p xs)

length-keep_mono :
    {A : Type 0} (p q : A → Bool)
    → ((x : A) → p x ≡ true → q x ≡ true)
    → (xs : List A) → length (keep p xs) ≤ length (keep q xs)
length-keep_mono p q h [] = omega arith
length-keep_mono p q h (x ∷ xs) = elim (Bool-cases (p x)) [
  | inl e ↦ ground (arith, e, h x e, length-keep_mono p q h xs)
  | inr e ↦ elim (Bool-cases (q x)) [
    | inl f ↦ ground (arith, e, f, length-keep_mono p q h xs)
    | inr f ↦ ground (arith, e, f, length-keep_mono p q h xs)
  ]
]

-- The windows hold each other, and no more than there is.
pub IsOrdered : StatusCounts → Type 0
IsOrdered c =
    (c.events_last_24h ≤ c.events_last_48h)
    × (c.events_last_48h ≤ c.events_last_week)
    × (c.events_last_week ≤ c.count)

count-IsOrdered :
    (now : ℕ) (status : String) (es : List ShortEvent) → IsOrdered (count_status now status es)
unfolding count_status IsOrdered
count-IsOrdered now status es =
    let found = keep (has_status status) es in
    (
      length-keep_mono (is_after now 1) (is_after now 2) (λ e k. ground (arith, k)) found,
      length-keep_mono (is_after now 2) (is_after now 7) (λ e k. ground (arith, k)) found,
      length-keep-le (is_after now 7) found,
    )

length-disjoint :
    {A : Type 0} (p q : A → Bool)
    → ((x : A) → p x ≡ true → q x ≡ false)
    → (xs : List A) → length (keep p xs) + length (keep q xs) ≤ length xs
length-disjoint p q h [] = omega arith
length-disjoint p q h (x ∷ xs) = elim (Bool-cases (p x)) [
  | inl e ↦ ground (arith, e, h x e, length-disjoint p q h xs)
  | inr e ↦ elim (Bool-cases (q x)) [
    | inl f ↦ ground (arith, e, f, length-disjoint p q h xs)
    | inr f ↦ ground (arith, e, f, length-disjoint p q h xs)
  ]
]

length-map : {A B : Type 0} (f : A → B) (xs : List A) → length (map f xs) ≡ length xs
length-map f [] = refl
length-map f (x ∷ xs) = ground (arith, length-map f xs)

-- The events of all jobs together.
pub job_events : List PrintJobEvents → ℕ
job_events [] = 0
job_events (j ∷ js) = length j.events + job_events js

job_events-map :
    (d : Dict (List PrintCompletion)) → job_events (map job_of d) ≡ total correlation_text d
unfolding job_events job_of total
job_events-map [] = refl
job_events-map (entry ∷ d) = omega (arith, length-map short_event entry.1, job_events-map d)

one_status : (e : ShortEvent) → has_status "PrintFailed" e ≡ true → has_status "PrintDone" e ≡ false
one_status e h = rw ((str_eq_iff e.status "PrintFailed").0 h) refl

-- Of any events of a printer at any time: the jobs together hold as many events as there are,
-- there are as many correlation ids as jobs, failures and successes together are no more than the
-- events, and of both those of a day are no more than those of two days, these no more than those
-- of a week, and these no more than all.
pub process_completion-accounts :
    (now k : ℕ) (es : List PrintCompletion)
    → let a = process_completion now k es in
      (job_events a.print_jobs ≡ a.event_count)
      × (length a.correlation_ids ≡ a.print_count)
      × (a.failures.count + a.successes.count ≤ a.event_count)
      × IsOrdered a.failures
      × IsOrdered a.successes
unfolding process_completion count_status
process_completion-accounts now k es = (
  job_events-map (group_array_by correlation_text es) ∙ total-group_array_by correlation_text es,
  length-map (λ j. j.correlation_id) (map job_of (group_array_by correlation_text es)),
  omega (
    arith,
    length-map short_event es,
    length-disjoint (has_status "PrintFailed") (has_status "PrintDone") one_status
        (map short_event es),
  ),
  count-IsOrdered now "PrintFailed" (map short_event es),
  count-IsOrdered now "PrintDone" (map short_event es),
)
