-- ===== src/Completions/Latest.antt =====
-- src/services/mongoose/print-completion.shared.ts: which event a `reduce` by `createdAt` finds.
-- The event stands in the list after events that are no later and before events that are earlier.
use d_hub.Base.{
  ℕ, ◌≤◌, ◌<◌, String, ◌≡◌, refl, ◌⊎◌, inl, inr, none, some, List, [], ◌∷◌, ◌++◌, arith, ltb,
  Bool-cases, length, keep, All,
}
use d_hub.Completions.{ShortEvent, latest_from, latest, has_status, count_status}

pub record IsLatest (m : ShortEvent) (es : List ShortEvent) : Type 0 where
  pub before : List ShortEvent
  pub after : List ShortEvent
  pub splits : es ≡ before ++ m ∷ after
  pub no_later : All (λ e. e.created_at ≤ m.created_at) before
  pub earlier : All (λ e. e.created_at < m.created_at) after

-- An earlier event after the first one changes nothing.
keep_first :
    (e x m : ShortEvent) (xs : List ShortEvent)
    → x.created_at < e.created_at
    → IsLatest m (e ∷ xs)
    → IsLatest m (e ∷ x ∷ xs)
keep_first e x m xs h i = go i.before i.splits i.no_later
  where
    go :
        (ys : List ShortEvent)
        → e ∷ xs ≡ ys ++ m ∷ i.after
        → All (λ e. e.created_at ≤ m.created_at) ys
        → IsLatest m (e ∷ x ∷ xs)
    go [] s n = record {
      before = [];
      after = x ∷ i.after;
      splits = ground (arith, s);
      no_later = tt;
      earlier = (ground (arith, s, h), i.earlier);
    }
    go (y ∷ ys) s n = record {
      before = e ∷ x ∷ ys;
      after = i.after;
      splits = ground (arith, s);
      no_later = (ground (arith, s, n.0), (ground (arith, s, h, n.0), n.1));
      earlier = i.earlier;
    }

drop_first_event :
    (e x m : ShortEvent) (xs : List ShortEvent)
    → e.created_at ≤ x.created_at
    → IsLatest m (x ∷ xs)
    → IsLatest m (e ∷ x ∷ xs)
drop_first_event e x m xs h i = go i.before i.splits i.no_later
  where
    go :
        (ys : List ShortEvent)
        → x ∷ xs ≡ ys ++ m ∷ i.after
        → All (λ e. e.created_at ≤ m.created_at) ys
        → IsLatest m (e ∷ x ∷ xs)
    go [] s n = record {
      before = e ∷ [];
      after = i.after;
      splits = ground (arith, s);
      no_later = (ground (arith, s, h), tt);
      earlier = i.earlier;
    }
    go (y ∷ ys) s n = record {
      before = e ∷ y ∷ ys;
      after = i.after;
      splits = ground (arith, s);
      no_later = (ground (arith, s, h, n.0), (n.0, n.1));
      earlier = i.earlier;
    }

latest_from-IsLatest :
    (e : ShortEvent) (es : List ShortEvent) → IsLatest (latest_from e es) (e ∷ es)
unfolding latest_from
latest_from-IsLatest e [] = record {
  before = [];
  after = [];
  splits = refl;
  no_later = tt;
  earlier = tt;
}
latest_from-IsLatest e (x ∷ xs) = elim (Bool-cases (ltb x.created_at e.created_at)) [
  | inl c ↦
      rw (c) (keep_first e x (latest_from e xs) xs (ground (arith, c)) (latest_from-IsLatest e xs))
  | inr c ↦
      rw (c)
        (drop_first_event e x (latest_from x xs) xs (ground (arith, c)) (latest_from-IsLatest x xs))
]

-- The last event with a status, at any time and for any events: there is none if no event has the status, and
-- else it is the last among the latest of them.
pub count_status-IsLatest :
    (now : ℕ) (status : String) (es : List ShortEvent)
    → let c = count_status now status es in
      ((keep (has_status status) es ≡ []) × (c.count ≡ 0) × (c.last ≡ none))
      ⊎ ((m : ShortEvent) × (c.last ≡ some m) × IsLatest m (keep (has_status status) es))
unfolding count_status latest
count_status-IsLatest now status es = go (keep (has_status status) es)
  where
    go :
        (found : List ShortEvent)
        → ((found ≡ []) × (length found ≡ 0) × (latest found ≡ none))
          ⊎ ((m : ShortEvent) × (latest found ≡ some m) × IsLatest m found)
    go [] = inl (refl, refl, refl)
    go (e ∷ es) = inr (latest_from e es, refl, latest_from-IsLatest e es)
