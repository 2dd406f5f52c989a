-- ===== src/Completions/Grouped.antt =====
-- src/utils/array.util.ts: `groupArrayBy` against the filter of each key.
use mathlib.Core.Option
use mathlib.Core.Option
use mathlib.Core.Option
use d_hub.Base.{
  ℕ, suc, ◌+◌, String, ◌≡◌, refl, ap, ◌∙◌, inl, inr, Bool, Option, none, some, List, [], ◌∷◌, ◌++◌,
  arith, str_eq, str_eq_iff, if◌then◌else◌, Bool-cases, Option-cases, length, keep, any,
  length-append, append-nil, append_one,
}
use d_hub.Base.Dict.{Dict, lookup, insert, lookup-insert}
use d_hub.Completions.{group_from, group_array_by}

module _ {A : Type 0} (predicate : A → String) where
  -- What a group becomes when the values that follow are added.
  joined : Option (List A) → List A → Option (List A)
  joined none [] = none
  joined none (y ∷ ys) = some (y ∷ ys)
  joined (some zs) ys = some (zs ++ ys)

  joined-push :
      (o : Option (List A)) (x : A) (ys : List A)
      → joined (some (Option.get_or o [] ++ x ∷ [])) ys ≡ joined o (x ∷ ys)
  unfolding joined
  joined-push none x ys = refl
  joined-push (some zs) x ys = ap some (append_one zs x ys)

  lookup-group_from :
      (key : String) (acc : Dict (List A)) (xs : List A)
      → lookup key (group_from predicate acc xs)
        ≡ joined (lookup key acc) (keep (λ x. str_eq (predicate x) key) xs)
  unfolding group_from joined
  lookup-group_from key acc [] = elim (Option-cases (lookup key acc)) [
    | inl e ↦ ground (arith, e)
    | inr (zs, e) ↦ ground (arith, e, append-nil zs)
  ]
  lookup-group_from key acc (x ∷ xs) =
      let value = Option.get_or (lookup (predicate x) acc) [] ++ x ∷ [] in
      let later = lookup-group_from key (insert (predicate x) value acc) xs in
      let at_key = lookup-insert (predicate x) key value acc in
      elim (Bool-cases (str_eq (predicate x) key)) [
        | inl e ↦ ground (
          arith,
          later,
          at_key,
          e,
          (str_eq_iff (predicate x) key).0 e,
          joined-push (lookup key acc) x (keep (λ x. str_eq (predicate x) key) xs),
        )
        | inr e ↦ ground (arith, later, at_key, e)
      ]

  joined-keep :
      (p : A → Bool) (xs : List A)
      → joined none (keep p xs) ≡ (if any p xs then some (keep p xs) else none)
  unfolding joined
  joined-keep p [] = refl
  joined-keep p (x ∷ xs) = ground (arith, joined-keep p xs)

  -- A key has a group if some value has that key, and the group is then the values with that key in their order.
  pub lookup-group_array_by :
      (key : String) (xs : List A)
      → lookup key (group_array_by predicate xs) ≡ (
          if any (λ x. str_eq (predicate x) key) xs
          then some (keep (λ x. str_eq (predicate x) key) xs)
          else none)
  unfolding group_array_by lookup
  lookup-group_array_by key xs =
      lookup-group_from key [] xs ∙ joined-keep (λ x. str_eq (predicate x) key) xs

  unfoldable pub total : Dict (List A) → ℕ
  total [] = 0
  total (entry ∷ d) = length entry.1 + total d

  total-push :
      (key : String) (x : A) (d : Dict (List A))
      → total (insert key (Option.get_or (lookup key d) [] ++ x ∷ []) d) ≡ suc (total d)
  unfolding total insert lookup
  total-push key x [] = refl
  total-push key x (entry ∷ d) = elim (Bool-cases (str_eq entry.0 key)) [
    | inl e ↦ ground (arith, e, length-append entry.1 (x ∷ []))
    | inr e ↦ ground (arith, e, total-push key x d)
  ]

  total-group_from :
      (acc : Dict (List A)) (xs : List A)
      → total (group_from predicate acc xs) ≡ total acc + length xs
  unfolding group_from
  total-group_from acc [] = omega arith
  total-group_from acc (x ∷ xs) = omega (
    arith,
    total-push (predicate x) x acc,
    total-group_from
        (insert (predicate x) (Option.get_or (lookup (predicate x) acc) [] ++ x ∷ []) acc) xs,
  )

  pub total-group_array_by : (xs : List A) → total (group_array_by predicate xs) ≡ length xs
  unfolding group_array_by total
  total-group_array_by xs = omega (arith, total-group_from [] xs)
