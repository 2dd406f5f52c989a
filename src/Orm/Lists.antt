-- ===== src/Orm/Lists.antt =====
-- Rows found, kept and added: the list facts that the services of src/services/orm rest on.
use d_hub.Base.{
  ◌≡◌, refl, inl, inr, Bool, true, false, none, some, List, [], ◌∷◌, ◌++◌, map, arith,
  if◌then◌else◌, Bool-cases, keep, find, any, any-append, any-keep-false,
}

module _ {ℓ} {A : Type ℓ} where
  -- At most one element passes the test.
  abbrev pub AtMostOne : (A → Bool) → List A → Type 0
  AtMostOne p [] = Unit
  AtMostOne p (x ∷ xs) = (p x ≡ true → any p xs ≡ false) × AtMostOne p xs

  pub find_holds : (p : A → Bool) (xs : List A) {a : A} → find p xs ≡ some a → p a ≡ true
  find_holds p [] h = cc
  find_holds p (x ∷ xs) {a} h = ground (arith, find_holds p xs {a = a})

  pub find-none : (p : A → Bool) (xs : List A) → find p xs ≡ none → any p xs ≡ false
  find-none p [] h = refl
  find-none p (x ∷ xs) h = ground (arith, find-none p xs)

  pub find-of_none : (p : A → Bool) (xs : List A) → any p xs ≡ false → find p xs ≡ none
  find-of_none p [] h = refl
  find-of_none p (x ∷ xs) h = ground (arith, find-of_none p xs)

  -- What one test finds, another test that it passes finds something for too.
  pub find-is_some :
      (p q : A → Bool) (xs : List A) {a : A}
      → find p xs ≡ some a
      → q a ≡ true
      → (b : A) × (find q xs ≡ some b)
  find-is_some p q [] h k = absurd (cc)
  find-is_some p q (x ∷ xs) {a} h k = elim (Bool-cases (q x)) [
    | inl e ↦ (x, rw e refl)
    | inr e ↦ let (b, f) = find-is_some p q xs {a = a} (ground (arith, h, k, e)) k in (b, rw e f)
  ]

  -- Dropping the one row that passes leaves none.
  pub any-keep_found :
      (p q : A → Bool) (xs : List A) {a : A}
      → AtMostOne p xs
      → find p xs ≡ some a
      → q a ≡ false
      → any p (keep q xs) ≡ false
  any-keep_found p q [] m h k = refl
  any-keep_found p q (x ∷ xs) {a} m h k =
      ground (arith, any-keep_found p q xs {a = a} m.1, any-keep-false p q xs)

  pub AtMostOne-keep : (p q : A → Bool) (xs : List A) → AtMostOne p xs → AtMostOne p (keep q xs)
  AtMostOne-keep p q [] m = tt
  AtMostOne-keep p q (x ∷ xs) m = elim (Bool-cases (q x)) [
    | inl e ↦ rw e (λ h. any-keep-false p q xs (m.0 h), AtMostOne-keep p q xs m.1)
    | inr e ↦ rw e (AtMostOne-keep p q xs m.1)
  ]

  pub AtMostOne-append :
      (p : A → Bool) (xs : List A) (a : A)
      → AtMostOne p xs
      → (p a ≡ true → any p xs ≡ false)
      → AtMostOne p (xs ++ a ∷ [])
  AtMostOne-append p [] a m h = (λ _. refl, tt)
  AtMostOne-append p (x ∷ xs) a m h = (
    λ e. ground (arith, m.0 e, any-append p xs (a ∷ []), h, e),
    AtMostOne-append p xs a m.1 (λ e. ground (arith, h e)),
  )

  pub find-append :
      (p : A → Bool) (xs : List A) (a : A)
      → any p xs ≡ false
      → p a ≡ true
      → find p (xs ++ a ∷ []) ≡ some a
  find-append p [] a n h = rw h
  find-append p (x ∷ xs) a n h = ground (arith, find-append p xs a)

  -- The one row that passes, after some rows are dropped.
  pub find-keep_found :
      (p q : A → Bool) (xs : List A) {a : A}
      → AtMostOne p xs
      → find p xs ≡ some a
      → find p (keep q xs) ≡ (if q a then some a else none)
  find-keep_found p q [] m h = cc
  find-keep_found p q (x ∷ xs) {a} m h = ground (
    arith,
    find-keep_found p q xs {a = a} m.1,
    find-of_none p (keep q xs),
    any-keep-false p q xs,
    m.0,
  )

  abbrev pub rewritten : (A → Bool) → (A → A) → List A → List A
  rewritten p f = map (λ x. if p x then f x else x)

  pub find-rewritten :
      (p : A → Bool) (f : A → A) (xs : List A) {a : A}
      → find p xs ≡ some a
      → p (f a) ≡ true
      → find p (rewritten p f xs) ≡ some (f a)
  find-rewritten p f [] h k = cc
  find-rewritten p f (x ∷ xs) {a} h k = ground (arith, find-rewritten p f xs {a = a})

  any-rewritten :
      (p : A → Bool) (f : A → A) (xs : List A) → any p xs ≡ false → any p (rewritten p f xs) ≡ false
  any-rewritten p f [] h = refl
  any-rewritten p f (x ∷ xs) h = ground (arith, any-rewritten p f xs)

  pub AtMostOne-rewritten :
      (p : A → Bool) (f : A → A) (xs : List A) → AtMostOne p xs → AtMostOne p (rewritten p f xs)
  AtMostOne-rewritten p f [] m = tt
  AtMostOne-rewritten p f (x ∷ xs) m = elim (Bool-cases (p x)) [
    | inl e ↦ rw e (λ _. any-rewritten p f xs (m.0 e), AtMostOne-rewritten p f xs m.1)
    | inr e ↦ rw e (λ h. any-rewritten p f xs (m.0 (cc)), AtMostOne-rewritten p f xs m.1)
  ]
