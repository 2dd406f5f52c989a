-- ===== src/Groups/Members.antt =====
-- src/services/orm/printer-group.service.ts: who is in which group.
use d_hub.Orm
use mathlib.Core.Path.{subst}
use d_hub.Base.{
  ℕ, String, ◌≡◌, refl, sym, ◌∙◌, ◌⊎◌, inl, inr, Bool, true, false, not, List, [], ◌∷◌, ◌++◌, map,
  arith, ◌==◌, if◌then◌else◌, ==_iff, Bool-cases, Option-cases, keep, find, any, All, any-append,
  not_found_exception, ok, throw, detached,
}
use d_hub.Groups.{
  Group, PrinterGroup, joins, Db, get_group, get_group_with_printers, create_group,
  update_group_name, delete_group, add_printer_to_group, remove_printer_from_group,
}
use d_hub.Orm.{Repository}
use d_hub.Orm.Lists.{
  AtMostOne, find_holds, find-none, find-of_none, AtMostOne-keep, AtMostOne-append,
}

pub data Op : Type 0 where
  create_op : String → Op
  rename_op : ℕ → String → Op
  delete_op : ℕ → Op
  add_op : ℕ → ℕ → Op
  remove_op : ℕ → ℕ → Op

module _ {groups : Repository Group} {members : Repository PrinterGroup} where
  unfoldable pub run_op : Op → Db groups members → Db groups members
  unfolding create_group update_group_name delete_group add_printer_to_group
      remove_printer_from_group
  run_op (create_op name) = detached (create_group name)
  run_op (rename_op k name) = detached (update_group_name k name)
  run_op (delete_op k) = detached (delete_group k)
  run_op (add_op k p) = detached (add_printer_to_group k p)
  run_op (remove_op k p) = detached (remove_printer_from_group k p)

  unfoldable pub run_ops : List Op → Db groups members → Db groups members
  unfolding run_op
  run_ops [] d = d
  run_ops (op ∷ ops) d = run_ops ops (run_op op d)

module _ {A : Type 0} where
  All-keep_imp :
      (P Q : A → Type 0) (q : A → Bool)
      → ((x : A) → q x ≡ true → P x → Q x)
      → (xs : List A) → All P xs
      → All Q (keep q xs)
  All-keep_imp P Q q h [] a = tt
  All-keep_imp P Q q h (x ∷ xs) a = elim (Bool-cases (q x)) [
    | inl e ↦ rw (e) (h x e a.0, All-keep_imp P Q q h xs a.1)
    | inr e ↦ rw (e) (All-keep_imp P Q q h xs a.1)
  ]

  All-imp : (P Q : A → Type 0) → ((x : A) → P x → Q x) → (xs : List A) → All P xs → All Q xs
  All-imp P Q h [] a = tt
  All-imp P Q h (x ∷ xs) a = (h x a.0, All-imp P Q h xs a.1)

  All-append_one : (P : A → Type 0) (xs : List A) (x : A) → All P xs → P x → All P (xs ++ x ∷ [])
  All-append_one P [] x a h = (h, tt)
  All-append_one P (y ∷ ys) x a h = (a.0, All-append_one P ys x a.1 h)

any-map_keeps :
    {A : Type 0} (p : A → Bool) (f : A → A)
    → ((x : A) → p (f x) ≡ p x)
    → (xs : List A) → any p (map f xs) ≡ any p xs
any-map_keeps p f h [] = refl
any-map_keeps p f h (x ∷ xs) = ground (arith, h x, any-map_keeps p f h xs)

any-keep_other :
    {A : Type 0} (p q : A → Bool)
    → ((x : A) → p x ≡ true → q x ≡ true)
    → (xs : List A) → any p (keep q xs) ≡ any p xs
any-keep_other p q h [] = refl
any-keep_other p q h (x ∷ xs) = ground (arith, h x, any-keep_other p q h xs)

abbrev IsKnown : Repository Group → List Group → PrinterGroup → Type 0
IsKnown groups gs m = any (λ g. groups.id g == m.group_id) gs ≡ true

module _ {groups : Repository Group} {members : Repository PrinterGroup}
    (id_lem : (g : Group) → groups.id g ≡ g.id) where
  -- A printer is in a group once at most, and the group is there.
  pub record IsValid (d : Db groups members) : Type 0 where
    pub once : (g p : ℕ) → AtMostOne (joins g p) (members.rows d.member_table)
    pub known : All (IsKnown groups (groups.rows d.group_table)) (members.rows d.member_table)

  get_group_cases :
      (k : ℕ) (d : Db groups members)
      → (get_group k d ≡ (throw not_found_exception, d))
        ⊎ ((g : Group) × (get_group k d ≡ (ok g, d))
            × (groups.id g ≡ k)
            × (any (λ g. groups.id g == k) (groups.rows d.group_table) ≡ true))
  unfolding get_group
  get_group_cases k d =
      elim (Option-cases (find (λ g. groups.id g == k) (groups.rows d.group_table))) [
        | inl e ↦
            inl (ground (arith, e, groups.find_one_by_lem (λ g. groups.id g == k) d.group_table))
        | inr (g, e) ↦ inr (
          g,
          ground (arith, e, groups.find_one_by_lem (λ g. groups.id g == k) d.group_table),
          (==_iff (groups.id g) k).0
              (find_holds (λ g. groups.id g == k) (groups.rows d.group_table) e),
          ground (arith, e, find-of_none (λ g. groups.id g == k) (groups.rows d.group_table)),
        )
      ]

  -- The rows of both tables are those of a state that is valid.
  rows-IsValid :
      (d' : Db groups members) (gs : List Group) (ms : List PrinterGroup)
      → groups.rows d'.group_table ≡ gs
      → members.rows d'.member_table ≡ ms
      → ((g p : ℕ) → AtMostOne (joins g p) ms)
      → All (IsKnown groups gs) ms
      → IsValid d'
  rows-IsValid d' gs ms e f o k = record {
    once = λ g p. subst (λ ms. AtMostOne (joins g p) ms) (sym f) (o g p);
    known =
        subst (λ gs. All (IsKnown groups gs) (members.rows d'.member_table)) (sym e)
          (subst (λ ms. All (IsKnown groups gs) ms) (sym f) k);
  }

  create-IsValid :
      (name : String) (d : Db groups members) → IsValid d → IsValid (run_op (create_op name) d)
  unfolding run_op create_group get_group_with_printers get_group
  create-IsValid name d h =
      let new : ℕ → Group = λ k. record { id = k; name = name } in
      let ms = members.rows d.member_table in
      rows-IsValid (run_op (create_op name) d)
        (groups.rows d.group_table ++ new (groups.next_id d.group_table) ∷ []) ms
        (ground (arith, groups.rows-save new d.group_table)) (ground (arith)) h.once
        (All-imp (IsKnown groups (groups.rows d.group_table))
          (IsKnown groups (groups.rows d.group_table ++ new (groups.next_id d.group_table) ∷ []))
          (λ m e. ground (
            arith,
            e,
            any-append (λ g. groups.id g == m.group_id) (groups.rows d.group_table)
                (new (groups.next_id d.group_table) ∷ []),
          ))
          ms h.known)

  unchanged-IsValid : (d d' : Db groups members) → d' ≡ d → IsValid d → IsValid d'
  unchanged-IsValid d d' e h = subst (λ d. IsValid d) (sym e) h

  rename-IsValid :
      (k : ℕ) (name : String) (d : Db groups members)
      → IsValid d
      → IsValid (run_op (rename_op k name) d)
  unfolding run_op update_group_name
  rename-IsValid k name d h = elim (get_group_cases k d) [
    | inl e ↦ unchanged-IsValid d (run_op (rename_op k name) d) (ground (arith, e)) h
    | inr (g, e, i, a) ↦
        let f : Group → Group =
          λ x. if groups.id x == groups.id g then record x { name = name } else x in
        let gs = groups.rows d.group_table in
        let u =
          groups.rows-update (λ x. groups.id x == groups.id g) (λ x. record x { name = name })
            d.group_table in
        rows-IsValid (run_op (rename_op k name) d) (map f gs) (members.rows d.member_table)
          (ground (arith, e, u)) (ground (arith, e)) h.once
          (All-imp (IsKnown groups gs) (IsKnown groups (map f gs))
            (λ m c.
              any-map_keeps (λ x. groups.id x == m.group_id) f
                (λ x. ground (arith, id_lem x, id_lem (record x { name = name }))) gs
              ∙ c)
            (members.rows d.member_table) h.known)
  ]

  delete-IsValid : (k : ℕ) (d : Db groups members) → IsValid d → IsValid (run_op (delete_op k) d)
  unfolding run_op delete_group
  delete-IsValid k d h = elim (get_group_cases k d) [
    | inl e ↦ unchanged-IsValid d (run_op (delete_op k) d) (ground (arith, e)) h
    | inr (g, e, i, a) ↦
        let q : Group → Bool = λ x. not (groups.id x == groups.id g) in
        let r : PrinterGroup → Bool = λ m. not (m.group_id == groups.id g) in
        let gs = groups.rows d.group_table in
        let ms = members.rows d.member_table in
        rows-IsValid (run_op (delete_op k) d) (keep q gs) (keep r ms)
          (ground (arith, e, groups.rows-delete (λ x. groups.id x == groups.id g) d.group_table))
          (ground (arith, e, members.rows-delete (λ m. m.group_id == groups.id g) d.member_table))
          (λ g p. AtMostOne-keep (joins g p) r ms (h.once g p))
          (All-keep_imp (IsKnown groups gs) (IsKnown groups (keep q gs)) r
            (λ m n c.
              any-keep_other (λ x. groups.id x == m.group_id) q
                (λ x y. ground (arith, n, y, ==_iff (groups.id x) m.group_id)) gs
              ∙ c)
            ms h.known)
  ]

  add-IsValid : (k p : ℕ) (d : Db groups members) → IsValid d → IsValid (run_op (add_op k p) d)
  unfolding run_op add_printer_to_group Orm.create
  add-IsValid k p d h = elim (get_group_cases k d) [
    | inl e ↦ unchanged-IsValid d (run_op (add_op k p) d) (ground (arith, e)) h
    | inr (g, e, i, a) ↦
        elim (Option-cases (members.find_one_by (joins (groups.id g) p) d.member_table)) [
          | inr (m, f) ↦ unchanged-IsValid d (run_op (add_op k p) d) (ground (arith, e, f)) h
          | inl f ↦
              let new : PrinterGroup = record {
                id = members.next_id d.member_table;
                group_id = groups.id g;
                printer_id = p;
              } in
              let ms = members.rows d.member_table in
              let free : any (joins (groups.id g) p) ms ≡ false =
                find-none (joins (groups.id g) p) ms
                  (sym (members.find_one_by_lem (joins (groups.id g) p) d.member_table) ∙ f) in
              rows-IsValid (run_op (add_op k p) d) (groups.rows d.group_table) (ms ++ new ∷ [])
                (ground (arith, e, f))
                (ground (
                  arith,
                  e,
                  f,
                  members.rows-save (λ k. record { id = k; group_id = groups.id g; printer_id = p })
                      d.member_table,
                ))
                (λ j l.
                  AtMostOne-append (joins j l) ms new (h.once j l)
                    (λ y. ground (arith, y, free, ==_iff (groups.id g) j, ==_iff p l)))
                (All-append_one (IsKnown groups (groups.rows d.group_table)) ms new h.known
                  (ground (arith, i, a)))
        ]
  ]

  remove-IsValid :
      (k p : ℕ) (d : Db groups members) → IsValid d → IsValid (run_op (remove_op k p) d)
  unfolding run_op remove_printer_from_group
  remove-IsValid k p d h = elim (get_group_cases k d) [
    | inl e ↦ unchanged-IsValid d (run_op (remove_op k p) d) (ground (arith, e)) h
    | inr (g, e, i, a) ↦
        let r : PrinterGroup → Bool = λ m. not (joins k p m) in
        let ms = members.rows d.member_table in
        rows-IsValid (run_op (remove_op k p) d) (groups.rows d.group_table) (keep r ms)
          (ground (arith, e)) (ground (arith, e, members.rows-delete (joins k p) d.member_table))
          (λ g p. AtMostOne-keep (joins g p) r ms (h.once g p))
          (All-keep_imp (IsKnown groups (groups.rows d.group_table))
            (IsKnown groups (groups.rows d.group_table)) r (λ m n c. c) ms h.known)
  ]

  run_op-IsValid : (op : Op) (d : Db groups members) → IsValid d → IsValid (run_op op d)
  run_op-IsValid (create_op name) d h = create-IsValid name d h
  run_op-IsValid (rename_op k name) d h = rename-IsValid k name d h
  run_op-IsValid (delete_op k) d h = delete-IsValid k d h
  run_op-IsValid (add_op k p) d h = add-IsValid k p d h
  run_op-IsValid (remove_op k p) d h = remove-IsValid k p d h

  -- If each printer is in a group once at most and each membership is of a group that is there, this stays so
  -- under any operations on groups in any order, whether they return or throw.
  pub run_ops-IsValid :
      (ops : List Op) (d : Db groups members) → IsValid d → IsValid (run_ops ops d)
  unfolding run_ops
  run_ops-IsValid [] d h = h
  run_ops-IsValid (op ∷ ops) d h = run_ops-IsValid ops (run_op op d) (run_op-IsValid op d h)
