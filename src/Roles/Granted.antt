-- ===== src/Roles/Granted.antt =====
-- Who passes the permission and role checks of src/middleware/authenticate.ts.
use mathlib.Core.Option
use d_hub.Base.{
  String, ◌≡◌, refl, sym, ◌∙◌, ◌≢◌, ◌↔◌, inl, inr, Bool, true, false, ◌&&◌, ◌||◌, Option, none,
  some, List, [], ◌∷◌, ◌++◌, map, arith, str_eq, str_eq_iff, str_eq_refl, Bool-cases, find, any,
  any-append, ok,
}
use d_hub.Roles.{
  Role, Permission, Ref, by_name, normalize_role, authorize_role, authorize_each, authorize_roles,
  normalize_permission, authorize_permission,
}
use d_hub.Roles.Constants.{
  PermGroup, printer_files, printer_settings, floors, print_completion, server_info, all_perms,
  flatten_permission_definition, Union, unions, role_perms,
}
use d_hub.Roles.Middleware.{
  get_role_permissions, joined, permissions_from, get_roles_permissions, permit,
}
use d_hub.Orm.Lists.{find_holds}

abbrev pub among : String → List String → Bool
among s = any (λ x. str_eq x s)

abbrev pub among_some : String → Option (List String) → Bool
among_some s none = false
among_some s (some xs) = among s xs

-- The permissions of a user's roles.
module _ (lodash : Union) (roles : List Role) (p : String) where
  -- One role, by id or name, brings the permission.
  abbrev pub grants : Ref → Bool
  grants ref = among_some p (get_role_permissions lodash roles (normalize_role roles ref))

  among-joined :
      (xs : List String) (o : Option (List String))
      → among p (joined lodash xs o) ≡ (among p xs || among_some p o)
  among-joined xs none = ground arith
  among-joined xs (some ys) = lodash.union_lem p xs ys

  among-permissions_from :
      (xs : List String) (refs : List Ref)
      → among p (permissions_from lodash roles xs refs) ≡ (among p xs || any grants refs)
  unfolding permissions_from
  among-permissions_from xs [] = ground arith
  among-permissions_from xs (ref ∷ refs) =
      let o = get_role_permissions lodash roles (normalize_role roles ref) in
      ground (arith, among-permissions_from (joined lodash xs o) refs, among-joined xs o)

authorize_each-any :
    (roles : List Role) (required assigned : List Ref) (b : Bool)
    → authorize_each roles true required assigned b
      ≡ (b || any (λ r. authorize_role roles r assigned) required)
unfolding authorize_each
authorize_each-any roles [] assigned b = ground arith
authorize_each-any roles (r ∷ rs) assigned b =
    ground (arith, authorize_each-any roles rs assigned (b || authorize_role roles r assigned))

authorize_each-false :
    (roles : List Role) (required assigned : List Ref)
    → authorize_each roles false required assigned false ≡ false
unfolding authorize_each
authorize_each-false roles [] assigned = refl
authorize_each-false roles (r ∷ rs) assigned = authorize_each-false roles rs assigned

-- `authorizeRoles` with at least one required role: with `subset` it holds exactly if one of them is
-- assigned; without it, where all of them are to be assigned, it never holds, since the loop starts
-- from false.
pub authorize_roles_outcome :
    (roles : List Role) (r : Ref) (rs assigned : List Ref) (subset : Bool)
    → authorize_roles roles (r ∷ rs) assigned subset
      ≡ (subset && any (λ q. authorize_role roles q assigned) (r ∷ rs))
unfolding authorize_roles
authorize_roles_outcome roles r rs assigned true = authorize_each-any roles (r ∷ rs) assigned false
authorize_roles_outcome roles r rs assigned false = authorize_each-false roles (r ∷ rs) assigned

module _ (lodash : Union) (p : String) where
  among-unions :
      (gs : List PermGroup) → among p (unions lodash gs) ≡ any (λ g. among p (all_perms g)) gs
  unfolding unions
  among-unions [] = refl
  among-unions (g ∷ gs) =
      ground (arith, lodash.union_lem p (all_perms g) (unions lodash gs), among-unions gs)

  among-flatten :
      among p flatten_permission_definition
      ≡ any
          (λ g. among p (all_perms g))
          (printer_files ∷ printer_settings ∷ floors ∷ print_completion ∷ server_info ∷ [])
  unfolding flatten_permission_definition
  among-flatten =
      let has : String → Bool = λ x. str_eq x p in
      ground (
        arith,
        any-append has (all_perms printer_files) (
            all_perms printer_settings
            ++ (all_perms floors ++ (all_perms print_completion ++ all_perms server_info))),
        any-append has (all_perms printer_settings)
            (all_perms floors ++ (all_perms print_completion ++ all_perms server_info)),
        any-append has (all_perms floors) (all_perms print_completion ++ all_perms server_info),
        any-append has (all_perms print_completion) (all_perms server_info),
      )

  -- The administrator has every permission there is; the operator has all but those of the group
  -- ServerInfo; a guest has none.
  pub role_perms_table :
      (among_some p (role_perms lodash "ADMIN") ≡ among p flatten_permission_definition)
      × ((among_some p (role_perms lodash "OPERATOR") || among p (all_perms server_info))
          ≡ among p flatten_permission_definition)
      × (among_some p (role_perms lodash "GUEST") ≡ false)
  unfolding role_perms
  role_perms_table =
      let all =
        among-unions
          (floors ∷ printer_files ∷ print_completion ∷ printer_settings ∷ server_info ∷ []) in
      let most = among-unions (floors ∷ printer_files ∷ print_completion ∷ printer_settings ∷ []) in
      let flat = among-flatten in (ground (arith, all, flat), ground (arith, most, flat), refl)

module _ (lodash : Union) (s : String) where
  -- No role has a permission that is not defined.
  among-role_perms :
      (role : String)
      → among_some s (role_perms lodash role) ≡ true
      → among s flatten_permission_definition ≡ true
  unfolding role_perms
  among-role_perms role h =
      let (a, o, g) = role_perms_table lodash s in
      elim (Bool-cases (str_eq role "ADMIN")) [
        | inl e ↦ ground (arith, h, a, (str_eq_iff role "ADMIN").0 e)
        | inr e ↦ elim (Bool-cases (str_eq role "OPERATOR")) [
          | inl f ↦ ground (arith, h, o, (str_eq_iff role "OPERATOR").0 f)
          | inr f ↦ elim (Bool-cases (str_eq role "GUEST")) [
            | inl n ↦ ground (arith, h, g, (str_eq_iff role "GUEST").0 n)
            | inr n ↦ ground (arith, h, e, f, n)
          ]
        ]
      ]

  among-bind :
      (o : Option String)
      → among_some s (Option.bind o (role_perms lodash)) ≡ true
      → among s flatten_permission_definition ≡ true
  unfolding Option.bind
  among-bind none h = cc
  among-bind (some role) h = among-role_perms role h

  among-get_role_permissions :
      (roles : List Role) (o : Option String)
      → among_some s (get_role_permissions lodash roles o) ≡ true
      → among s flatten_permission_definition ≡ true
  unfolding get_role_permissions
  among-get_role_permissions roles none h = cc
  among-get_role_permissions roles (some x) h = among-bind (normalize_role roles (by_name x)) h

  among-granted :
      (roles : List Role) (refs : List Ref)
      → any (grants lodash roles s) refs ≡ true
      → among s flatten_permission_definition ≡ true
  among-granted roles [] h = absurd (cc)
  among-granted roles (ref ∷ refs) h = elim (Bool-cases (grants lodash roles s ref)) [
    | inl g ↦ among-get_role_permissions roles (normalize_role roles ref) g
    | inr g ↦ among-granted roles refs (ground (arith, h, g))
  ]

module _ (perms : List Permission) where
  find-some_of_any :
      (p : String) (rs : List Permission)
      → among p (map (λ r. r.name) rs) ≡ true
      → (r : Permission) × (find (λ r. str_eq r.name p) rs ≡ some r)
  find-some_of_any p [] h = absurd (cc)
  find-some_of_any p (r ∷ rs) h = elim (Bool-cases (str_eq r.name p)) [
    | inl e ↦ (r, rw e refl)
    | inr e ↦ let (a, f) = find-some_of_any p rs (ground (arith, h, e)) in (a, rw e f)
  ]

  normalize_cached :
      (x : String)
      → among x (map (λ r. r.name) perms) ≡ true
      → normalize_permission perms (by_name x) ≡ ok x
  unfolding normalize_permission
  normalize_cached x h =
      let (r, f) = find-some_of_any x perms h in
      let same = (str_eq_iff r.name x).0 (find_holds (λ r. str_eq r.name x) perms f) in
      ground (arith, f, same)

  -- Where all assigned permissions are cached.
  authorize_permission_lem :
      (p : String)
      → p ≢ ""
      → (assigned : List String)
      → ((x : String) → among x assigned ≡ true → among x (map (λ r. r.name) perms) ≡ true)
      → authorize_permission perms p assigned ≡ ok (among p assigned)
  unfolding authorize_permission
  authorize_permission_lem p n [] h = refl
  authorize_permission_lem p n (x ∷ xs) h =
      let first = normalize_cached x (h x (ground (arith, str_eq_refl x))) in
      let rest = authorize_permission_lem p n xs (λ y e. h y (ground (arith, e))) in
      elim (Bool-cases (str_eq x p)) [
        | inl e ↦
            let same = (str_eq_iff x p).0 e in
            ground (arith, first, rest, e, same, n, str_eq_iff x "")
        | inr e ↦ ground (arith, first, rest, e)
      ]

-- Where the cached permissions are those that are defined, as a synchronisation leaves them, a request for
-- a permission that is not the empty text passes the middleware exactly if one of the user's roles brings
-- the permission.
pub permit_iff :
    (perms : List Permission) (p : String) (lodash : Union) (roles : List Role) (refs : List Ref)
    → map (λ r. r.name) perms ≡ flatten_permission_definition
    → p ≢ ""
    → (permit lodash roles perms p refs ≡ ok tt) ↔ (any (grants lodash roles p) refs ≡ true)
unfolding permit get_roles_permissions
permit_iff perms p lodash roles [] cached n = ground arith
permit_iff perms p lodash roles (ref ∷ refs) cached n =
    let assigned = permissions_from lodash roles [] (ref ∷ refs) in
    let brought : (x : String) → among x assigned ≡ any (grants lodash roles x) (ref ∷ refs) =
      λ x. among-permissions_from lodash roles x [] (ref ∷ refs) in
    ground (
      arith,
      authorize_permission_lem perms p n assigned
          (λ x e. rw cached (among-granted lodash x roles (ref ∷ refs) (sym (brought x) ∙ e))),
      brought p,
    )
