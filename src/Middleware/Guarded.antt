-- ===== src/Middleware/Guarded.antt =====
-- src/middleware: which requests reach the handler of a guarded route.
use text.Mathlib.Text.{}
use d_hub.Base.Dict.{lookup}
use d_hub.Base.{
  ℕ, String, ◌≡◌, refl, sym, ap, ◌∙◌, ◌≢◌, ◌↔◌, ◌⊎◌, inl, inr, Bool, true, false, Option, none,
  some, List, [], ◌∷◌, map, arith, str_eq, if◌then◌else◌, any, Exception, authorization_error, ok,
  throw,
}
use d_hub.Middleware.{
  exception_filter, validate_wizard_completed, get_app_default_role, intercept_roles, permit_roles,
  and_then, Response, reached, stopped, filtered, guards,
}
use d_hub.Roles.{Role, Ref, by_id, by_name, authorize_role}
use d_hub.Roles.Granted.{authorize_roles_outcome}
use d_hub.Orm.{Repository}
use d_hub.Auth.{RefreshToken, User}
use d_hub.Auth.Service.{AuthState}
use d_hub.Auth.Middleware.{bearer_of, Request, authenticate, authenticate_iff}
use d_hub.Settings.{WizardSettings}
use d_hub.Middleware.Steps.{
  and_then_iff, and_then-throw, wizard-refuses, admin_found, any-wanted, MaySkipWizard, wizard_iff,
  filtered_iff, filtered-stopped, intercepted-reached, intercepted-stopped,
}

module _ (tokens : Repository RefreshToken) (cached : List Role) (r : String)
    (rs : List String) where
  permit_roles_lem :
      (assigned : List Ref)
      → permit_roles cached (r ∷ rs) assigned ≡ (
          if any (λ q. authorize_role cached q assigned) (map by_name (r ∷ rs))
          then ok tt
          else throw (authorization_error [] (r ∷ rs)))
  unfolding permit_roles
  permit_roles_lem assigned =
      rw (authorize_roles_outcome cached (by_name r) (map by_name rs) assigned true) refl

  permit_roles_iff :
      (assigned : List Ref)
      → (permit_roles cached (r ∷ rs) assigned ≡ ok tt)
        ↔ (any (λ q. authorize_role cached q assigned) (map by_name (r ∷ rs)) ≡ true)
  permit_roles_iff assigned = ground (arith, permit_roles_lem assigned)

  permit_roles-refuses :
      (assigned : List Ref) {e : Exception}
      → permit_roles cached (r ∷ rs) assigned ≡ throw e
      → (exception_filter e).status ≡ 403
  unfolding exception_filter
  permit_roles-refuses assigned {e} h = ground (arith, h, permit_roles_lem assigned)

  authenticate-refuses :
      (wants_login : Bool) (req : Request) (st : AuthState tokens) {e : Exception}
      → authenticate tokens wants_login req st ≡ throw e
      → (exception_filter e).status ≡ 401
  unfolding authenticate exception_filter
  authenticate-refuses wants_login req st {e} h = ground (arith, h)

  -- The user has one of the roles, or the default role is one of them: GUEST with logins, and ADMIN
  -- without.
  abbrev pub HasRole : Bool → Option User → List ℕ → Type 0
  HasRole wants_login user role_ids =
      ((u : User)
        → user ≡ some u
        → any (λ q. authorize_role cached q (map by_id role_ids)) (map by_name (r ∷ rs)) ≡ true)
      × (user ≡ none
          → any
              (λ q.
                authorize_role cached q (by_name (if wants_login then "GUEST" else "ADMIN") ∷ []))
              (map by_name (r ∷ rs))
            ≡ true)

  roles_iff :
      (wants_login : Bool) (user : Option User) (role_ids : List ℕ)
      → (any
            (λ q. authorize_role cached q (intercept_roles wants_login user role_ids))
            (map by_name (r ∷ rs))
          ≡ true)
        ↔ HasRole wants_login user role_ids
  unfolding intercept_roles get_app_default_role
  roles_iff wants_login none role_ids =
      ((λ h. ((λ u f. absurd (ground (arith, f))), λ f. h)), λ p. p.1 refl)
  roles_iff wants_login (some u) role_ids =
      ((λ h. ((λ v f. h), λ f. absurd (ground (arith, f)))), λ p. p.0 u refl)

  refused :
      (is_demo_mode : Bool) (wizard : Option WizardSettings) (wants_login : Bool)
      (st : AuthState tokens) (path : String) (req : Request) (assigned : List Ref) {e : Exception}
      {x : Response}
      → and_then (validate_wizard_completed is_demo_mode wizard path) (
          and_then (authenticate tokens wants_login req st) (permit_roles cached (r ∷ rs) assigned))
        ≡ throw e
      → exception_filter e ≡ x
      → (x.status ≡ 401) ⊎ (x.status ≡ 403)
  refused is_demo_mode wizard wants_login st path req assigned h f =
      elim (and_then-throw (validate_wizard_completed is_demo_mode wizard path) _ h) [
        | inl k ↦ inr (ap (λ y. y.status) (sym f) ∙ wizard-refuses is_demo_mode wizard path k)
        | inr k ↦ elim (and_then-throw (authenticate tokens wants_login req st) _ k) [
          | inl l ↦ inl (ap (λ y. y.status) (sym f) ∙ authenticate-refuses wants_login req st l)
          | inr l ↦ inr (ap (λ y. y.status) (sym f) ∙ permit_roles-refuses assigned l)
        ]
      ]

  pub guards_iff :
      (ready_state : ℕ) (is_demo_mode : Bool) (wizard : Option WizardSettings) (wants_login : Bool)
      (st : AuthState tokens) (path : String) (req : Request) (role_ids : List ℕ)
      → let outcome =
          guards tokens ready_state is_demo_mode wizard wants_login cached
            (r ∷ rs)
            st
            path
            req
            role_ids in
        ((outcome ≡ reached) ↔ (
          (ready_state ≡ 1)
          × MaySkipWizard is_demo_mode wizard path
          × ((wants_login ≡ false)
              ⊎ ((req.is_authenticated ≡ true)
                  × ((u : User) → req.user ≡ some u → u.needs_password_change ≡ false)
                  × ((jwt : String)
                      → bearer_of req.authorization ≡ some jwt
                      → lookup jwt st.blacklisted_jwt_cache ≡ none)))
          × HasRole wants_login req.user role_ids))
        × ((x : Response)
            → outcome ≡ stopped x
            → ((ready_state ≢ 1) × (x.status ≡ 500))
              ⊎ ((ready_state ≡ 1) × ((x.status ≡ 401) ⊎ (x.status ≡ 403))))
  unfolding guards
  guards_iff ready_state is_demo_mode wizard wants_login st path req role_ids =
      let assigned = intercept_roles wants_login req.user role_ids in
      let wizard_guard = validate_wizard_completed is_demo_mode wizard path in
      let login_guard = authenticate tokens wants_login req st in
      let role_guard = permit_roles cached (r ∷ rs) assigned in
      let both = and_then login_guard role_guard in
      let all = and_then wizard_guard both in
      (
        (
          λ h.
              let (n, g) = (intercepted-reached ready_state (filtered all)).0 h in
              let (a, k) = (and_then_iff wizard_guard both).0 ((filtered_iff all).0 g) in
              let (b, c) = (and_then_iff login_guard role_guard).0 k in
              (
                n,
                (wizard_iff is_demo_mode wizard path).0 a,
                (authenticate_iff tokens wants_login req st).0 b,
                (roles_iff wants_login req.user role_ids).0 ((permit_roles_iff assigned).0 c),
              ),
          λ (n, a, b, c).
              let k = (and_then_iff login_guard role_guard).1 (
                (authenticate_iff tokens wants_login req st).1 b,
                (permit_roles_iff assigned).1 ((roles_iff wants_login req.user role_ids).1 c),
              ) in
              (intercepted-reached ready_state (filtered all)).1 (
                n,
                (filtered_iff all).1 (
                    (and_then_iff wizard_guard both).1
                      ((wizard_iff is_demo_mode wizard path).1 a, k)),
              ),
        ),
        λ x h. elim (intercepted-stopped ready_state (filtered all) h) [
          | inl p ↦ inl p
          | inr (n, g) ↦
              let (e, t, f) = filtered-stopped all g in
              inr (n, refused is_demo_mode wizard wants_login st path req assigned t f)
        ],
      )

  -- Without a login, and if the role ADMIN is cached and among those that the route wants, any request without a user
  -- reaches the handler once the database is connected and the wizard is done.
  pub no_login-guards :
      (st : AuthState tokens) (path : String) (req : Request) (role_ids : List ℕ)
      (w : WizardSettings)
      → w.wizard_completed ≡ true
      → req.user ≡ none
      → any (λ c. str_eq c.name "ADMIN") cached ≡ true
      → any (λ s. str_eq s "ADMIN") (r ∷ rs) ≡ true
      → guards tokens 1 false (some w) false cached (r ∷ rs) st path req role_ids ≡ reached
  unfolding authorize_role
  no_login-guards st path req role_ids w d n c h =
      (guards_iff 1 false (some w) false st path req role_ids).0.1 (
        refl,
        inr (inl (w, refl, d)),
        inl refl,
        (
          λ u e. absurd (ground (arith, e, n)),
          λ e.
              any-wanted (λ q. authorize_role cached q (by_name "ADMIN" ∷ []))
                (ground (arith, admin_found cached c)) (r ∷ rs) h,
        ),
      )
