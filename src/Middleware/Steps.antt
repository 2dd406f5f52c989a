-- ===== src/Middleware/Steps.antt =====
-- src/middleware: what each guard of a request lets through, and what the filter makes of its exception.
use text.Mathlib.Text.{starts_with}
use d_hub.Base.{
  ℕ, String, ◌≡◌, refl, ◌≢◌, ◌↔◌, ◌⊎◌, ◌==◌, ==_iff, inl, inr, Bool, true, false, Option, none,
  some, List, [], ◌∷◌, map, arith, str_eq, str_eq_iff, Bool-cases, any, Exception, Result, ok,
  throw,
}
use d_hub.Middleware.{
  exception_filter, validate_wizard_completed, and_then, Response, Passage, reached, stopped,
  filtered, intercept_database_error,
}
use d_hub.Roles.{Role, Ref, by_name, normalize_role}
use d_hub.Settings.{WizardSettings}

pub and_then_iff : (a b : Result (Unit {0})) → (and_then a b ≡ ok tt) ↔ ((a ≡ ok tt) × (b ≡ ok tt))
and_then_iff (ok u) b = ground (arith)
and_then_iff (throw e) b = ground (arith)

pub and_then-throw :
    (a b : Result (Unit {0})) {e : Exception}
    → and_then a b ≡ throw e
    → (a ≡ throw e) ⊎ (b ≡ throw e)
and_then-throw (ok u) b h = inr h
and_then-throw (throw e) b h = inl h

-- A path that is open before the wizard is done.
abbrev pub IsOpen : String → Type 0
IsOpen path =
    (any (str_eq path) (
        "/api/first-time-setup/complete" ∷ "/api/first-time-setup/validate" ∷ "/api/test"
        ∷ "/api/auth/login-required" ∷ [])
      ≡ true)
    ⊎ (starts_with path "/api" ≡ false)

-- Demo mode, a wizard that is done, or an open path.
abbrev pub MaySkipWizard : Bool → Option WizardSettings → String → Type 0
MaySkipWizard is_demo_mode wizard path =
    (is_demo_mode ≡ true)
    ⊎ (((w : WizardSettings) × (wizard ≡ some w) × (w.wizard_completed ≡ true)) ⊎ IsOpen path)

is_open : (path : String) → validate_wizard_completed false none path ≡ ok tt → IsOpen path
unfolding validate_wizard_completed
is_open path h = elim (Bool-cases (starts_with path "/api")) [
  | inr e ↦ inr e
  | inl e ↦ inl (ground (arith, h, e))
]

open-passes :
    (is_demo_mode : Bool) (wizard : Option WizardSettings) (path : String)
    → IsOpen path
    → validate_wizard_completed is_demo_mode wizard path ≡ ok tt
unfolding validate_wizard_completed
open-passes is_demo_mode wizard path (inl h) = ground (arith, h)
open-passes is_demo_mode wizard path (inr h) = ground (arith, h)

pub wizard_iff :
    (is_demo_mode : Bool) (wizard : Option WizardSettings) (path : String)
    → (validate_wizard_completed is_demo_mode wizard path ≡ ok tt)
      ↔ MaySkipWizard is_demo_mode wizard path
unfolding validate_wizard_completed
wizard_iff true wizard path = (λ h. inl refl, λ c. refl)
wizard_iff false none path = (
  λ h. inr (inr (is_open path h)),
  λ c. elim c [
    | inl d ↦ cc
    | inr e ↦ elim e [
      | inl (w, f, g) ↦ absurd (ground (arith, f))
      | inr o ↦ open-passes false none path o
    ]
  ],
)
wizard_iff false (some w) path = (
  λ h. elim (Bool-cases w.wizard_completed) [
    | inl d ↦ inr (inl (w, refl, d))
    | inr d ↦ inr (inr (is_open path (ground (arith, h, d))))
  ],
  λ c. elim c [
    | inl d ↦ cc
    | inr e ↦ elim e [
      | inl (v, f, g) ↦ ground (arith, f, g)
      | inr o ↦ open-passes false (some w) path o
    ]
  ],
)

pub wizard-refuses :
    (is_demo_mode : Bool) (wizard : Option WizardSettings) (path : String) {e : Exception}
    → validate_wizard_completed is_demo_mode wizard path ≡ throw e
    → (exception_filter e).status ≡ 403
unfolding validate_wizard_completed exception_filter
wizard-refuses is_demo_mode wizard path {e} h = ground (arith, h)

-- The one role that the cached roles and the assigned ones both have.
pub admin_found :
    (cs : List Role)
    → any (λ c. str_eq c.name "ADMIN") cs ≡ true
    → normalize_role cs (by_name "ADMIN") ≡ some "ADMIN"
unfolding normalize_role
admin_found [] h = absurd (cc)
admin_found (c ∷ cs) h = elim (Bool-cases (str_eq c.name "ADMIN")) [
  | inl e ↦ ground (arith, e, (str_eq_iff c.name "ADMIN").0 e)
  | inr e ↦ ground (arith, e, h, admin_found cs)
]

pub any-wanted :
    (f : Ref → Bool)
    → f (by_name "ADMIN") ≡ true
    → (rs : List String) → any (λ s. str_eq s "ADMIN") rs ≡ true
    → any f (map by_name rs) ≡ true
any-wanted f k [] h = absurd (cc)
any-wanted f k (r ∷ rs) h = ground (arith, h, k, any-wanted f k rs, str_eq_iff r "ADMIN")

pub filtered_iff : (a : Result (Unit {0})) → (filtered a ≡ reached) ↔ (a ≡ ok tt)
unfolding filtered
filtered_iff (ok u) = (λ h. refl, λ h. refl)
filtered_iff (throw e) = (λ h. cc, λ h. cc)

pub filtered-stopped :
    (a : Result (Unit {0})) {x : Response}
    → filtered a ≡ stopped x
    → (e : Exception) × (a ≡ throw e) × (exception_filter e ≡ x)
unfolding filtered
filtered-stopped (ok u) h = absurd (ground (arith, h))
filtered-stopped (throw e) h = (e, refl, ground (arith, h))

pub intercepted-reached :
    (ready_state : ℕ) (next : Passage)
    → (intercept_database_error ready_state next ≡ reached) ↔ ((ready_state ≡ 1) × (next ≡ reached))
unfolding intercept_database_error
intercepted-reached ready_state next = ground (arith, ==_iff ready_state 1)

pub intercepted-stopped :
    (ready_state : ℕ) (next : Passage) {x : Response}
    → intercept_database_error ready_state next ≡ stopped x
    → ((ready_state ≢ 1) × (x.status ≡ 500)) ⊎ ((ready_state ≡ 1) × (next ≡ stopped x))
unfolding intercept_database_error
intercepted-stopped ready_state next {x} h = elim (Bool-cases (ready_state == 1)) [
  | inl e ↦ inr ((==_iff ready_state 1).0 e, ground (arith, h, e))
  | inr e ↦ inl (λ f. ground (arith, e, f, ==_iff ready_state 1), ground (arith, h, e))
]
