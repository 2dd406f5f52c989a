-- ===== src/Middleware.antt =====
-- src/middleware/database.ts, src/middleware/global.middleware.ts, `authorizeRoles` of src/middleware/authenticate.ts and
-- src/middleware/exception.filter.ts: what stands between a request and the handler of its route, and
-- what the client gets of an exception.
pub mod Steps
pub mod Guarded
mod Tests
use text.Mathlib.Text.{starts_with}
use d_hub.Base.{
  ℕ, String, Bool, true, false, not, ◌||◌, Option, none, some, List, [], ◌∷◌, map, str_eq, ◌==◌,
  if◌then◌else◌, any, AuthErrorReason, Exception, error, type_error, authentication_error,
  authorization_error, forbidden_error, not_found_exception, entity_not_found_error,
  bad_request_exception, validation_exception, failed_dependency_exception,
  internal_server_exception, external_service_error, axios_error, job_validation_exception, Result,
  ok, throw,
}
use d_hub.Roles.{Role, Ref, by_id, by_name, authorize_roles}
use d_hub.Orm.{Repository}
use d_hub.Auth.{RefreshToken, User}
use d_hub.Auth.Service.{AuthState, reason}
use d_hub.Auth.Middleware.{Request, authenticate}
use d_hub.Settings.{WizardSettings}

-- The answer to a request whose handler did not run or threw; messages and stacks are left out.
pub record Response : Type 0 where
  pub status : ℕ
  pub reason_code : Option AuthErrorReason
  pub permissions : List String
  pub roles : List String

abbrev plain : ℕ → Response
plain status = record { status = status; reason_code = none; permissions = []; roles = [] }

-- `code || 500`
abbrev status_or : Option ℕ → ℕ
status_or none = 500
status_or (some code) = if code == 0 then 500 else code

-- Of the classes of exceptions none has a `statusCode`. A `JobValidationException` is none of the classes that
-- the filter knows.
unfoldable pub exception_filter : Exception → Response
exception_filter (axios_error status) = plain (status_or status)
exception_filter (authentication_error reason) = record (plain 401) { reason_code = some reason }
exception_filter (authorization_error permissions roles) = record (plain 403) {
  permissions = permissions;
  roles = roles;
}
exception_filter forbidden_error = plain 403
exception_filter not_found_exception = plain 404
exception_filter entity_not_found_error = plain 404
exception_filter bad_request_exception = plain 400
exception_filter validation_exception = plain 400
exception_filter failed_dependency_exception = plain 424
exception_filter internal_server_exception = plain 500
exception_filter (external_service_error status) = plain (status_or status)
exception_filter error = plain 500
exception_filter type_error = plain 500
exception_filter job_validation_exception = plain 500

abbrev pub allowed_paths : List String
allowed_paths =
    "/api/first-time-setup/complete" ∷ "/api/first-time-setup/validate" ∷ "/api/test"
    ∷ "/api/auth/login-required" ∷ []

abbrev pub is_completed : Option WizardSettings → Bool
is_completed none = false
is_completed (some w) = w.wizard_completed

unfoldable pub validate_wizard_completed : Bool → Option WizardSettings → String → Result (Unit {0})
validate_wizard_completed is_demo_mode wizard path =
    if is_demo_mode || is_completed wizard
    then ok tt
    else if any (str_eq path) allowed_paths || not (starts_with path "/api")
    then ok tt
    else throw forbidden_error

-- `getAppDefaultRole`, with the two roles that src/container.ts gives.
unfoldable pub get_app_default_role : Bool → String
get_app_default_role wants_login = if wants_login then "GUEST" else "ADMIN"

-- `req.roles`: the ids of the user's roles, or the default role if there is no user.
unfoldable pub intercept_roles : Bool → Option User → List ℕ → List Ref
unfolding get_app_default_role
intercept_roles wants_login none role_ids = by_name (get_app_default_role wants_login) ∷ []
intercept_roles wants_login (some u) role_ids = map by_id role_ids

unfoldable pub permit_roles : List Role → List String → List Ref → Result (Unit {0})
permit_roles cached required assigned =
    if authorize_roles cached (map by_name required) assigned true
    then ok tt
    else throw (authorization_error [] required)

abbrev pub and_then : Result (Unit {0}) → Result (Unit {0}) → Result (Unit {0})
and_then (ok u) r = r
and_then (throw e) r = throw e

-- What becomes of a request: its handler runs, or it is stopped before.
pub data Passage : Type 0 where
  reached : Passage
  stopped : Response → Passage

unfoldable pub filtered : Result (Unit {0}) → Passage
unfolding exception_filter
filtered (ok u) = reached
filtered (throw e) = stopped (exception_filter e)

-- `ready_state` is what the server's host says of the database: 1 is connected.
unfoldable pub intercept_database_error : ℕ → Passage → Passage
intercept_database_error ready_state next = if ready_state == 1 then next else stopped (plain 500)

module _ (tokens : Repository RefreshToken) where
  -- The guards of a route with `before([authenticate(), authorizeRoles(required)])`, after those of all routes,
  -- and the filter of what they throw.
  unfoldable pub guards :
      ℕ
      → Bool
      → Option WizardSettings
      → Bool
      → List Role
      → List String
      → AuthState tokens
      → String
      → Request
      → List ℕ
      → Passage
  unfolding intercept_database_error validate_wizard_completed intercept_roles permit_roles
      authenticate filtered
  guards ready_state is_demo_mode wizard wants_login cached required st path req role_ids =
      intercept_database_error ready_state (
        filtered (
          and_then (validate_wizard_completed is_demo_mode wizard path) (
            and_then (authenticate tokens wants_login req st)
              (permit_roles cached required (intercept_roles wants_login req.user role_ids)))))
