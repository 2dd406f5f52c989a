-- ===== src/Middleware/Tests.antt =====
-- Requests for a route of operators and administrators.
use d_hub.Base.{
  ℕ, ◌≡◌, refl, Bool, true, false, Option, none, some, List, [], ◌∷◌, invalid_or_expired_auth_token,
  authentication_error, forbidden_error,
}
use d_hub.Middleware.{exception_filter, Passage, reached, stopped, guards}
use d_hub.Roles.{Role}
use d_hub.Orm.{Repository}
use d_hub.Orm.Table.{in_memory}
use d_hub.Auth.{RefreshToken}
use d_hub.Auth.Service.{AuthState}
use d_hub.Auth.Middleware.{bearer_of, Request}
use d_hub.Settings.{WizardSettings}

abbrev tokens_in_memory : Repository RefreshToken
tokens_in_memory = in_memory (λ t. t.id)

abbrev nobody : AuthState tokens_in_memory
nobody = record { token_table = []; blacklisted_jwt_cache = [] }

abbrev anonymous : Request
anonymous = record { user = none; authorization = none; is_authenticated = false }

abbrev two_roles : List Role
two_roles = record { id = 1; name = "ADMIN" } ∷ record { id = 2; name = "OPERATOR" } ∷ []

abbrev done : WizardSettings
done = record { wizard_completed = true; wizard_completed_at = none; wizard_version = 1 }

abbrev request_of : ℕ → Option WizardSettings → Bool → Passage
unfolding guards
request_of ready_state wizard wants_login =
    guards tokens_in_memory ready_state false wizard wants_login two_roles
      ("OPERATOR" ∷ "ADMIN" ∷ []) nobody "/api/printer" anonymous []

no_login : request_of 1 (some done) false ≡ reached
unfolding guards d_hub.Roles.authorize_roles d_hub.Roles.authorize_role
no_login = refl

login_wanted :
    request_of 1 (some done) true
    ≡ stopped (exception_filter (authentication_error invalid_or_expired_auth_token))
unfolding guards d_hub.Auth.Middleware.bearer_of
login_wanted = refl

first_setup : request_of 1 none false ≡ stopped (exception_filter forbidden_error)
unfolding guards
first_setup = refl

no_database :
    request_of 0 (some done) false
    ≡ stopped (record { status = 500; reason_code = none; permissions = []; roles = [] })
unfolding guards
no_database = refl
