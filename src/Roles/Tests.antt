-- ===== src/Roles/Tests.antt =====
-- The checks of roles and permissions on concrete users.
use d_hub.Roles
use mathlib.Core.Option
use d_hub.Base.{
  ℕ, String, ◌≡◌, refl, ◌↔◌, true, List, [], ◌∷◌, ◌++◌, map, str_eq, any, any-append, type_error,
  ok, throw,
}
use d_hub.Orm.{Repository}
use d_hub.Orm.Table.{in_memory}
use d_hub.Roles.{Role, Permission, by_id, by_name, authorize_role, authorize_roles, sync_names}
use d_hub.Roles.Constants.{all_perms, flatten_permission_definition, role_names, Union}
use d_hub.Roles.Middleware.{permit}
use d_hub.Roles.Granted.{grants, permit_iff}
use d_hub.Roles.Synced.{sync-idempotent}

-- A union that only appends.
abbrev appending : Union
appending = record {
  union = λ xs ys. xs ++ ys;
  union_lem = λ s xs ys. any-append (λ x. str_eq x s) xs ys;
}

abbrev stored_roles : List Role
stored_roles =
    record { id = 1; name = "ADMIN" }
    ∷ record { id = 2; name = "OPERATOR" }
    ∷ record { id = 3; name = "GUEST" }
    ∷ []

-- As a synchronisation leaves them, but for the ids.
abbrev defined_permissions : List Permission
defined_permissions = map (λ s. record { id = 1; name = s }) flatten_permission_definition

operator_uploads :
    permit appending stored_roles defined_permissions "PrinterFiles.Upload" (by_id 3 ∷ by_id 2 ∷ [])
    ≡ ok tt
unfolding permit Roles.authorize_permission Option.bind all_perms flatten_permission_definition
operator_uploads = refl

permit_iff_example :
    (permit appending stored_roles defined_permissions "ServerInfo.Get" (by_id 2 ∷ []) ≡ ok tt)
    ↔ (any (grants appending stored_roles "ServerInfo.Get") (by_id 2 ∷ []) ≡ true)
unfolding flatten_permission_definition all_perms
permit_iff_example =
    permit_iff defined_permissions "ServerInfo.Get" appending stored_roles (by_id 2 ∷ []) refl
      (λ e. absurd (cc))

-- The first assigned permission that is not cached.
unsynchronised : permit appending stored_roles [] "ServerInfo.Get" (by_id 1 ∷ []) ≡ throw type_error
unfolding permit Roles.authorize_permission Option.bind all_perms
unsynchronised = refl

abbrev role_repo : Repository Role
role_repo = in_memory (λ r. r.id)

abbrev new_role : String → ℕ → Role
new_role s k = record { id = k; name = s }

sync-idempotent_example :
    (rs : List Role) × (t : List Role) × (sync_names role_repo
        (λ r. r.name)
        new_role
        role_names
        (record { id = 5; name = "GUEST" } ∷ [])
      ≡ (ok rs, t))
    × (map (λ r. r.name) rs ≡ role_names)
    × (sync_names role_repo (λ r. r.name) new_role role_names t ≡ (ok rs, t))
sync-idempotent_example =
    sync-idempotent role_repo (λ r. r.name) new_role (λ s k. refl) role_names
      (record { id = 5; name = "GUEST" } ∷ [])
