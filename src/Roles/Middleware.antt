-- ===== src/Roles/Middleware.antt =====
-- `getRolesPermissions` of src/services/orm/role.service.ts, and the permission and role middleware
-- of src/middleware/authenticate.ts.
use mathlib.Core.Option
use d_hub.Base.{
  String, true, false, Option, none, some, List, [], ◌∷◌, authorization_error, Result, ok, throw,
}
use d_hub.Roles.{Role, Permission, Ref, by_name, normalize_role, authorize_permission}
use d_hub.Roles.Constants.{Union, role_perms}

module _ (lodash : Union) where
  -- `getRolePermissions`: the role is looked up once more under its name.
  unfoldable pub get_role_permissions : List Role → Option String → Option (List String)
  unfolding normalize_role role_perms
  get_role_permissions roles none = none
  get_role_permissions roles (some s) =
      Option.bind (normalize_role roles (by_name s)) (role_perms lodash)

  -- `union` of a list with `undefined` is the list.
  abbrev pub joined : List String → Option (List String) → List String
  joined perms none = perms
  joined perms (some more) = lodash.union perms more

  unfoldable pub permissions_from : List Role → List String → List Ref → List String
  unfolding get_role_permissions
  permissions_from roles perms [] = perms
  permissions_from roles perms (ref ∷ refs) =
      permissions_from roles (joined perms (get_role_permissions roles (normalize_role roles ref)))
        refs

  unfoldable pub get_roles_permissions : List Role → List Ref → List String
  unfolding permissions_from
  get_roles_permissions roles refs = permissions_from roles [] refs

  -- `authorizePermission`: no roles are refused at once.
  unfoldable pub permit : List Role → List Permission → String → List Ref → Result (Unit {0})
  unfolding get_roles_permissions
  permit roles perms permission [] = throw (authorization_error (permission ∷ []) [])
  permit roles perms permission (ref ∷ refs) =
      elim (authorize_permission perms permission (get_roles_permissions roles (ref ∷ refs))) [
        | throw e ↦ throw e
        | ok true ↦ ok tt
        | ok false ↦ throw (authorization_error (permission ∷ []) [])
      ]
