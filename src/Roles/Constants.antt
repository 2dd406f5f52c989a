-- ===== src/Roles/Constants.antt =====
-- src/constants/authorization.constants.ts: the permissions, and those of each role. `union` is
-- lodash's, with its documented result: the elements of both lists, each once.
use Prim.Native.String
use d_hub.Base.{
  String, ◌≡◌, ◌||◌, Option, none, some, List, [], ◌∷◌, ◌++◌, map, str_eq, if◌then◌else◌, any,
}

abbrev serialize_perm : String → String → String
serialize_perm group perm = String.◌++◌ group (String.◌++◌ "." perm)

pub data PermGroup : Type 0 where
  printer_files printer_settings floors print_completion server_info : PermGroup

abbrev group_name : PermGroup → String
group_name printer_files = "PrinterFiles"
group_name printer_settings = "PrinterSettings"
group_name floors = "PrinterFloors"
group_name print_completion = "PrintCompletion"
group_name server_info = "ServerInfo"

abbrev perm_names : PermGroup → List String
perm_names printer_files = "Default" ∷ "Get" ∷ "Delete" ∷ "Clear" ∷ "Upload" ∷ "Actions" ∷ []
perm_names print_completion = "Default" ∷ "List" ∷ []
perm_names floors = "Default" ∷ "List" ∷ "Get" ∷ "Create" ∷ "Update" ∷ "Delete" ∷ []
perm_names printer_settings = "Default" ∷ "Get" ∷ []
perm_names server_info = "Default" ∷ "Get" ∷ []

-- `Object.values(PERMS[group])`
unfoldable pub all_perms : PermGroup → List String
all_perms g = map (serialize_perm (group_name g)) (perm_names g)

-- The groups in the order of `PERM_GROUP`.
unfoldable pub flatten_permission_definition : List String
flatten_permission_definition =
    all_perms printer_files
    ++ (all_perms printer_settings
        ++ (all_perms floors ++ (all_perms print_completion ++ all_perms server_info)))

abbrev pub role_names : List String
role_names = "ADMIN" ∷ "OPERATOR" ∷ "GUEST" ∷ []

pub record Union : Type 0 where
  pub union : List String → List String → List String
  pub union_lem :
      (s : String) (xs ys : List String)
      → any (λ x. str_eq x s) (union xs ys) ≡ (any (λ x. str_eq x s) xs || any (λ x. str_eq x s) ys)

module _ (lodash : Union) where
  open lodash use {union}

  unfoldable pub unions : List PermGroup → List String
  unions [] = []
  unions (g ∷ gs) = union (all_perms g) (unions gs)

  -- `ROLE_PERMS[role]`; `undefined` for other names.
  unfoldable pub role_perms : String → Option (List String)
  unfolding unions
  role_perms role =
      if str_eq role "ADMIN"
      then some
          (unions (floors ∷ printer_files ∷ print_completion ∷ printer_settings ∷ server_info ∷ []))
      else if str_eq role "OPERATOR"
      then some (unions (floors ∷ printer_files ∷ print_completion ∷ printer_settings ∷ []))
      else if str_eq role "GUEST"
      then some []
      else none
