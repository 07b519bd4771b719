-- ===== src/Users/Permission.antt =====
-- internal/users/permission.go: the permissions of a role, and the middleware that asks for one.
use schlass.Base.{
  ◌≡◌, true, Option, none, some, List, [], ◌∷◌, String, ◌==◌, contains, if◌then◌else◌, ◌↔◌, arith,
  eq_iff,
}
use schlass.Store.Tables.{User}

-- The entry "super_admin" of rolePermissions.
abbrev pub super_admin_permissions : List String
super_admin_permissions =
    "users.list" ∷ "users.read" ∷ "users.create" ∷ "users.update" ∷ "users.enable" ∷ "users.disable"
    ∷ "users.delete" ∷ "users.reset_password" ∷ "users.sessions.read" ∷ "users.sessions.terminate"
    ∷ "users.reset_mfa" ∷ "signing_keys.list" ∷ "signing_keys.rotate" ∷ "signing_keys.retire"
    ∷ "settings.read" ∷ "settings.write" ∷ "clients.list" ∷ "clients.read" ∷ "clients.create"
    ∷ "clients.update" ∷ "clients.disable" ∷ "clients.enable" ∷ "clients.rotate_secret"
    ∷ "clients.delete" ∷ []

-- An unknown role has none, as the role "user".
unfoldable pub permissions_for_role : String → List String
permissions_for_role role = if role == "super_admin" then super_admin_permissions else []

pub data Gate : Type 0 where
  unauthenticated forbidden passed : Gate

-- The user is the one of the request's context.
unfoldable pub require_permission : (perm : String) → Option User → Gate
require_permission perm none = unauthenticated
require_permission perm (some u) =
    if contains (permissions_for_role u.role) perm then passed else forbidden

gate_passed :
    (perms : List String) (perm role : String)
    → ((if contains (if role == "super_admin" then perms else []) perm then passed else forbidden)
        ≡ passed)
      ↔ ((role ≡ "super_admin") × (contains perms perm ≡ true))
gate_passed perms perm role = ground (arith, eq_iff role "super_admin")

-- A request passes a gate for one of the permissions of super_admin exactly when its user has that role, and no request
-- passes a gate for any other permission.
pub require_permission-passed :
    (perm : String) (u : User)
    → (require_permission perm (some u) ≡ passed)
      ↔ ((u.role ≡ "super_admin") × (contains super_admin_permissions perm ≡ true))
unfolding require_permission permissions_for_role
require_permission-passed perm u = gate_passed super_admin_permissions perm u.role
