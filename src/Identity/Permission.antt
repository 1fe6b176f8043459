-- ===== src/Identity/Permission.antt =====
-- internal/identity/permissions.go: the catalog and the sets of permissions.
pub mod Laws
use Prim.Native.Nat.{Ordering}
use Prim.Native.String
use git_single_tenant_templa.Prelude.{
  String, Bool, true, false, not, List, [], ◌∷◌, str_eq, if◌then◌else◌, any, all, filter, sort_by,
}
use git_single_tenant_templa.Model.{Permission, PermissionSet}

abbrev pub users_read : Permission
users_read = "users.read"

abbrev pub users_update : Permission
users_update = "users.update"

abbrev pub invitations_read : Permission
invitations_read = "invitations.read"

abbrev pub invitations_create : Permission
invitations_create = "invitations.create"

abbrev pub invitations_delete : Permission
invitations_delete = "invitations.delete"

abbrev pub roles_read : Permission
roles_read = "roles.read"

abbrev pub roles_create : Permission
roles_create = "roles.create"

abbrev pub roles_update : Permission
roles_update = "roles.update"

abbrev pub roles_delete : Permission
roles_delete = "roles.delete"

abbrev pub audit_read : Permission
audit_read = "audit.read"

abbrev pub api_keys_read : Permission
api_keys_read = "apikeys.read"

abbrev pub api_keys_create : Permission
api_keys_create = "apikeys.create"

abbrev pub api_keys_delete : Permission
api_keys_delete = "apikeys.delete"

-- The keys of the catalog, in its order; the descriptions serve display only.
unfoldable pub catalog : List Permission
catalog =
    users_read ∷ users_update ∷ invitations_read ∷ invitations_create ∷ invitations_delete
    ∷ roles_read ∷ roles_create ∷ roles_update ∷ roles_delete ∷ audit_read ∷ api_keys_read
    ∷ api_keys_create ∷ api_keys_delete ∷ []

-- `_, ok := s[p]`
unfoldable pub has : PermissionSet → Permission → Bool
unfolding any
has s p = any (λ q. str_eq q p) s

-- `s[p] = struct{}{}`
unfoldable pub add : PermissionSet → Permission → PermissionSet
unfolding has
add s p = if has s p then s else p ∷ s

-- The loops that put every permission of a list into a set.
unfoldable pub add_all : PermissionSet → List Permission → PermissionSet
unfolding add
add_all s [] = s
add_all s (p ∷ ps) = add_all (add s p) ps

unfoldable pub new_permission_set : List Permission → PermissionSet
unfolding add_all
new_permission_set perms = add_all [] perms

unfoldable pub valid : Permission → Bool
unfolding catalog any
valid p = any (λ e. str_eq e p) catalog

unfoldable pub all_permissions : PermissionSet
unfolding catalog add_all
all_permissions = add_all [] catalog

unfoldable pub superset : PermissionSet → PermissionSet → Bool
unfolding has all
superset s other = all (λ p. has s p) other

-- `out[i] < out[j]` on texts, as a test for "not after".
unfoldable pub text_le : String → String → Bool
text_le a b = elim (String.compare a b) [ Ordering.gt ↦ false | _ ↦ true ]

unfoldable pub missing : PermissionSet → PermissionSet → List Permission
unfolding has filter sort_by text_le
missing s other = sort_by text_le (filter (λ p. not (has s p)) other)

unfoldable pub slice : PermissionSet → List Permission
unfolding sort_by text_le
slice s = sort_by text_le s
