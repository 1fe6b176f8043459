-- ===== src/Identity/Validation.antt =====
-- The checks of what a caller sends: normalizeEmail, validatePassword, validateRoleInput and
-- validateAPIKeyInput.
use Prim.Native.String
use git_single_tenant_templa.Prelude.{
  ℕ, String, Bool, true, false, not, Option, none, some, List, [], ◌∷◌, str_eq, ltb, leb,
  if◌then◌else◌,
}
use git_single_tenant_templa.Exec.{Result, ok, err, Env}
use git_single_tenant_templa.Identity.Permission.{add, valid}
use git_single_tenant_templa.Model.{
  Permission, PermissionSet, Complaint, email_required, email_not_an_address, email_too_long,
  password_too_short, password_too_long, role_key_required, role_key_too_long, role_key_malformed,
  role_name_required, role_name_too_long, role_without_permission, api_key_name_required,
  api_key_name_too_long, api_key_without_permission, api_key_expiry_not_in_future,
  unknown_permission, validation,
}

unfoldable pub invalid : {A : Type 0} → Complaint → Result A
invalid c = err (validation c)

-- `addr, err := ParseAddress(email); err != nil || addr.Address != email`
unfoldable pub is_address : Option String → String → Bool
is_address none email = false
is_address (some addr) email = str_eq addr email

-- The loop that both role and key validation end in: every permission must be of the catalog.
unfoldable pub collect_permissions : PermissionSet → List Permission → Result PermissionSet
unfolding invalid valid add
collect_permissions set [] = ok set
collect_permissions set (p ∷ ps) =
    let rest = collect_permissions (add set p) ps in
    if valid p then rest else invalid (unknown_permission p)

-- `len(perms) == 0`
abbrev pub is_empty : List Permission → Bool
is_empty [] = true
is_empty (p ∷ ps) = false

abbrev pub with_names :
    String → String → Result PermissionSet → Result (String × String × PermissionSet)
with_names key name (ok set) = ok (key, name, set)
with_names key name (err e) = err e

abbrev pub with_name : String → Result PermissionSet → Result (String × PermissionSet)
with_name name (ok set) = ok (name, set)
with_name name (err e) = err e

-- `expiresAt != nil && !expiresAt.After(now)`
unfoldable pub is_past : Option ℕ → ℕ → Bool
is_past none now = false
is_past (some t) now = leb t now

module _ (env : Env) where
  unfoldable pub normalize_email : String → Result String
  unfolding invalid is_address
  normalize_email raw =
      let email = env.to_lower (env.trim_space raw) in
      if str_eq email ""
      then invalid email_required
      else if not (is_address (env.parse_address email) email)
      then invalid email_not_an_address
      else if ltb 254 (String.len email)
      then invalid email_too_long
      else ok email

  unfoldable pub validate_password : String → Result (Unit {0})
  unfolding invalid
  validate_password password =
      if ltb (String.len password) env.min_password_length
      then invalid (password_too_short env.min_password_length)
      else if ltb 1024 (String.len password)
      then invalid password_too_long
      else ok tt

  -- The key, the name and the permissions, as they will be stored.
  unfoldable pub validate_role_input :
      String → String → List Permission → Result (String × String × PermissionSet)
  unfolding invalid collect_permissions
  validate_role_input raw_key raw_name perms =
      let key = env.to_lower (env.trim_space raw_key) in
      let name = env.trim_space raw_name in
      if str_eq key ""
      then invalid role_key_required
      else if ltb 63 (String.len key)
      then invalid role_key_too_long
      else if not (env.role_key_pattern key)
      then invalid role_key_malformed
      else if str_eq name ""
      then invalid role_name_required
      else if ltb 100 (String.len name)
      then invalid role_name_too_long
      else if is_empty perms
      then invalid role_without_permission
      else with_names key name (collect_permissions [] perms)

  unfoldable pub validate_api_key_input :
      ℕ → String → List Permission → Option ℕ → Result (String × PermissionSet)
  unfolding invalid collect_permissions is_past
  validate_api_key_input now raw_name perms expires_at =
      let name = env.trim_space raw_name in
      if str_eq name ""
      then invalid api_key_name_required
      else if ltb 100 (String.len name)
      then invalid api_key_name_too_long
      else if is_empty perms
      then invalid api_key_without_permission
      else if is_past expires_at now
      then invalid api_key_expiry_not_in_future
      else with_name name (collect_permissions [] perms)
