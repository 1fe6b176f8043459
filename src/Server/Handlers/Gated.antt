-- ===== src/Server/Handlers/Gated.antt =====
-- The handlers behind a permission: users, invitations, roles, the audit log, API keys.
use git_single_tenant_templa.Repo.Directory as Stored
use git_single_tenant_templa.Service.Users as Accounts
use git_single_tenant_templa.Service.Invitations as Invited
use git_single_tenant_templa.Service.Roles as Granted
use git_single_tenant_templa.Service.ApiKeys as Keys
use git_single_tenant_templa.Prelude.{
  ℕ, String, Option, none, some, List, [], ◌∷◌, str_eq, ◌==◌, if◌then◌else◌, length,
}
use git_single_tenant_templa.Audit.{list_entries}
use git_single_tenant_templa.Exec.{Exec, pure, World, Env, on_pool, ◌>>=◌, ◌>>◌}
use git_single_tenant_templa.Model.{Access}
use git_single_tenant_templa.Server.Guard.{Caller}
use git_single_tenant_templa.Server.Request.{Request, Wire, decode_json}
use git_single_tenant_templa.Server.Response.{
  user_json, users_page, invitation_json, invitations_json, role_json, roles_json, entries_page,
  api_keys_json, api_key_and_token, Response, write_json, write_error, invalid_body,
  write_no_content, or_answer,
}

-- usersPageSize and auditPageSize
abbrev pub users_page_size : ℕ
users_page_size = 50

abbrev pub audit_page_size : ℕ
audit_page_size = 50

-- `users[len(users)-1]`
unfoldable pub last_of : {A : Type 0} → List A → Option A
last_of [] = none
last_of (x ∷ []) = some x
last_of (x ∷ (y ∷ ys)) = last_of (y ∷ ys)

-- The cursor of the next page: the last id of a page that is full. The string "" is `none`.
unfoldable pub next_before : {A : Type 0} → (A → ℕ) → ℕ → List A → Option ℕ
unfolding last_of
next_before id size page =
    if length page == size then elim (last_of page) [ none ↦ none | some a ↦ some (id a) ] else none

-- `if raw != "" { parsed, err := parse(raw); if err != nil { writeError(...); return } }`
unfoldable pub or_unset : {A : Type 0} → String → (String → Option A) → A → Option A
or_unset raw parse unset = if str_eq raw "" then some unset else parse raw

abbrev some_parsed : {A : Type 0} → (String → Option A) → String → Option (Option A)
some_parsed parse raw = elim (parse raw) [ none ↦ none | some a ↦ some (some a) ]

-- A bound of the filter, which Go's zero time, 0 here, leaves unset.
abbrev bound_parsed : (String → Option ℕ) → String → Option (Option ℕ)
bound_parsed parse raw = elim (parse raw) [
  | none ↦ none
  | some t ↦ some (if t == 0 then none else some t)
]

module _ (env : Env) (wire : Wire) (r : Request) (caller : Caller) (access : Access) where
  -- pageBefore reads the cursor.
  unfoldable pub handle_list_users : Exec World Response
  unfolding next_before or_unset
  handle_list_users =
      or_answer (or_unset (r.query "before") wire.parse_uuid 0)
        (write_error 400 "before must be a UUID")
        λ before. do
          users ← on_pool env (Stored.list_users env before users_page_size)
          pure (
              write_json 200
                (users_page users (next_before (λ s. s.user.id) users_page_size users)))

  unfoldable pub handle_set_user_active : Exec World Response
  handle_set_user_active =
      or_answer (wire.parse_uuid r.url_param) (write_error 400 "userID must be a UUID") λ target.
        or_answer (decode_json wire wire.read_is_active r.body) invalid_body λ is_active. do
          user ← Accounts.set_user_active env caller.user target is_active
          pure (write_json 200 (user_json user))

  unfoldable pub handle_create_invitation : Exec World Response
  handle_create_invitation =
      or_answer (decode_json wire wire.read_create_invitation r.body) invalid_body λ req.
        if req.role_id == 0 then pure (write_error 400 "role_id is required") else do
          inv ← Invited.invite env caller.user access req.email req.role_id
          pure (write_json 201 (invitation_json inv))

  unfoldable pub handle_list_invitations : Exec World Response
  handle_list_invitations = do
    invitations ← Invited.list_invitations env
    pure (write_json 200 (invitations_json invitations))

  unfoldable pub handle_revoke_invitation : Exec World Response
  handle_revoke_invitation =
      or_answer (wire.parse_uuid r.url_param) (write_error 400 "invitationID must be a UUID")
        λ id. do Invited.revoke_invitation env caller.user id; pure write_no_content

  unfoldable pub handle_list_roles : Exec World Response
  handle_list_roles = do roles ← Granted.list_roles env; pure (write_json 200 (roles_json roles))

  unfoldable pub handle_create_role : Exec World Response
  handle_create_role = or_answer (decode_json wire wire.read_role r.body) invalid_body λ req. do
    role ← Granted.create_role env caller.user access req.key req.name req.permissions
    pure (write_json 201 (role_json role))

  unfoldable pub handle_update_role : Exec World Response
  handle_update_role =
      or_answer (wire.parse_uuid r.url_param) (write_error 400 "roleID must be a UUID") λ id.
        or_answer (decode_json wire wire.read_update_role r.body) invalid_body λ req. do
          role ← Granted.update_role env caller.user access id req.name req.permissions
          pure (write_json 200 (role_json role))

  unfoldable pub handle_delete_role : Exec World Response
  handle_delete_role =
      or_answer (wire.parse_uuid r.url_param) (write_error 400 "roleID must be a UUID")
        λ id. do Granted.delete_role env caller.user access id; pure write_no_content

  unfoldable pub handle_set_user_roles : Exec World Response
  handle_set_user_roles =
      or_answer (wire.parse_uuid r.url_param) (write_error 400 "userID must be a UUID") λ target.
        or_answer (decode_json wire wire.read_role_ids r.body) invalid_body
          λ ids. do Granted.set_user_roles env caller.user access target ids; pure write_no_content

  -- The parameters are read in the order before, actor, from, to.
  unfoldable pub handle_list_audit_log : Exec World Response
  unfolding next_before or_unset
  handle_list_audit_log =
      or_answer (or_unset (r.query "before") wire.parse_uuid 0)
        (write_error 400 "before must be a UUID")
        λ before.
          or_answer (or_unset (r.query "actor") (some_parsed wire.parse_uuid) none)
            (write_error 400 "actor must be a user UUID")
            λ actor.
              or_answer (or_unset (r.query "from") (bound_parsed wire.parse_time) none)
                (write_error 400 "from must be an RFC 3339 timestamp")
                λ from.
                  or_answer (or_unset (r.query "to") (bound_parsed wire.parse_time) none)
                    (write_error 400 "to must be an RFC 3339 timestamp")
                    λ to. do
                      entries ← on_pool env (
                          list_entries (record {
                            action = r.query "action";
                            actor_user_id = actor;
                            from = from;
                            to = to;
                            before = before;
                            limit = audit_page_size;
                          }))
                      pure (
                          write_json 200 (
                            entries_page entries (next_before (λ e. e.id) audit_page_size entries)))

  unfoldable pub handle_list_api_keys : Exec World Response
  handle_list_api_keys = do
    keys ← Keys.list_api_keys env
    pure (write_json 200 (api_keys_json keys))

  unfoldable pub handle_create_api_key : Exec World Response
  handle_create_api_key =
      or_answer (decode_json wire wire.read_create_api_key r.body) invalid_body λ req. do
        (key, token) ←
            Keys.create_api_key env caller.user access req.name req.permissions req.expires_at
        pure (write_json 201 (api_key_and_token key token))

  unfoldable pub handle_revoke_api_key : Exec World Response
  handle_revoke_api_key =
      or_answer (wire.parse_uuid r.url_param) (write_error 400 "keyID must be a UUID")
        λ id. do Keys.revoke_api_key env caller.user id; pure write_no_content
