-- ===== src/Service/AcceptedOnce.antt =====
-- An invitation is accepted once (AcceptInvitation of service.go).
use git_single_tenant_templa.Repo.Invitations as Stored
use git_single_tenant_templa.Repo.Users as StoredUsers
use git_single_tenant_templa.Prelude.{
  ℕ, ◌≤◌, String, ◌≡◌, sym, ap, ◌∙◌, true, false, not, ◌&&◌, some, [], ◌∷◌, ◌==◌, any, find?,
}
use git_single_tenant_templa.Audit.{record_event, event_of}
use git_single_tenant_templa.Exec.{ok, err, pure, gets, Conn, World, Env, ◌>>=◌, ◌>>◌}
use git_single_tenant_templa.Exec.Ensures.{
  Ensures, Ensures-ok, Ensures-lift, Ensures-map, Ensures-require, Ensures-bind, Ensures-in_tx,
}
use git_single_tenant_templa.Exec.Leaves.{found-Leaves, if-state}
use git_single_tenant_templa.Exec.Upholds.{Upholds, upholds_rules, Ensures-Upholds}
use git_single_tenant_templa.Model.{
  User, Invitation, invitation_accepted, text, Event, email_taken, invitation_invalid,
  invalid_token, internal,
}
use git_single_tenant_templa.Repo.Invitations.{invitation_rows}
use git_single_tenant_templa.Repo.Invitations.Acceptance.{
  usable, InvitationIsSpent, usable_later, get_invitation_by_token_hash-row,
  accept_invitation-IsSpent,
}
use git_single_tenant_templa.Repo.Invitations.Spent.{row_by_token}
use git_single_tenant_templa.Repo.Roles.Rows.{left_join}
use git_single_tenant_templa.Repo.Roles.Writes.{can_reference, holds_assignment, add_user_role}
use git_single_tenant_templa.Service.Invitations.{accept_invitation, accept_invitation_tx}
use git_single_tenant_templa.Service.SingleUse.{hash-conn}

-- What the transaction does after the acceptance leaves the invitations alone.
abbrev StaysSpent : ℕ → String → Conn → Type 0
StaysSpent now token_hash d = (d.now ≡ now) × InvitationIsSpent token_hash d

module _ (now : ℕ) (token_hash : String) (env : Env) where
  create_user-StaysSpent :
      (email password_hash first_name last_name : String)
      → Upholds
          (StaysSpent now token_hash)
          (StoredUsers.create_user env email password_hash first_name last_name)
  unfolding StoredUsers.create_user row_by_token invitation_rows left_join
  create_user-StaysSpent email password_hash first_name last_name = record {
    at = λ c h.
        if-state (StaysSpent now token_hash)
          (any (λ u. StoredUsers.same_email env u.email email) c.db.users) (err email_taken, c) _ h
          h;
  }

  add_user_role-StaysSpent :
      (user_id role_id : ℕ) → Upholds (StaysSpent now token_hash) (add_user_role user_id role_id)
  unfolding add_user_role row_by_token invitation_rows left_join
  add_user_role-StaysSpent user_id role_id = record {
    at = λ c h.
        if-state (StaysSpent now token_hash) (holds_assignment c.db user_id role_id) (ok tt, c) _ h
          (if-state (StaysSpent now token_hash) (not (can_reference c.db user_id role_id))
            (err internal, c) _ h h);
  }

  mark_email_verified-StaysSpent :
      (user_id : ℕ) (email : String)
      → Upholds (StaysSpent now token_hash) (StoredUsers.mark_email_verified env user_id email)
  unfolding StoredUsers.mark_email_verified StoredUsers.update_user row_by_token invitation_rows
      left_join
  mark_email_verified-StaysSpent user_id email = record {
    at = λ c h.
        found-Leaves (StaysSpent now token_hash)
          (find? (λ u. u.id == user_id && StoredUsers.same_email env u.email email) c.db.users)
          (err invalid_token, c) _ h (λ _. h);
  }

  record_event-StaysSpent : (e : Event) → Upholds (StaysSpent now token_hash) (record_event env e)
  unfolding record_event row_by_token invitation_rows left_join
  record_event-StaysSpent e = record { at = λ c h. h }

  after_acceptance-StaysSpent :
      (i : Invitation) (password_hash first_name last_name : String)
      → Upholds (StaysSpent now token_hash) (do
        created ← StoredUsers.create_user env i.row.email password_hash first_name last_name
        add_user_role created.id i.role.row.id
        user ← StoredUsers.mark_email_verified env created.id created.email
        record_event env (
            event_of
              (some user.id)
              invitation_accepted
              "invitation"
              (some i.row.id)
              (("email", text i.row.email) ∷ ("role", text i.role.row.key) ∷ []))
        pure user)
  after_acceptance-StaysSpent i password_hash first_name last_name = search (
    upholds_rules, create_user-StaysSpent, add_user_role-StaysSpent, mark_email_verified-StaysSpent,
    record_event-StaysSpent,
  )

module _ (env : Env) where
  accept_invitation_tx-StaysSpent :
      (digest password_hash first_name last_name : String) (c : Conn)
      → Ensures
          (λ _ d. StaysSpent c.now digest d)
          (accept_invitation_tx env digest password_hash first_name last_name c)
  unfolding accept_invitation_tx
  accept_invitation_tx-StaysSpent digest password_hash first_name last_name c = Ensures-bind _ _ c (
      Ensures-map _ (get_invitation_by_token_hash-row digest c) λ i c₁ found. Ensures-bind _ _ c₁ (
        unfold gets in
        Ensures-ok _ c₁ (
          Ensures-bind _ _ c₁ (
            Ensures-require _ invitation_invalid c₁ λ _. Ensures-bind _ _ c₁ (
              Ensures-map _ (accept_invitation-IsSpent digest c₁ i.row (rw (found.0) (found.1)))
                λ _ c₂ spent.
                  Ensures-Upholds _ c₂
                    (after_acceptance-StaysSpent c.now digest env i password_hash first_name
                      last_name)
                    (rw (← found.0) spent))))))

  accept_invitation_tx-refused :
      (digest password_hash first_name last_name : String) (c : Conn)
      → InvitationIsSpent digest c
      → Ensures (λ _ _. ⊥) (accept_invitation_tx env digest password_hash first_name last_name c)
  unfolding accept_invitation_tx
  accept_invitation_tx-refused digest password_hash first_name last_name c spent =
      Ensures-bind _ _ c (
        Ensures-map _ (get_invitation_by_token_hash-row digest c) λ i c₁ found.
          Ensures-bind _ _ c₁ (
            unfold gets in
            Ensures-ok _ c₁ (
              Ensures-bind _ _ c₁ (
                Ensures-require _ invitation_invalid c₁
                  λ pending. record { at = λ _ _ _. not_pending c₁ i found.0 found.1 pending }))))
    where
      not_pending :
          (d : Conn) (i : Invitation)
          → d ≡ c
          → row_by_token digest c.db ≡ some i.row
          → Stored.is_pending d.now i ≡ true
          → ⊥
      not_pending d i equal found pending =
          let late : usable c.now (some i.row) ≡ false = ap (usable c.now) (sym found) ∙ spent in
          let due : usable c.now (some i.row) ≡ true =
            unfold Stored.is_pending in ap (λ x. Stored.is_pending x.now i) (sym equal) ∙ pending in
          cc

  accept_invitation-refused :
      (token password first_name last_name : String) (w : World)
      → InvitationIsSpent (env.hash_token token) w.conn
      → Ensures (λ _ _. ⊥) (accept_invitation env token password first_name last_name w)
  unfolding accept_invitation
  accept_invitation-refused token password first_name last_name w spent = Ensures-bind _ _ w (
      Ensures-lift _ w λ _ _. Ensures-bind _ _ w (
        Ensures-map _ (hash-conn env password w) λ password_hash v kept_conn.
          Ensures-in_tx env _ v (
            Ensures-map _
              (accept_invitation_tx-refused (env.hash_token token) password_hash
                (env.trim_space first_name) (env.trim_space last_name) v.conn (rw kept_conn spent))
              λ _ _ absurd _ _. absurd)))

  accept_invitation-StaysSpent :
      (token password first_name last_name : String) (w : World)
      → Ensures
          (λ _ t. StaysSpent w.now (env.hash_token token) t.conn)
          (accept_invitation env token password first_name last_name w)
  unfolding accept_invitation
  accept_invitation-StaysSpent token password first_name last_name w = Ensures-bind _ _ w (
      Ensures-lift _ w λ _ _. Ensures-bind _ _ w (
        Ensures-map _ (hash-conn env password w) λ password_hash v kept_conn.
          Ensures-in_tx env _ v (
            Ensures-map _
              (accept_invitation_tx-StaysSpent (env.hash_token token) password_hash
                (env.trim_space first_name) (env.trim_space last_name) v.conn)
              λ _ d kept z e. rw (e, ← kept_conn) kept)))

-- The token of an invitation that was accepted makes no second account: no later call with it
-- succeeds, whatever password and names it gives, as long as the token has the same digest and the
-- tables are what that call left.
pub accept_invitation-single_use :
    (env : Env) (token password first_name last_name : String) (w : World) (u : User) (w' : World)
    → accept_invitation env token password first_name last_name w ≡ (ok u, w')
    → (env' : Env) (password' first_name' last_name' : String) (v : World) (u' : User) (v' : World)
    → env'.hash_token token ≡ env.hash_token token
    → v.db ≡ w'.db
    → w.now ≤ v.now
    → ¬ (accept_invitation env' token password' first_name' last_name' v ≡ (ok u', v'))
accept_invitation-single_use env token password first_name last_name w u w' h env' password'
      first_name' last_name' v u' v' hashes equal later again =
    let kept = (accept_invitation-StaysSpent env token password first_name last_name w).at u w' h in
    let late : usable v.now (row_by_token (env.hash_token token) v.db) ≡ false = rw equal (
      usable_later w.now v.now (row_by_token (env.hash_token token) w'.db) later
        (rw (← kept.0) kept.1)) in
    (accept_invitation-refused env' token password' first_name' last_name' v (rw hashes late)).at u'
      v' again
