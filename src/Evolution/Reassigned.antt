-- ===== src/Evolution/Reassigned.antt =====
-- SetUserRoles (roles_service.go), which clears the roles of a user and assigns others: only the
-- whole transaction keeps an admin.
use git_single_tenant_templa.Service.Roles as Granted
use git_single_tenant_templa.Prelude.{ℕ, ◌≡◌, refl, sym, ap, ◌∙◌, subst, true, some, List, [], ◌∷◌}
use git_single_tenant_templa.Audit.{entry_of, recorded, Ensures-record_event, event_of}
use git_single_tenant_templa.Evolution.{Evolves, Became-recorded}
use git_single_tenant_templa.Evolution.Calls.{Progress}
use git_single_tenant_templa.Exec.{Conn, Env}
use git_single_tenant_templa.Exec.Ensures.{
  Ensures, Ensures-lift, Ensures-map, Ensures-require, Ensures-bind,
}
use git_single_tenant_templa.Exec.Upholds.{Upholds, Upholds-in_tx_committed}
use git_single_tenant_templa.Identity.Access.{role_keys}
use git_single_tenant_templa.Model.{User, Role, Access, user_roles_updated, texts, Event, Db}
use git_single_tenant_templa.Repo.Roles.Assignments.{reassigned, Ensures-set_user_roles}
use git_single_tenant_templa.Repo.Roles.Chosen.{Ensures-get_roles_by_ids}
use git_single_tenant_templa.Repo.Roles.Holders.{has_unique_ids}
use git_single_tenant_templa.Repo.Roles.Rows.{is_assignment_of, roles_to_ids}
use git_single_tenant_templa.Repo.Roles.Writes.{with_user_roles}
use git_single_tenant_templa.Service.Assignment.{load_user_roles-reads, guard_last_admin-reads}
use git_single_tenant_templa.Service.LastHolder.{has_admin, set_user_roles_tx-has_admin}

-- What the transaction leaves when it succeeds: other roles of users, and an entry.
Reassigned : Env → Conn → Conn → Type 0
Reassigned env c d =
    (out : Event × List (ℕ × ℕ)) × (d ≡ recorded env out.0 (with_user_roles c out.1))

module _ (env : Env) (actor : User) (access : Access) (target : ℕ) (ids : List ℕ) where
  set_user_roles_tx-Reassigned :
      (c : Conn)
      → Ensures
          (λ _ d. Reassigned env c d)
          (Granted.set_user_roles_tx env actor access target ids c)
  unfolding Granted.set_user_roles_tx Reassigned
  set_user_roles_tx-Reassigned c = Ensures-bind _ _ c (
      Ensures-map _ (Ensures-get_roles_by_ids env ids c) λ roles c₁ read. Ensures-bind _ _ c₁ (
        Ensures-lift _ c₁ λ _ _. Ensures-bind _ _ c₁ (
          Ensures-map _ (load_user_roles-reads env target c₁) λ before c₂ k₂. Ensures-bind _ _ c₂ (
            Ensures-require _ _ c₂ λ _. Ensures-bind _ _ c₂ (
              Ensures-map _ (guard_last_admin-reads env before roles c₂) λ _ c₃ k₃.
                Ensures-bind _ _ c₃ (
                  Ensures-map _ (Ensures-set_user_roles target (roles_to_ids roles) c₃) λ _ c₄ k₄.
                    Ensures-record_event env _ c₄ (
                      (entry before roles, reassigned target (roles_to_ids roles) c₃.db),
                      ap (λ x. recorded env (entry before roles) x)
                          (k₄
                            ∙ ap
                                (λ x.
                                  with_user_roles x (reassigned target (roles_to_ids roles) c₃.db))
                                (k₃ ∙ k₂ ∙ read.0)),
                    )))))))
    where
      entry : List Role → List Role → Event
      entry before roles =
          event_of (some actor.id) user_roles_updated "user" (some target)
            (("from", texts (role_keys before)) ∷ ("to", texts (role_keys roles)) ∷ [])

  Became-reassigned :
      {db : Db} (c : Conn) (entry : Event) (urs : List (ℕ × ℕ))
      → Evolves db c
      → (has_unique_ids c.db.roles ≡ true
          → has_admin c.db ≡ true
          → has_admin (recorded env entry (with_user_roles c urs)).db ≡ true)
      → Evolves db (recorded env entry (with_user_roles c urs))
  unfolding has_admin is_assignment_of entry_of
  Became-reassigned c entry urs h kept =
      let grown = Became-recorded (entry_of env c.db.next_id c.now entry) refl h in
      record {
        log_grown = grown.log_grown;
        log_ok = grown.log_ok;
        ids_grown = grown.ids_grown;
        system_same = grown.system_same;
        roles_ok = grown.roles_ok;
        admin_kept = λ k a. kept (h.roles_ok k).unique (h.admin_kept k a);
      }

  set_user_roles_tx-Evolves :
      {db : Db} (c : Conn)
      → Evolves db c
      → Ensures (λ _ d. Evolves db d) (Granted.set_user_roles_tx env actor access target ids c)
  unfolding Reassigned
  set_user_roles_tx-Evolves {db} c h = record {
    at = λ a d e. evolved d ((set_user_roles_tx-Reassigned c).at a d e) (λ unique admin.
        (set_user_roles_tx-has_admin env actor access target ids c unique admin).at a d e);
  }
    where
      evolved :
          (d : Conn)
          → Reassigned env c d
          → (has_unique_ids c.db.roles ≡ true → has_admin c.db ≡ true → has_admin d.db ≡ true)
          → Evolves db d
      evolved d ((entry, urs), rows) admin =
          subst
            (λ x.
              (has_unique_ids c.db.roles ≡ true → has_admin c.db ≡ true → has_admin x.db ≡ true)
              → Evolves db x)
            (sym rows) (Became-reassigned c entry urs h) admin

  pub set_user_roles-Progress :
      {db : Db} → Upholds (Progress db) (Granted.set_user_roles env actor access target ids)
  unfolding Granted.set_user_roles
  set_user_roles-Progress {db} = record {
    at = λ w h. record {
      rows =
          (Upholds-in_tx_committed {P = Evolves db} env _ (λ c k. set_user_roles_tx-Evolves c k)).at
            w h.rows;
    };
  }
