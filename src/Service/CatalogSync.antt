-- ===== src/Service/CatalogSync.antt =====
-- What SyncPermissions (permissions.go) leaves in the table of permissions.
-- The permission has a row, so that a role can be given it.
use git_single_tenant_templa.Prelude.{
  ◌≡◌, refl, ap, ◌∙◌, ◌⊎◌, inl, inr, Bool, true, false, not, ◌&&◌, ◌||◌, List, [], ◌∷◌, arith,
  str_eq, str_eq_iff, Bool-cases, any, filter, sort_by, any-sort_by,
}
use git_single_tenant_templa.Exec.{ok, Conn, World, Env}
use git_single_tenant_templa.Exec.Ensures.{
  Ensures, Ensures-ok, Ensures-pure, Ensures-if, Ensures-map, Ensures-bind, Ensures-in_tx,
}
use git_single_tenant_templa.Identity.Permission.{catalog, valid, text_le}
use git_single_tenant_templa.Model.{Permission, Db}
use git_single_tenant_templa.Service.Catalog.{
  upsert_permission, upsert_permissions, stale_permissions, sync_permissions_tx, sync_permissions,
}

unfoldable pub is_listed : Db → Permission → Bool
unfolding any
is_listed db p = any (λ q. str_eq q p) db.permissions

upsert-Ensures :
    (key : Permission) (c : Conn)
    → Ensures
        (λ _ d. (p : Permission) → is_listed d.db p ≡ (is_listed c.db p || str_eq key p))
        (upsert_permission key c)
unfolding upsert_permission is_listed
upsert-Ensures key c =
    Ensures-if (any (λ p. str_eq p key) c.db.permissions) _ _
      (λ there. Ensures-ok tt c λ p. present p there (Bool-cases (str_eq key p)))
      (λ _. Ensures-ok tt _ λ p. unfold any in ground arith)
  where
    present :
        (p : Permission)
        → any (λ q. str_eq q key) c.db.permissions ≡ true
        → (str_eq key p ≡ true) ⊎ (str_eq key p ≡ false)
        → any (λ q. str_eq q p) c.db.permissions
          ≡ (any (λ q. str_eq q p) c.db.permissions || str_eq key p)
    present p there (inl is_p) =
        ground (arith, ap (λ k. any (λ q. str_eq q k) c.db.permissions) ((str_eq_iff key p).0 is_p))
    present p there (inr other) = ground arith

upserts-Ensures :
    (keys : List Permission) (c : Conn)
    → Ensures
        (λ _ d.
          (p : Permission) → is_listed d.db p ≡ (is_listed c.db p || any (λ k. str_eq k p) keys))
        (upsert_permissions keys c)
unfolding upsert_permissions any
upserts-Ensures [] c = Ensures-pure tt c λ p. ground arith
upserts-Ensures (key ∷ keys) c = Ensures-bind _ _ c (
    Ensures-map _ (upsert-Ensures key c) λ _ c₁ first.
      Ensures-map _ (upserts-Ensures keys c₁) λ _ d rest p. ground (arith, first p, rest p))

stale-listed :
    (p : Permission) (ps : List Permission)
    → any (λ q. str_eq q p) (filter (λ q. not (valid q)) ps)
      ≡ (any (λ q. str_eq q p) ps && not (valid p))
unfolding any filter
stale-listed p [] = refl
stale-listed p (q ∷ qs) =
    ground (arith, stale-listed p qs, λ (e : str_eq q p ≡ true). ap valid ((str_eq_iff q p).0 e))

-- What SyncPermissions ensures of the keys that it logs and the tables.
Synced : Db → List Permission → Db → Type 0
Synced old stale new =
    (p : Permission)
    → (is_listed new p ≡ (is_listed old p || valid p))
      × (any (λ q. str_eq q p) stale ≡ (is_listed new p && not (valid p)))

sync_permissions_tx-Synced :
    (c : Conn) → Ensures (λ stale d. Synced c.db stale d.db) (sync_permissions_tx c)
unfolding sync_permissions_tx stale_permissions Synced valid is_listed
sync_permissions_tx-Synced c = Ensures-bind _ _ c (
    Ensures-map _ (upserts-Ensures catalog c) λ _ d rows. Ensures-ok _ d λ p. (
      rows p,
      stale-listed p (sort_by text_le d.db.permissions)
          ∙ ap (λ b. b && not (valid p)) (any-sort_by (λ q. str_eq q p) text_le d.db.permissions),
    ))

-- When SyncPermissions succeeds, the table lists what it listed before and every permission of the
-- catalog, and nothing else; and it logs those of them that the catalog does not list.
pub sync_permissions-is_listed :
    (env : Env) (w : World) (stale : List Permission) (w' : World)
    → sync_permissions env w ≡ (ok stale, w')
    → (p : Permission)
    → (is_listed w'.db p ≡ (is_listed w.db p || valid p))
      × (any (λ q. str_eq q p) stale ≡ (is_listed w'.db p && not (valid p)))
unfolding Synced
sync_permissions-is_listed env w stale w' h = synced.at stale w' h
  where
    synced : Ensures (λ s v. Synced w.db s v.db) (sync_permissions env w)
    synced =
        unfold sync_permissions in
        Ensures-in_tx env sync_permissions_tx w
          (Ensures-map _ (sync_permissions_tx-Synced w.conn) λ s d fact v same. rw same fact)
