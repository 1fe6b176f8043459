-- ===== src/Repo/Invitations/Acceptance.antt =====
-- AcceptInvitation of repository.go leaves the token without a pending invitation.
use git_single_tenant_templa.Prelude.{
  ℕ, ◌≤◌, String, ◌≡◌, refl, sym, ap, ◌∙◌, inl, inr, Bool, false, ◌&&◌, Option, none, some, List,
  [], ◌∷◌, arith, ltb, ◌==◌, Bool-cases, is_none, any, update,
}
use git_single_tenant_templa.Exec.{err, Conn}
use git_single_tenant_templa.Exec.Ensures.{Ensures, Ensures-ok, Ensures-err, Ensures-if}
use git_single_tenant_templa.Model.{InvitationRow, Invitation, Error, invitation_invalid}
use git_single_tenant_templa.Repo.Invitations.{
  accept_invitation, with_invitations, is_open, invitation_rows, first_invitation,
  select_invitations, get_invitation_by_token_hash, update_invitation,
}
use git_single_tenant_templa.Repo.Invitations.Spent.{
  row_of_first, rewritten, row_of_first-collected, row_by_token, row_by_token-rows,
}
use git_single_tenant_templa.Repo.Roles.Rows.{left_join}

abbrev pub usable : ℕ → Option InvitationRow → Bool
usable now none = false
usable now (some i) = is_open i && ltb now i.expires_at

-- The token leads to no invitation that is pending, now.
abbrev pub InvitationIsSpent : String → Conn → Type 0
InvitationIsSpent token_hash c = usable c.now (row_by_token token_hash c.db) ≡ false

pub usable_later :
    (m n : ℕ) (o : Option InvitationRow) → m ≤ n → usable m o ≡ false → usable n o ≡ false
usable_later m n none h k = refl
usable_later m n (some i) h k = ground arith

first_invitation-row :
    (e : Error) (is : List Invitation) (o : Option InvitationRow) (c : Conn)
    → row_of_first is ≡ o
    → Ensures (λ inv d. (d ≡ c) × (o ≡ some inv.row)) (first_invitation e is c)
first_invitation-row e [] o c h = Ensures-err e c
first_invitation-row e (i ∷ is) o c h = Ensures-ok i c (refl, sym h)

pub get_invitation_by_token_hash-row :
    (token_hash : String) (c : Conn)
    → Ensures
        (λ inv d. (d ≡ c) × (row_by_token token_hash c.db ≡ some inv.row))
        (get_invitation_by_token_hash token_hash c)
unfolding get_invitation_by_token_hash select_invitations row_by_token
get_invitation_by_token_hash-row token_hash c =
    first_invitation-row invitation_invalid _ _ c (row_of_first-collected _)

-- The row, as the acceptance rewrites it.
accepted-usable :
    (now : ℕ) (i : InvitationRow)
    → usable now (
        rewritten
          (λ x. x.id == i.id && (is_open x && ltb now x.expires_at))
          (λ x. record x { accepted_at = some now })
          (some i))
      ≡ false
unfolding is_open
accepted-usable now i =
    elim (Bool-cases (is_none i.accepted_at && is_none i.revoked_at && ltb now i.expires_at)) [
      | inl pending ↦ ground arith
      | inr settled ↦ ground arith
    ]

pub accept_invitation-IsSpent :
    (token_hash : String) (c : Conn) (i : InvitationRow)
    → row_by_token token_hash c.db ≡ some i
    → Ensures (λ _ d. (d.now ≡ c.now) × InvitationIsSpent token_hash d) (accept_invitation i.id c)
unfolding accept_invitation update_invitation is_open row_by_token invitation_rows left_join
accept_invitation-IsSpent token_hash c i found =
    Ensures-if (any pending c.db.invitations) _ (err invitation_invalid, c)
      (λ _.
        Ensures-ok tt (with_invitations c (update pending accepted c.db.invitations)) (refl, spent))
      (λ _. Ensures-err invitation_invalid c)
  where
    pending : InvitationRow → Bool
    pending x = x.id == i.id && (is_open x && ltb c.now x.expires_at)

    accepted : InvitationRow → InvitationRow
    accepted x = record x { accepted_at = some c.now }

    spent :
        usable c.now (
          row_by_token token_hash
            (record c.db { invitations = update pending accepted c.db.invitations }))
        ≡ false
    spent =
        ap (usable c.now) (
          row_by_token-rows pending accepted token_hash (λ _. refl) (λ _. refl) c.db
            c.db.invitations
          ∙ ap (rewritten pending accepted) found)
        ∙ accepted-usable c.now i
