-- ===== src/Permission/Roles.antt =====
-- What each permission of src/libs/services/permission.service.ts is worth.
use starsyncbackend.Prelude.{String, true, ◌≡◌, arith}
use starsyncbackend.Effect.{ok}
use starsyncbackend.Entities.{Repositories, Db}
use starsyncbackend.Permission.{
  get_user_role, can_view, can_edit, can_comment, can_invite, can_delete, can_manage_collaborators,
}

module _ (r : Repositories) (user project : String) (s : Db r) where
  -- Checking a permission changes nothing, whatever the database answers.
  pub get_user_role-reads : (get_user_role r user project s).1 ≡ s
  unfolding get_user_role
  get_user_role-reads = ground arith

  -- Whoever may delete a project may edit it; whoever may edit it may invite, manage the
  -- collaborators and comment; commenting and viewing are permitted to the same users.
  pub permissions_nested :
      (can_delete r user project s ≡ (ok true, s) → can_edit r user project s ≡ (ok true, s))
      × (can_edit r user project s ≡ (ok true, s)
          → (can_invite r user project s ≡ (ok true, s))
            × (can_manage_collaborators r user project s ≡ (ok true, s))
            × (can_comment r user project s ≡ (ok true, s)))
      × (can_comment r user project s ≡ can_view r user project s)
  unfolding can_delete can_edit can_invite can_manage_collaborators can_comment can_view
  permissions_nested =
      (λ h. ground arith, λ h. (ground arith, ground arith, ground arith), ground arith)
