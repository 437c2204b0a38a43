-- ===== src/Auth/Rights.antt =====
-- What the rules of internal/core/auth/authorization.go have in common.
use hoster.Prelude.{true, ◌≡◌, refl, ◌||◌, arith}
use hoster.Deployment.{Deployment}
use hoster.Template.{Template}
use hoster.Auth.{
  Context, can_view_template, can_modify_template, can_delete_template, can_publish_template,
  can_view_deployment, can_manage_deployment, can_delete_deployment,
}

module _ {F : Type 0} where
  -- The rights of a user to a template are one right, the creator's, which includes that of a view; a
  -- published template is seen by all.
  pub template_rights :
      (ctx : Context F) (t : Template F)
      → (can_modify_template ctx t ≡ can_delete_template ctx t)
        × (can_modify_template ctx t ≡ can_publish_template ctx t)
        × (can_view_template ctx t ≡ (t.published || can_modify_template ctx t))
  unfolding can_view_template can_modify_template can_delete_template can_publish_template
  template_rights ctx t = (refl, refl, ground arith)

  -- No two users have a right to the same deployment: who may view, manage or delete it is its
  -- customer, and logged in.
  pub deployment_exclusive :
      (a b : Context F) (d : Deployment F)
      → (can_view_deployment a d || can_manage_deployment a d || can_delete_deployment a d) ≡ true
      → (can_view_deployment b d || can_manage_deployment b d || can_delete_deployment b d) ≡ true
      → (a.user_id ≡ b.user_id)
        × (a.user_id ≡ d.customer_id)
        × (a.authenticated ≡ true)
        × (b.authenticated ≡ true)
  unfolding can_view_deployment can_manage_deployment can_delete_deployment
  deployment_exclusive a b d h k = ground arith
