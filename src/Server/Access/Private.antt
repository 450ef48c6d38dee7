-- ===== src/Server/Access/Private.antt =====
-- Private content is for owners who ask for it.
use read_flow.Chars.{Chars}
use read_flow.Server.Users.{has_role, AuthorizedUser}
use read_flow.Server.Access.{
  private_mode, rejected, visible, can_see, Extracted, Visibility, visibility,
}
use read_flow.Prelude.{
  false, not, ap, sym, if◌then◌else◌, Bool, true, ◌≡◌, eqb, any, String, List, Option, [], refl,
}
use read_flow.Server.Authn.{ok}

abbrev visible_or : Visibility → Extracted → Visibility
visible_or v (visible w) = w
visible_or v (rejected n) = v

-- Content that carries a private tag is visible to a request only if it comes from an owner and
-- asks for private mode; it then acts as that owner.
pub visibility-private :
    (user : AuthorizedUser) (header : Option Chars) (private_tags tags : List String)
    (v : Visibility)
    → any (λ tag. any (λ h. eqb h tag) private_tags) tags ≡ true
    → visibility (ok user) header private_tags ≡ visible v
    → can_see v tags ≡ true
    → (private_mode header ≡ true)
      × (has_role "owner" user.roles ≡ true)
      × (v.user_id ≡ user.user_id)
unfolding visibility can_see
visibility-private user header private_tags tags v is_private is seen =
    go (private_mode header) (has_role "owner" user.roles) refl refl is
  where
    go :
        (asked owner : Bool)
        → private_mode header ≡ asked
        → has_role "owner" user.roles ≡ owner
        → (if asked
            then (if owner
                then visible (record { user_id = user.user_id; hidden_tags = [] })
                else rejected 403)
            else visible (record { user_id = user.user_id; hidden_tags = private_tags }))
          ≡ visible v
        → (private_mode header ≡ true)
          × (has_role "owner" user.roles ≡ true)
          × (v.user_id ≡ user.user_id)
    go true true asks owns is =
        (asks, owns, sym (ap (λ (w : Visibility). w.user_id) (ap (visible_or v) is)))
    go true false asks owns is = cc is
    go false owner asks owns is = cc (
      is_private,
      seen,
      ap (λ (w : Visibility). not (any (λ tag. any (λ h. eqb h tag) w.hidden_tags) tags))
          (ap (visible_or v) is),
    )
