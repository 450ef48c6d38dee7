-- ===== src/Server/Access.antt =====
-- core/src/server/access.rs: what a request is allowed to see.
pub mod Private
use read_flow.Server.Users.{has_role, AuthorizedUser}
use read_flow.Chars.{codes, to_lowercase, same_text, Chars}
use read_flow.Prelude.{
  eqb, if◌then◌else◌, any, false, not, Bool, List, String, Option, ℕ, none, some, [], ◌∷◌,
}
use read_flow.Server.Authn.{auth_status, Auth, ok, err}

pub record Visibility : Type 0 where
  pub user_id : String
  pub hidden_tags : List String

unfoldable pub can_see : Visibility → List String → Bool
can_see v tags = not (any (λ tag. any (λ h. eqb h tag) v.hidden_tags) tags)

-- The value of `x-private-mode`: none without the header, or with one that is no text.
unfoldable pub private_mode : Option Chars → Bool
private_mode none = false
private_mode (some value) = same_text (to_lowercase value) (codes "true")

-- The refusals of `Visibility::from_request_parts`, by their status.
pub data Extracted : Type 0 where
  visible : Visibility → Extracted
  rejected : ℕ → Extracted

-- `private_tags` are the settings' `[ui].private_tags`.
unfoldable pub visibility : Auth AuthorizedUser → Option Chars → List String → Extracted
visibility (err e) header private_tags = rejected (auth_status e)
visibility (ok user) header private_tags =
    if private_mode header
    then (if has_role "owner" user.roles
        then visible (record { user_id = user.user_id; hidden_tags = [] })
        else rejected 403)
    else visible (record { user_id = user.user_id; hidden_tags = private_tags })
