-- ===== src/Server/Tokens.antt =====
-- core/src/server/token.rs and `oauth_token` of core/src/server/mod.rs: credentials are exchanged
-- for a token that stands for them until it expires.
pub mod Issued
use read_flow.Server.Users.{password, roles}
use read_flow.Server.Users.{UserEntry, get, Users}
use read_flow.Server.Authn.Header.{append}
use read_flow.Chars.{Chars}
use read_flow.Prelude.{
  ◌^◌, eqb, ◌&&◌, not, ◌%◌, false, ◌+◌, if◌then◌else◌, Bool, Option, String, List, ℕ, none, some,
  [], ◌∷◌,
}
use read_flow.Server.Authn.{extract_basic_auth, is_basic, Auth, Claims, ok, err}

abbrev pub default_token_ttl : ℕ
default_token_ttl = 3600

abbrev pub issuer : String
issuer = "read-flow"

-- `roles.join(" ")`.
unfoldable pub join_roles : List String → String
join_roles [] = ""
join_roles (r ∷ []) = r
join_roles (r ∷ s ∷ rs) = append r (append " " (join_roles (s ∷ rs)))

abbrev pub issued_claims : ℕ → ℕ → String → List String → Claims
issued_claims now ttl user_id rs = record {
  iss = issuer;
  sub = user_id;
  iat = now;
  exp = (now + ttl) % 2 ^ 64;
  roles = rs;
  scope = join_roles rs;
}

-- The form of a token request.
pub record TokenRequest : Type 0 where
  pub grant_type : Option String
  pub username : Option String
  pub password : Option String

pub data TokenReply : Type 0 where
  granted : Chars → ℕ → String → TokenReply
  denied : ℕ → String → TokenReply

abbrev pub form_credentials : Option String → Option String → Option (String × String)
form_credentials (some username) (some password) = some (username, password)
form_credentials (some username) none = none
form_credentials none password = none

abbrev pub first_header : List (Option Chars) → Option Chars
first_header [] = none
first_header (h ∷ headers) = h

abbrev pub unsupported : Option String → Bool
unsupported none = false
unsupported (some grant_type) = not (eqb grant_type "password")

-- `encode` is `jsonwebtoken::encode` with the process's secret, none where it fails; `now` is the
-- clock, `ttl` the lifetime in seconds, and `finished` whether the blocking task ran to its end.
module _ (decode : Chars → Option (List ℕ)) (from_utf8 : List ℕ → Option String) where
  abbrev pub or_form : Auth (String × String) → Option (String × String) → Option (String × String)
  or_form (ok pair) form = some pair
  or_form (err e) form = form

  abbrev pub header_credentials : Option Chars → Option (String × String) → Option (String × String)
  header_credentials none form = form
  header_credentials (some header) form =
      if is_basic header then or_form (extract_basic_auth decode from_utf8 header) form else form

  unfoldable pub resource_owner_credentials :
      List (Option Chars) → TokenRequest → Option (String × String)
  resource_owner_credentials headers req =
      header_credentials (first_header headers) (form_credentials req.username req.password)

  module _ {Hash : Type 0} (verify : Hash → String → Bool) (encode : Claims → Option Chars)
      (users : Users Hash) (now ttl : ℕ) (finished : Bool) where
    abbrev pub entry_roles : Option (UserEntry Hash) → String → Option (List String)
    entry_roles none passphrase = none
    entry_roles (some entry) passphrase =
        if finished && verify (password entry) passphrase then some (roles entry) else none

    abbrev pub token_reply : List String → Option Chars → TokenReply
    token_reply rs none = denied 500 "server_error"
    token_reply rs (some token) = granted token ttl (join_roles rs)

    abbrev pub issue : String → List String → Option Chars
    issue user_id rs = encode (issued_claims now ttl user_id rs)

    abbrev pub grant : String → Option (List String) → TokenReply
    grant user_id none = denied 400 "invalid_grant"
    grant user_id (some rs) = token_reply rs (issue user_id rs)

    abbrev pub with_owner : Option (String × String) → TokenReply
    with_owner none = denied 400 "invalid_request"
    with_owner (some (user_id, passphrase)) =
        grant user_id (entry_roles (get user_id users) passphrase)

    unfoldable pub oauth_token : List (Option Chars) → TokenRequest → TokenReply
    oauth_token headers req =
        if unsupported req.grant_type
        then denied 400 "unsupported_grant_type"
        else with_owner (resource_owner_credentials headers req)
