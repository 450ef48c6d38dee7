-- ===== src/Server/Authn.antt =====
-- core/src/server/authn.rs: how a request's `Authorization` headers become a user. `to_str` lets
-- only visible ASCII through, so a header is its code points, and a byte index is one of them.
pub mod Entitled
pub mod Budget
pub mod Guessing
pub mod Header
use Prim.Native.Char.{code}
use read_flow.Server.Limiter.{record_failure, check, Limiter}
use read_flow.Chars.{to_lowercase, codes, same_text, strip_prefix, split_once, Chars}
use read_flow.Prelude.{
  ◌==◌, true, false, [], length, drop, Bool, ◌∷◌, if◌then◌else◌, some, none, Option, List, String,
  ℕ,
}
use read_flow.Server.Users.{roles, get, password, UserEntry, Users, AuthorizedUser}

pub data AuthError : Type 0 where
  missing_authorization : AuthError
  too_many_authorization_headers : ℕ → AuthError
  invalid_auth_type : AuthError
  invalid_basic_auth : AuthError
  invalid_credentials : AuthError
  invalid_token : AuthError
  too_many_attempts : AuthError

pub data Auth {ℓ} (A : Type ℓ) : Type ℓ where
  ok : A → Auth A
  err : AuthError → Auth A

abbrev pub auth_status : AuthError → ℕ
auth_status missing_authorization = 401
auth_status (too_many_authorization_headers n) = 400
auth_status invalid_auth_type = 401
auth_status invalid_basic_auth = 401
auth_status invalid_credentials = 403
auth_status invalid_token = 401
auth_status too_many_attempts = 429

-- The `Option<String>` that `str::split_once(':')` gives.
unfoldable pub split_colon : String → Option (String × String)
split_colon String.[] = none
split_colon (String.◌∷◌ c s) =
    let rest = split_colon s in
    if code c == b':'
    then some (String.[], s)
    else elim rest [ none ↦ none | some (a, b) ↦ some (String.◌∷◌ c a, b) ]

abbrev pub starts_with : Chars → Chars → Bool
starts_with prefix s = elim (strip_prefix prefix s) [ none ↦ false | some _ ↦ true ]

abbrev pub is_basic : Chars → Bool
is_basic header = starts_with (codes "basic ") (to_lowercase header)

-- `jsonwebtoken`'s claims, core/src/server/token.rs.
pub record Claims : Type 0 where
  pub iss : String
  pub sub : String
  pub iat : ℕ
  pub exp : ℕ
  pub roles : List String
  pub scope : String

abbrev pub single_header : List (Option Chars) → Auth Chars
single_header [] = err missing_authorization
single_header (none ∷ []) = err invalid_basic_auth
single_header (some header ∷ []) = ok header
single_header (a ∷ b ∷ l) = err (too_many_authorization_headers (length (a ∷ b ∷ l)))

abbrev pub bearer_token : Option (Chars × Chars) → Auth Chars
bearer_token none = err invalid_auth_type
bearer_token (some (bearer, token)) =
    if same_text (to_lowercase bearer) (codes "bearer") then ok token else err invalid_auth_type

unfoldable pub extract_bearer_token : Chars → Auth Chars
extract_bearer_token header = bearer_token (split_once (codes " ") header)

-- `decode` is base64's decoder, `from_utf8` that of texts.
module _ (decode : Chars → Option (List ℕ)) (from_utf8 : List ℕ → Option String) where
  abbrev pub credentials_of : Option (String × String) → Auth (String × String)
  credentials_of none = err invalid_basic_auth
  credentials_of (some pair) = ok pair

  abbrev pub text_of : Option String → Auth (String × String)
  text_of none = err invalid_basic_auth
  text_of (some credentials) = credentials_of (split_colon credentials)

  abbrev pub bytes_of : Option (List ℕ) → Auth (String × String)
  bytes_of none = err invalid_basic_auth
  bytes_of (some bytes) = text_of (from_utf8 bytes)

  unfoldable pub extract_basic_auth : Chars → Auth (String × String)
  extract_basic_auth header =
      if is_basic header then bytes_of (decode (drop 6 header)) else err invalid_auth_type

  -- `verify` is the password hash's check and `verify_token` that of the token service; `users` are
  -- the settings' authorized users, `started` is the time of `check`, `ended` that of
  -- `record_failure`, and `finished` whether the blocking task ran to its end.
  module _ {Hash : Type 0} (verify : Hash → String → Bool) (verify_token : Chars → Option Claims)
      (users : Users Hash) (started ended : ℕ) (finished : Bool) where
    abbrev pub verified_roles : Option (UserEntry Hash) → String → Option (List String)
    verified_roles none passphrase = none
    verified_roles (some entry) passphrase =
        if verify (password entry) passphrase then some (roles entry) else none

    abbrev pub answer :
        String → Bool → Option (List String) → Limiter → Auth AuthorizedUser × Limiter
    answer user_id false verified l = (err invalid_credentials, l)
    answer user_id true (some rs) l = (ok record { user_id = user_id; roles = rs }, l)
    answer user_id true none l = (err invalid_credentials, record_failure l ended)

    abbrev pub with_credentials : Auth (String × String) → Limiter → Auth AuthorizedUser × Limiter
    with_credentials (err e) l = (err e, l)
    with_credentials (ok (user_id, passphrase)) l =
        answer user_id finished (verified_roles (get user_id users) passphrase) l

    abbrev pub checked_basic : Chars → Limiter × Bool → Auth AuthorizedUser × Limiter
    checked_basic header (l, true) = with_credentials (extract_basic_auth header) l
    checked_basic header (l, false) = (err too_many_attempts, l)

    abbrev pub claimed : Option Claims → Auth AuthorizedUser
    claimed none = err invalid_token
    claimed (some claims) = ok record { user_id = claims.sub; roles = claims.roles }

    abbrev pub with_token : Auth Chars → Auth AuthorizedUser
    with_token (err e) = err e
    with_token (ok token) = claimed (verify_token token)

    abbrev pub with_header : Auth Chars → Limiter → Auth AuthorizedUser × Limiter
    with_header (err e) l = (err e, l)
    with_header (ok header) l =
        if is_basic header
        then checked_basic header (check l started)
        else (with_token (extract_bearer_token header), l)

    unfoldable pub from_request_parts :
        List (Option Chars) → Limiter → Auth AuthorizedUser × Limiter
    from_request_parts headers l = with_header (single_header headers) l
