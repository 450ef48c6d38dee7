-- ===== src/Server/Authn/Entitled.antt =====
-- Who a request can be.
use read_flow.Server.Limiter.{check, Limiter}
use read_flow.Server.Users.{password, get, UserEntry, AuthorizedUser, Users}
use read_flow.Chars.{Chars}
use read_flow.Prelude.{
  inr, subst, inl, sym, if◌then◌else◌, false, ap, none, true, some, ◌≡◌, ◌⊎◌, Bool, String, List,
  Option, ℕ, [], ◌∷◌, refl,
}
use read_flow.Server.Authn.{
  from_request_parts, verified_roles, roles, answer, with_credentials, checked_basic,
  extract_basic_auth, claimed, with_token, extract_bearer_token, is_basic, Auth, Claims, ok, err,
}

abbrev user_or : AuthorizedUser → Auth AuthorizedUser → AuthorizedUser
user_or u (err e) = u
user_or u (ok v) = v

module _ (decode : Chars → Option (List ℕ)) (from_utf8 : List ℕ → Option String) {Hash : Type 0}
    (verify : Hash → String → Bool) (verify_token : Chars → Option Claims) (users : Users Hash)
    (started ended : ℕ) (finished : Bool) where
  -- The credentials of a Basic header name this user, whose entry has the password and the roles.
  pub record HasPassword (header : Chars) (l : Limiter) (user : AuthorizedUser) : Type 0 where
    pub passphrase : String
    pub entry : UserEntry Hash
    pub basic : is_basic header ≡ true
    pub allowed : (check l started).1 ≡ true
    pub credentials : extract_basic_auth decode from_utf8 header ≡ ok (user.user_id, passphrase)
    pub registered : get user.user_id users ≡ some entry
    pub verified : verify (password entry) passphrase ≡ true
    pub granted : user.roles ≡ roles entry

  -- A Bearer header holds a token whose claims are this user's.
  pub record HasToken (header : Chars) (user : AuthorizedUser) : Type 0 where
    pub token : Chars
    pub claims : Claims
    pub bearer : extract_bearer_token header ≡ ok token
    pub accepted : verify_token token ≡ some claims
    pub subject : user.user_id ≡ claims.sub
    pub granted : user.roles ≡ claims.roles

  abbrev Origin : Chars → Limiter → AuthorizedUser → Type 0
  Origin header l user = HasPassword header l user ⊎ HasToken header user

  granted_by :
      (header : Chars) (l m : Limiter) (user : AuthorizedUser) (user_id passphrase : String)
      (entry : UserEntry Hash) (matches : Bool)
      → is_basic header ≡ true
      → (check l started).1 ≡ true
      → extract_basic_auth decode from_utf8 header ≡ ok (user_id, passphrase)
      → get user_id users ≡ some entry
      → verify (password entry) passphrase ≡ matches
      → (answer decode from_utf8 verify verify_token users started ended finished user_id true
          (if matches then some (roles entry) else none)
          m).0
        ≡ ok user
      → HasPassword header l user
  granted_by header l m user user_id passphrase entry false basic allowed creds found matched is =
      cc is
  granted_by header l m user user_id passphrase entry true basic allowed creds found matched is =
      let same : record { user_id = user_id; roles = roles entry } ≡ user = ap (user_or user) is in
      let same_id : user_id ≡ user.user_id = ap (λ (u : AuthorizedUser). u.user_id) same in
      record {
        passphrase = passphrase;
        entry = entry;
        basic = basic;
        allowed = allowed;
        credentials =
            subst (λ u. extract_basic_auth decode from_utf8 header ≡ ok (u, passphrase)) same_id
              creds;
        registered = subst (λ u. get u users ≡ some entry) same_id found;
        verified = matched;
        granted = sym (ap (λ (u : AuthorizedUser). u.roles) same);
      }

  answer-ok :
      (header : Chars) (l m : Limiter) (user : AuthorizedUser) (user_id passphrase : String)
      → is_basic header ≡ true
      → (check l started).1 ≡ true
      → extract_basic_auth decode from_utf8 header ≡ ok (user_id, passphrase)
      → (done : Bool) (o : Option (UserEntry Hash)) → get user_id users ≡ o
      → (answer decode from_utf8 verify verify_token users started ended finished user_id done
          (verified_roles decode from_utf8 verify verify_token users started ended finished o
            passphrase)
          m).0
        ≡ ok user
      → HasPassword header l user
  answer-ok header l m user user_id passphrase basic allowed creds false o found is = cc is
  answer-ok header l m user user_id passphrase basic allowed creds true none found is = cc is
  answer-ok header l m user user_id passphrase basic allowed creds true (some entry) found is =
      granted_by header l m user user_id passphrase entry (verify (password entry) passphrase) basic
        allowed creds found refl is

  with_credentials-ok :
      (header : Chars) (l m : Limiter) (user : AuthorizedUser) (c : Auth (String × String))
      → is_basic header ≡ true
      → (check l started).1 ≡ true
      → extract_basic_auth decode from_utf8 header ≡ c
      → (with_credentials decode from_utf8 verify verify_token users started ended finished c m).0
        ≡ ok user
      → HasPassword header l user
  with_credentials-ok header l m user (err e) basic allowed creds is = cc is
  with_credentials-ok header l m user (ok (user_id, passphrase)) basic allowed creds is =
      answer-ok header l m user user_id passphrase basic allowed creds finished (get user_id users)
        refl is

  checked_basic-ok :
      (header : Chars) (l : Limiter) (user : AuthorizedUser) (r : Limiter × Bool)
      → is_basic header ≡ true
      → check l started ≡ r
      → (checked_basic decode from_utf8 verify verify_token users started ended finished header r).0
        ≡ ok user
      → HasPassword header l user
  checked_basic-ok header l user (m, false) basic checks is = cc is
  checked_basic-ok header l user (m, true) basic checks is =
      with_credentials-ok header l m user (extract_basic_auth decode from_utf8 header) basic
        (ap (λ (p : Limiter × Bool). p.1) checks) refl is

  with_token-ok :
      (header : Chars) (user : AuthorizedUser) (t : Auth Chars)
      → extract_bearer_token header ≡ t
      → with_token decode from_utf8 verify verify_token users started ended finished t ≡ ok user
      → HasToken header user
  with_token-ok header user (err e) bearer is = cc is
  with_token-ok header user (ok token) bearer is = claimed-ok (verify_token token) refl is
    where
      claimed-ok :
          (o : Option Claims)
          → verify_token token ≡ o
          → claimed decode from_utf8 verify verify_token users started ended finished o ≡ ok user
          → HasToken header user
      claimed-ok none found is = cc is
      claimed-ok (some c) found is =
          let same : record { user_id = c.sub; roles = c.roles } ≡ user = ap (user_or user) is in
          record {
            token = token;
            claims = c;
            bearer = bearer;
            accepted = found;
            subject = sym (ap (λ (u : AuthorizedUser). u.user_id) same);
            granted = sym (ap (λ (u : AuthorizedUser). u.roles) same);
          }

  with_header-ok :
      (header : Chars) (l : Limiter) (user : AuthorizedUser) (b : Bool)
      → is_basic header ≡ b
      → (if b
          then checked_basic decode from_utf8 verify verify_token users started ended finished
              header
              (check l started)
          else (
            with_token decode from_utf8 verify verify_token users started ended finished
                (extract_bearer_token header),
            l,
          )).0
        ≡ ok user
      → Origin header l user
  with_header-ok header l user true basic is =
      inl (checked_basic-ok header l user (check l started) basic refl is)
  with_header-ok header l user false basic is =
      inr (with_token-ok header user (extract_bearer_token header) refl is)

  -- A request acts as a user only on the strength of exactly one `Authorization` header: either a
  -- Basic one, which the limiter let through and whose name and password belong to an authorized
  -- user with just these roles, or a Bearer one, whose token was accepted with claims for just
  -- this user and these roles.
  pub from_request_parts-origin :
      (headers : List (Option Chars)) (l : Limiter) (user : AuthorizedUser)
      → (from_request_parts decode from_utf8 verify verify_token users started ended finished
          headers l).0
        ≡ ok user
      → (header : Chars) × (headers ≡ some header ∷ [])
        × (HasPassword header l user ⊎ HasToken header user)
  unfolding from_request_parts
  from_request_parts-origin [] l user is = cc is
  from_request_parts-origin (none ∷ []) l user is = cc is
  from_request_parts-origin (some header ∷ []) l user is =
      (header, refl, with_header-ok header l user (is_basic header) refl is)
  from_request_parts-origin (a ∷ b ∷ headers) l user is = cc is
