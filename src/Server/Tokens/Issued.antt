-- ===== src/Server/Tokens/Issued.antt =====
-- A token stands for the credentials that it was granted for.
use read_flow.Server.Limiter.{Limiter}
use read_flow.Server.Tokens.{
  denied, TokenReply, token_reply, entry_roles, unsupported, grant, issued_claims, with_owner,
  granted,
}
use read_flow.Server.Tokens.{resource_owner_credentials, TokenRequest, oauth_token}
use read_flow.Chars.{codes, same_text, to_lowercase, split_once, Chars, strip_prefix}
use read_flow.Prelude.{
  ◌%◌, ◌^◌, ◌<◌, ◌+◌, ap, if◌then◌else◌, ◌&&◌, ◌≡◌, ◌++◌, Bool, String, List, Option, ℕ, none, some,
  [], ◌∷◌, refl, true, false,
}
use read_flow.Server.Authn.{from_request_parts, Claims, is_basic, extract_bearer_token, ok}
use read_flow.Server.Users.{get, UserEntry, Users, password, roles}

bearer_header : (token : Chars) → extract_bearer_token (codes "Bearer " ++ token) ≡ ok token
unfolding extract_bearer_token split_once strip_prefix to_lowercase same_text
bearer_header token = refl

bearer_is_no_basic : (token : Chars) → is_basic (codes "Bearer " ++ token) ≡ false
unfolding strip_prefix to_lowercase
bearer_is_no_basic token = refl

and-right : (a b : Bool) → (a && b) ≡ true → b ≡ true
and-right true b both = both
and-right false b both = cc both

abbrev token_or : Chars → TokenReply → Chars
token_or t (granted token seconds scope) = token
token_or t (denied status error) = t

module _ (decode : Chars → Option (List ℕ)) (from_utf8 : List ℕ → Option String) {Hash : Type 0}
    (verify : Hash → String → Bool) (encode : Claims → Option Chars) (users : Users Hash)
    (now ttl : ℕ) (finished : Bool) where
  -- The credentials are those of an authorized user, and the token holds the user's claims.
  pub record GrantedTo (headers : List (Option Chars)) (req : TokenRequest) (token : Chars)
      : Type 0 where
    pub user_id : String
    pub passphrase : String
    pub entry : UserEntry Hash
    pub sent : resource_owner_credentials decode from_utf8 headers req ≡ some (user_id, passphrase)
    pub registered : get user_id users ≡ some entry
    pub verified : verify (password entry) passphrase ≡ true
    pub holds : encode (issued_claims now ttl user_id (roles entry)) ≡ some token

  token_reply-granted :
      (o : Option Chars) (rs : List String) (token : Chars) (seconds : ℕ) (scope : String)
      → token_reply decode from_utf8 verify encode users now ttl finished rs o
        ≡ granted token seconds scope
      → o ≡ some token
  token_reply-granted none rs token seconds scope is = cc is
  token_reply-granted (some t) rs token seconds scope is = ap some (ap (token_or t) is)

  encoded :
      (headers : List (Option Chars)) (req : TokenRequest) (user_id passphrase : String)
      (entry : UserEntry Hash) (token : Chars) (seconds : ℕ) (scope : String)
      → resource_owner_credentials decode from_utf8 headers req ≡ some (user_id, passphrase)
      → get user_id users ≡ some entry
      → (good : Bool) → (finished && verify (password entry) passphrase) ≡ good
      → (t : Option Chars) → encode (issued_claims now ttl user_id (roles entry)) ≡ t
      → grant decode from_utf8 verify encode users now ttl finished user_id
          (if good then some (roles entry) else none)
        ≡ granted token seconds scope
      → GrantedTo headers req token
  encoded headers req user_id passphrase entry token seconds scope sent found false matched t holds
        is =
      cc is
  encoded headers req user_id passphrase entry token seconds scope sent found true matched t holds
        is =
      record {
        user_id = user_id;
        passphrase = passphrase;
        entry = entry;
        sent = sent;
        registered = found;
        verified = and-right finished (verify (password entry) passphrase) matched;
        holds =
            token_reply-granted (encode (issued_claims now ttl user_id (roles entry))) (roles entry)
              token seconds scope is;
      }

  by_entry :
      (headers : List (Option Chars)) (req : TokenRequest) (user_id passphrase : String)
      (token : Chars) (seconds : ℕ) (scope : String) (o : Option (UserEntry Hash))
      → resource_owner_credentials decode from_utf8 headers req ≡ some (user_id, passphrase)
      → get user_id users ≡ o
      → grant decode from_utf8 verify encode users now ttl finished user_id
          (entry_roles decode from_utf8 verify encode users now ttl finished o passphrase)
        ≡ granted token seconds scope
      → GrantedTo headers req token
  by_entry headers req user_id passphrase token seconds scope none sent found is = cc is
  by_entry headers req user_id passphrase token seconds scope (some entry) sent found is =
      encoded headers req user_id passphrase entry token seconds scope sent found
        (finished && verify (password entry) passphrase) refl
        (encode (issued_claims now ttl user_id (roles entry))) refl is

  by_credentials :
      (headers : List (Option Chars)) (req : TokenRequest) (token : Chars) (seconds : ℕ)
      (scope : String) (c : Option (String × String))
      → resource_owner_credentials decode from_utf8 headers req ≡ c
      → with_owner decode from_utf8 verify encode users now ttl finished c
        ≡ granted token seconds scope
      → GrantedTo headers req token
  by_credentials headers req token seconds scope none sent is = cc is
  by_credentials headers req token seconds scope (some (user_id, passphrase)) sent is =
      by_entry headers req user_id passphrase token seconds scope (get user_id users) sent refl is

  granted_to :
      (headers : List (Option Chars)) (req : TokenRequest) (token : Chars) (seconds : ℕ)
      (scope : String)
      → oauth_token decode from_utf8 verify encode users now ttl finished headers req
        ≡ granted token seconds scope
      → GrantedTo headers req token
  unfolding oauth_token
  granted_to headers req token seconds scope is = go (unsupported req.grant_type) is
    where
      go :
          (b : Bool)
          → (if b
              then denied 400 "unsupported_grant_type"
              else with_owner decode from_utf8 verify encode users now ttl finished
                  (resource_owner_credentials decode from_utf8 headers req))
            ≡ granted token seconds scope
          → GrantedTo headers req token
      go true is = cc is
      go false is =
          by_credentials headers req token seconds scope
            (resource_owner_credentials decode from_utf8 headers req) refl is

  -- A token from `/oauth/token` was granted for the name and password of an authorized user, and a
  -- request that presents it as a Bearer token acts as that user with the roles which the user
  -- had then. It is assumed of the token library that it accepts the claims it signed, while they
  -- have not expired at the time `later`.
  pub oauth_token-accepted :
      (accepts : ℕ → Chars → Option Claims) (headers : List (Option Chars)) (req : TokenRequest)
      (token : Chars) (seconds : ℕ) (scope : String) (users_later : Users Hash) (later ended : ℕ)
      (finished_later : Bool) (l : Limiter)
      → ((id : String) (rs : List String)
          → encode (issued_claims now ttl id rs) ≡ some token
          → later < (now + ttl) % 2 ^ 64
          → accepts later token ≡ some (issued_claims now ttl id rs))
      → later < (now + ttl) % 2 ^ 64
      → oauth_token decode from_utf8 verify encode users now ttl finished headers req
        ≡ granted token seconds scope
      → (user_id : String) × (passphrase : String) × (entry : UserEntry Hash)
        × (resource_owner_credentials decode from_utf8 headers req ≡ some (user_id, passphrase))
        × (get user_id users ≡ some entry)
        × (verify (password entry) passphrase ≡ true)
        × (from_request_parts decode from_utf8 verify
              (accepts later)
              users_later
              later
              ended
              finished_later
              (some (codes "Bearer " ++ token) ∷ [])
              l
            ≡ (ok record { user_id = user_id; roles = roles entry }, l))
  unfolding from_request_parts
  oauth_token-accepted accepts headers req token seconds scope users_later later ended
        finished_later l signed alive is =
      let g = granted_to headers req token seconds scope is in
      (
        g.user_id,
        g.passphrase,
        g.entry,
        g.sent,
        g.registered,
        g.verified,
        (rw
            (
              bearer_is_no_basic token,
              bearer_header token,
              signed g.user_id (roles g.entry) g.holds alive,
            )
            refl),
      )
