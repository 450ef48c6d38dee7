-- ===== src/Tests/Server.antt =====
-- The server's rules, on concrete requests.
use read_flow.Server.Tokens.Issued.{oauth_token-accepted}
use read_flow.Server.Tokens.{
  TokenRequest, issued_claims, oauth_token, resource_owner_credentials, join_roles,
}
use read_flow.Server.Limiter.Refinement.{check-log}
use read_flow.Server.Authn.Header.{extract_basic_auth-encoded}
use read_flow.Server.Users.Kept.{administer-removed}
use read_flow.Server.Authn.Entitled.{from_request_parts-origin, HasToken, HasPassword}
use read_flow.Server.Limiter.Log.{log_of, checked, failed, run}
use read_flow.Server.Authn.Budget.{Request}
use read_flow.Server.Access.{can_see, visibility, private_mode}
use read_flow.Server.Authn.Guessing.{wrong_passwords-le, wrong_passwords}
use read_flow.Server.Limiter.{record_failure, limiter, drop_excess, drop_expired, check}
use read_flow.Chars.{split_once, strip_prefix, same_text, to_lowercase, codes, Chars}
use read_flow.Prelude.{
  sym, ap₂, Bool-cases, ◌^◌, ◌%◌, ◌+◌, ◌&&◌, eqb→eq, if◌then◌else◌, ◌<◌, ap, Bool, arith, ◌≤◌, ◌⊎◌,
  ◌++◌, String, ◌≡◌, eqb, Option, List, str_dec, ℕ, none, some, [], ◌∷◌, refl, true, false, inl,
  inr,
}
use read_flow.Server.Authn.{
  Claims, from_request_parts, extract_bearer_token, split_colon, extract_basic_auth, ok,
}
use read_flow.Server.Users.{
  UserEntry, list_users, shift_remove, insert, get, extended, simple, has_role, put_user,
  administer, AuthorizedUser, delete_user, Users, password, roles,
}

abbrev entries : Users String
entries = ("ann", extended "pw" ("owner" ∷ [])) ∷ ("bob", simple "secret") ∷ []

abbrev owner : AuthorizedUser
owner = record { user_id = "ann"; roles = "owner" ∷ [] }

-- Passwords are stored as they are, and every Basic header is read as bob with a wrong password.
abbrev as_bob : List ℕ → Option String
as_bob bytes = some "bob:guess"

program : Unit {0}
unfolding str_dec check drop_expired drop_excess record_failure split_colon extract_basic_auth
    extract_bearer_token from_request_parts wrong_passwords run log_of get insert shift_remove
    list_users administer to_lowercase same_text strip_prefix split_once join_roles
    resource_owner_credentials oauth_token private_mode visibility can_see
program = tt

check-log_example :
    (check (run (limiter 60 2 []) (failed 0 ∷ checked 1 ∷ failed 2 ∷ failed 5 ∷ [])) 61).1 ≡ false
unfolding log_of
check-log_example =
    check-log 60 2 0 61 (failed 0 ∷ checked 1 ∷ failed 2 ∷ failed 5 ∷ []) (omega arith)

abbrev attempt_at : ℕ → Request
attempt_at t = record {
  headers = some (codes "Basic x") ∷ [];
  started = t;
  ended = t;
  finished = true;
}

wrong_passwords-le_example :
    wrong_passwords some as_bob eqb
      (λ _. none)
      entries
      (limiter 60 2 [])
      (attempt_at 5 ∷ attempt_at 6 ∷ attempt_at 7 ∷ [])
    ≤ 2
wrong_passwords-le_example =
    wrong_passwords-le some as_bob eqb (λ _. none) entries 60 2 5
      (attempt_at 5 ∷ attempt_at 6 ∷ attempt_at 7 ∷ []) [] (omega arith)

-- The third attempt is turned away, so the bound is met.
test_wrong_passwords :
    wrong_passwords some as_bob eqb
      (λ _. none)
      entries
      (limiter 60 2 [])
      (attempt_at 5 ∷ attempt_at 6 ∷ attempt_at 7 ∷ [])
    ≡ 2
unfolding program
test_wrong_passwords = refl

abbrev as_ann : List ℕ → Option String
as_ann bytes = some "ann:pw"

extract_basic_auth-encoded_example :
    extract_basic_auth some as_ann (codes "Basic " ++ codes "x") ≡ ok ("ann", "pw")
extract_basic_auth-encoded_example =
    extract_basic_auth-encoded some as_ann (codes "x") (codes "x") "ann" "pw" refl refl
      ((refl, (refl, (refl, tt))))

from_request_parts-origin_example :
    (header : Chars) × (some (codes "Basic x") ∷ [] ≡ some header ∷ [])
    × (HasPassword some as_ann eqb (λ _. none) entries 0 0 true header (limiter 60 2 []) owner
        ⊎ HasToken some as_ann eqb (λ _. none) entries 0 0 true header owner)
from_request_parts-origin_example =
    from_request_parts-origin some as_ann eqb (λ _. none) entries 0 0 true
      (some (codes "Basic x") ∷ []) (limiter 60 2 []) owner (unfold program in refl)

administer-removed_example :
    (delete_user "bob" ≡ delete_user "bob")
    × (has_role "owner" owner.roles ≡ true)
    × (eqb "bob" owner.user_id ≡ false)
unfolding str_dec
administer-removed_example =
    administer-removed some true entries entries owner (delete_user "bob") "bob" (simple "secret")
      (unfold get in refl) (unfold program in refl)

-- The only owner can take the role from himself, and nobody is an owner any more.
test_last_owner :
    (administer some true entries owner (put_user "ann" none []) entries).1
    ≡ ("ann", simple "pw") ∷ ("bob", simple "secret") ∷ []
unfolding program
test_last_owner = refl

abbrev is_owner_only : List String → Bool
is_owner_only [] = false
is_owner_only (r ∷ []) = eqb r "owner"
is_owner_only (r ∷ s ∷ rs) = false

is_owner_only-eq : (rs : List String) → is_owner_only rs ≡ true → rs ≡ "owner" ∷ []
is_owner_only-eq [] h = cc h
is_owner_only-eq (r ∷ []) h = ap (λ s. s ∷ []) (eqb→eq r "owner" h)
is_owner_only-eq (r ∷ s ∷ rs) h = cc h

-- A token library that signs one user's claims, at 1000 for an hour.
abbrev sign : Claims → Option Chars
sign c = if eqb c.sub "ann" && is_owner_only c.roles then some (codes "t") else none

abbrev accept : ℕ → Chars → Option Claims
accept later token = some (issued_claims 1000 3600 "ann" ("owner" ∷ []))

accept-sign :
    (id : String) (rs : List String)
    → sign (issued_claims 1000 3600 id rs) ≡ some (codes "t")
    → 2000 < (1000 + 3600) % 2 ^ 64
    → accept 2000 (codes "t") ≡ some (issued_claims 1000 3600 id rs)
accept-sign id rs signed alive = elim (Bool-cases (eqb id "ann")) [
  | inl ann ↦ elim (Bool-cases (is_owner_only rs)) [
    | inl only ↦
        ap₂ (λ i r. some (issued_claims 1000 3600 i r)) (sym (eqb→eq id "ann" ann))
          (sym (is_owner_only-eq rs only))
    | inr other ↦ ground (arith, signed, ann, other)
  ]
  | inr other ↦ ground (arith, signed, other)
]

abbrev form : TokenRequest
form = record { grant_type = some "password"; username = some "ann"; password = some "pw" }

oauth_token-accepted_example :
    (user_id : String) × (passphrase : String) × (entry : UserEntry String)
    × (resource_owner_credentials some as_ann [] form ≡ some (user_id, passphrase))
    × (get user_id entries ≡ some entry)
    × (eqb (password entry) passphrase ≡ true)
    × (from_request_parts some as_ann eqb
          (accept 2000)
          []
          2000
          2000
          true
          (some (codes "Bearer t") ∷ [])
          (limiter 60 2 [])
        ≡ (ok record { user_id = user_id; roles = roles entry }, limiter 60 2 []))
oauth_token-accepted_example =
    oauth_token-accepted some as_ann eqb sign entries 1000 3600 true accept [] form (codes "t") 3600
      "owner" [] 2000 2000 true (limiter 60 2 []) accept-sign (omega arith) (unfold program in refl)
