-- ===== src/Server/Authn/Budget.antt =====
-- How many passwords can be tried.
use read_flow.Server.Limiter.{record_failure, check, limiter}
use read_flow.Server.Users.{get, Users, AuthorizedUser}
use read_flow.Chars.{codes, to_lowercase, split_once, same_text, Chars}
use read_flow.Server.Limiter.{Limiter, expired, drop_expired, drop_excess}
use read_flow.Prelude.{
  ap, length-append, none, drop, ltb, ◌<◌, if◌then◌else◌, some, ◌⊎◌, String, ◌∙◌, Bool-cases, ◌≡◌,
  arith, ◌++◌, length, Option, ◌+◌, leb, Bool, ◌≤◌, List, ℕ, refl, inl, inr, [], ◌∷◌, true, false,
}
use read_flow.Server.Authn.{
  is_basic, verified_roles, split_colon, credentials_of, with_credentials, answer, claimed,
  checked_basic, extract_bearer_token, with_token, bearer_token, text_of, extract_basic_auth,
  bytes_of, Claims, missing_authorization, too_many_authorization_headers, invalid_auth_type,
  invalid_basic_auth, invalid_credentials, invalid_token, too_many_attempts, Auth, ok, err,
}

-- A request's headers, the times at which it is checked and its failure recorded, and whether its
-- blocking task runs to its end.
pub record Request : Type 0 where
  pub headers : List (Option Chars)
  pub started : ℕ
  pub ended : ℕ
  pub finished : Bool

-- A password was verified, and was wrong.
abbrev pub is_failure : Bool → Auth AuthorizedUser → Bool
is_failure finished (err invalid_credentials) = finished
is_failure finished (err missing_authorization) = false
is_failure finished (err (too_many_authorization_headers n)) = false
is_failure finished (err invalid_auth_type) = false
is_failure finished (err invalid_basic_auth) = false
is_failure finished (err invalid_token) = false
is_failure finished (err too_many_attempts) = false
is_failure finished (ok user) = false

abbrev pub one_if : Bool → ℕ
one_if true = 1
one_if false = 0

-- The request falls into the window that opens at this time.
abbrev pub Within : ℕ → ℕ → Request → Type 0
Within from window r = (r.started ≤ from + window) × (from ≤ r.ended)

abbrev pub since : ℕ → List ℕ → ℕ
since from [] = 0
since from (t ∷ l) = one_if (leb from t) + since from l

drop_expired-since :
    (from window now : ℕ) (l : List ℕ)
    → now ≤ from + window
    → since from (drop_expired window now l) ≡ since from l
unfolding drop_expired
drop_expired-since from window now [] within = refl
drop_expired-since from window now (t ∷ l) within = elim (Bool-cases (expired window now t)) [
  | inl old ↦ rw old (drop_expired-since from window now l within ∙ ground (arith, old, within))
  | inr fresh ↦ rw fresh refl
]

since-le : (from : ℕ) (l : List ℕ) → since from l ≤ length l
since-le from [] = omega arith
since-le from (t ∷ l) = ground (arith, since-le from l)

since-append :
    (from now : ℕ) (l : List ℕ) → from ≤ now → since from (l ++ (now ∷ [])) ≡ since from l + 1
since-append from now [] le = ground (arith, le)
since-append from now (t ∷ l) le = ground (arith, since-append from now l le)

drop_excess-within : (m : ℕ) (l : List ℕ) → length l ≤ m → drop_excess m l ≡ l
unfolding drop_excess
drop_excess-within m [] le = refl
drop_excess-within m (t ∷ l) le = ground (arith, le)

module _ (window m from : ℕ) where
  -- The queue after a request has grown by its failure, which the budget still held.
  pub record Counted (queue : List ℕ) (done : Bool) (r : Auth AuthorizedUser × Limiter)
      : Type 0 where
    pub after : List ℕ
    pub state : r.1 ≡ limiter window m after
    pub count : since from after ≡ since from queue + one_if (is_failure done r.0)
    pub bound : (is_failure done r.0 ≡ false) ⊎ (since from after ≤ m)

  pub unchanged :
      (queue after : List ℕ) (done : Bool) (a : Auth AuthorizedUser)
      → since from after ≡ since from queue
      → is_failure done a ≡ false
      → Counted queue done (a, limiter window m after)
  unchanged queue after done a same no_failure = record {
    after = after;
    state = refl;
    count = ground (arith, same, no_failure);
    bound = inl no_failure;
  }

-- Reading the header is never counted.
abbrev pub malformed : {A : Type 0} → Bool → Auth A → Bool
malformed done (ok a) = false
malformed done (err e) = is_failure done (err e)

module _ (decode : Chars → Option (List ℕ)) (from_utf8 : List ℕ → Option String) where
  text_of-malformed :
      (done : Bool) (o : Option String) → malformed done (text_of decode from_utf8 o) ≡ false
  text_of-malformed done none = refl
  text_of-malformed done (some s) = go (split_colon s)
    where
      go :
          (o : Option (String × String))
          → malformed done (credentials_of decode from_utf8 o) ≡ false
      go none = refl
      go (some p) = refl

  bytes_of-malformed :
      (done : Bool) (o : Option (List ℕ)) → malformed done (bytes_of decode from_utf8 o) ≡ false
  bytes_of-malformed done none = refl
  bytes_of-malformed done (some bytes) = text_of-malformed done (from_utf8 bytes)

  extract_basic_auth-malformed :
      (done : Bool) (header : Chars)
      → malformed done (extract_basic_auth decode from_utf8 header) ≡ false
  unfolding extract_basic_auth
  extract_basic_auth-malformed done header = go (is_basic header)
    where
      go :
          (b : Bool)
          → malformed done (
              if b
              then bytes_of decode from_utf8 (decode (drop 6 header))
              else err invalid_auth_type)
            ≡ false
      go true = bytes_of-malformed done (decode (drop 6 header))
      go false = refl

bearer_token-malformed :
    (done : Bool) (o : Option (Chars × Chars)) → malformed done (bearer_token o) ≡ false
bearer_token-malformed done none = refl
bearer_token-malformed done (some (bearer, token)) =
    go (same_text (to_lowercase bearer) (codes "bearer"))
  where
    go : (b : Bool) → malformed done (if b then ok token else err invalid_auth_type) ≡ false
    go true = refl
    go false = refl

module _ (decode : Chars → Option (List ℕ)) (from_utf8 : List ℕ → Option String) {Hash : Type 0}
    (verify : Hash → String → Bool) (verify_token : Chars → Option Claims) (users : Users Hash)
    (window m from : ℕ) where
  answer-Counted :
      (queue after : List ℕ) (started ended : ℕ) (user_id : String) (done : Bool)
      (v : Option (List String))
      → since from after ≡ since from queue
      → length after < m
      → from ≤ ended
      → Counted window m from queue done (
          answer decode from_utf8 verify verify_token users started ended done user_id done v
            (limiter window m after))
  unfolding record_failure
  answer-Counted queue after started ended user_id false v same room le =
      unchanged window m from queue after false (err invalid_credentials) same refl
  answer-Counted queue after started ended user_id true (some rs) same room le =
      unchanged window m from queue after true (ok record { user_id = user_id; roles = rs }) same
        refl
  answer-Counted queue after started ended user_id true none same room le =
      let fits : length (after ++ (ended ∷ [])) ≤ m =
        omega (arith, room, length-append after (ended ∷ [])) in
      record {
        after = after ++ (ended ∷ []);
        state = ap (λ q. limiter window m q) (drop_excess-within m (after ++ (ended ∷ [])) fits);
        count = omega (arith, same, since-append from ended after le);
        bound = inr (omega (arith, fits, since-le from (after ++ (ended ∷ []))));
      }

  with_credentials-Counted :
      (queue after : List ℕ) (started ended : ℕ) (done : Bool) (c : Auth (String × String))
      → malformed done c ≡ false
      → since from after ≡ since from queue
      → length after < m
      → from ≤ ended
      → Counted window m from queue done (
          with_credentials decode from_utf8 verify verify_token users started ended done c
            (limiter window m after))
  with_credentials-Counted queue after started ended done (err e) fine same room le =
      unchanged window m from queue after done (err e) same fine
  with_credentials-Counted queue after started ended done (ok (user_id, passphrase)) fine same room
        le =
      answer-Counted queue after started ended user_id done
        (verified_roles decode from_utf8 verify verify_token users started ended done
          (get user_id users) passphrase)
        same room le

  checked_basic-Counted :
      (queue after : List ℕ) (started ended : ℕ) (done may : Bool) (header : Chars)
      → since from after ≡ since from queue
      → ltb (length after) m ≡ may
      → from ≤ ended
      → Counted window m from queue done (
          checked_basic decode from_utf8 verify verify_token users started ended done header
            (limiter window m after, may))
  checked_basic-Counted queue after started ended done false header same room le =
      unchanged window m from queue after done (err too_many_attempts) same refl
  checked_basic-Counted queue after started ended done true header same room le =
      with_credentials-Counted queue after started ended done
        (extract_basic_auth decode from_utf8 header)
        (extract_basic_auth-malformed decode from_utf8 done header) same (ground (arith, room)) le

  with_token-fine :
      (started ended : ℕ) (done : Bool) (t : Auth Chars)
      → malformed done t ≡ false
      → is_failure done (with_token decode from_utf8 verify verify_token users started ended done t)
        ≡ false
  with_token-fine started ended done (err e) fine = fine
  with_token-fine started ended done (ok token) fine = go (verify_token token)
    where
      go :
          (o : Option Claims)
          → is_failure done
              (claimed decode from_utf8 verify verify_token users started ended done o)
            ≡ false
      go none = refl
      go (some c) = refl

  pub with_header-Counted :
      (queue : List ℕ) (started ended : ℕ) (done basic : Bool) (header : Chars)
      → started ≤ from + window
      → from ≤ ended
      → Counted window m from queue done (
          if basic
          then checked_basic decode from_utf8 verify verify_token users started ended done header
              (check (limiter window m queue) started)
          else (
            with_token decode from_utf8 verify verify_token users started ended done
                (extract_bearer_token header),
            limiter window m queue,
          ))
  unfolding check extract_bearer_token
  with_header-Counted queue started ended done true header within le =
      checked_basic-Counted queue (drop_expired window started queue) started ended done
        (ltb (length (drop_expired window started queue)) m) header
        (drop_expired-since from window started queue within) refl le
  with_header-Counted queue started ended done false header within le =
      unchanged window m from queue queue done
        (with_token decode from_utf8 verify verify_token users started ended done
          (extract_bearer_token header))
        refl
        (with_token-fine started ended done (extract_bearer_token header)
          (bearer_token-malformed done (split_once (codes " ") header)))
