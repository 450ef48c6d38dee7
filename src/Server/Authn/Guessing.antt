-- ===== src/Server/Authn/Guessing.antt =====
-- How many wrong passwords a run of requests can try within one window.
use read_flow.Server.Limiter.{limiter, Limiter}
use read_flow.Server.Authn.Budget.{
  with_header-Counted, unchanged, since, is_failure, Counted, one_if, Within, malformed, Request,
}
use read_flow.Server.Users.{AuthorizedUser, Users}
use read_flow.Chars.{Chars}
use read_flow.Prelude.{
  sym, subst, ◌+◌, ◌⊎◌, arith, none, some, ◌≤◌, ◌≡◌, All, Bool, String, List, Option, ℕ, refl, inl,
  inr, [], ◌∷◌, true, false,
}
use read_flow.Server.Authn.{
  is_basic, with_header, single_header, from_request_parts, Auth, Claims, ok, err,
}

spent :
    (b : Bool) (a s w m : ℕ)
    → a ≡ s + one_if b
    → (b ≡ false) ⊎ (a ≤ m)
    → (w ≡ 0) ⊎ (a + w ≤ m)
    → (one_if b + w ≡ 0) ⊎ (s + (one_if b + w) ≤ m)
spent false a s w m count bound (inl none_left) = inl (omega (arith, none_left))
spent false a s w m count bound (inr room) = inr (omega (arith, count, room))
spent true a s w m count (inl no_failure) later = cc no_failure
spent true a s w m count (inr room) (inl none_left) = inr (omega (arith, count, room, none_left))
spent true a s w m count (inr over) (inr room) = inr (omega (arith, count, room))

module _ (decode : Chars → Option (List ℕ)) (from_utf8 : List ℕ → Option String) {Hash : Type 0}
    (verify : Hash → String → Bool) (verify_token : Chars → Option Claims)
    (users : Users Hash) where
  abbrev pub handled : Request → Limiter → Auth AuthorizedUser × Limiter
  handled r l =
      from_request_parts decode from_utf8 verify verify_token users r.started r.ended r.finished
        r.headers l

  -- The wrong passwords that were verified for the requests, one after the other.
  unfoldable pub wrong_passwords : Limiter → List Request → ℕ
  wrong_passwords l [] = 0
  wrong_passwords l (r ∷ rs) =
      one_if (is_failure r.finished (handled r l).0) + wrong_passwords (handled r l).1 rs

  module _ (window m from : ℕ) where
    with_header-all :
        (queue : List ℕ) (started ended : ℕ) (done : Bool) (h : Auth Chars)
        → malformed done h ≡ false
        → started ≤ from + window
        → from ≤ ended
        → Counted window m from queue done (
            with_header decode from_utf8 verify verify_token users started ended done h
              (limiter window m queue))
    with_header-all queue started ended done (err e) fine within le =
        unchanged window m from queue queue done (err e) refl fine
    with_header-all queue started ended done (ok header) fine within le =
        with_header-Counted decode from_utf8 verify verify_token users window m from queue started
          ended done (is_basic header) header within le

    single_header-malformed :
        (done : Bool) (headers : List (Option Chars))
        → malformed done (single_header headers) ≡ false
    single_header-malformed done [] = refl
    single_header-malformed done (none ∷ []) = refl
    single_header-malformed done (some header ∷ []) = refl
    single_header-malformed done (a ∷ b ∷ l) = refl

    handled-Counted :
        (r : Request) (queue : List ℕ)
        → Within from window r
        → Counted window m from queue r.finished (handled r (limiter window m queue))
    unfolding from_request_parts
    handled-Counted r queue within =
        with_header-all queue r.started r.ended r.finished (single_header r.headers)
          (single_header-malformed r.finished r.headers) within.0 within.1

    counted :
        (rs : List Request) (queue : List ℕ)
        → All (Within from window) rs
        → (wrong_passwords (limiter window m queue) rs ≡ 0)
          ⊎ (since from queue + wrong_passwords (limiter window m queue) rs ≤ m)
    unfolding wrong_passwords
    counted [] queue within = inl refl
    counted (r ∷ rs) queue within =
        let c = handled-Counted r queue within.0 in go c (counted rs c.after within.1)
      where
        go :
            (c : Counted window m from queue r.finished (handled r (limiter window m queue)))
            → (wrong_passwords (limiter window m c.after) rs ≡ 0)
              ⊎ (since from c.after + wrong_passwords (limiter window m c.after) rs ≤ m)
            → (wrong_passwords (limiter window m queue) (r ∷ rs) ≡ 0)
              ⊎ (since from queue + wrong_passwords (limiter window m queue) (r ∷ rs) ≤ m)
        go c later =
            spent (is_failure r.finished (handled r (limiter window m queue)).0)
              (since from c.after) (since from queue)
              (wrong_passwords (handled r (limiter window m queue)).1 rs) m c.count c.bound
              (subst
                (λ l. (wrong_passwords l rs ≡ 0) ⊎ (since from c.after + wrong_passwords l rs ≤ m))
                (sym c.state) later)

    -- Whatever the limiter holds at first: among requests handled one after the other, all checked
    -- before the end of a window and with failures recorded after its start, at most
    -- `max_failures` have a password verified that turns out wrong.
    pub wrong_passwords-le :
        (rs : List Request) (queue : List ℕ)
        → All (Within from window) rs
        → wrong_passwords (limiter window m queue) rs ≤ m
    wrong_passwords-le rs queue within = ground (arith, counted rs queue within)
