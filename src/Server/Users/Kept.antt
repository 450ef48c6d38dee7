-- ===== src/Server/Users/Kept.antt =====
-- What the user administration leaves alone.
use read_flow.Server.Users.{
  forbidden, administer, put_user, contains_key, bad_request, password, post_user, delete_user,
  as_owner, new_hash, has_role, UserDto, not_found, AdminRequest, settings, put_found, Reply,
  AuthorizedUser, saved, HttpError, refused, make_user_entry, insert_hashed, UserEntry, Users,
  insert, shift_remove, get,
}
use read_flow.Prelude.{
  Bool, Option, if◌then◌else◌, eqb→eq, sym, refl, inr, subst, ap, inl, Bool-cases, true, ◌∷◌, ◌≢◌,
  [], none, eqb_refl, false, some, ◌≡◌, eqb, List, String,
}

get-insert :
    {A : Type 0} (key other : String) (a : A) (m : List (String × A))
    → eqb other key ≡ false
    → get key (insert other a m) ≡ get key m
unfolding get insert
get-insert key other a [] differ = rw differ refl
get-insert key other a ((k, b) ∷ m) differ = elim (Bool-cases (eqb k other)) [
  | inl same ↦ rw (same, subst (λ o. eqb o key ≡ false) (sym (eqb→eq k other same)) differ) refl
  | inr new ↦ rw new (ap (λ r. if eqb k key then some b else r) (get-insert key other a m differ))
]

get-insert_same :
    {A : Type 0} (key : String) (a : A) (m : List (String × A)) → get key (insert key a m) ≡ some a
unfolding get insert
get-insert_same key a [] = rw (eqb_refl key) refl
get-insert_same key a ((k, b) ∷ m) = elim (Bool-cases (eqb k key)) [
  | inl same ↦ rw (same, same) refl
  | inr new ↦ rw (new, new) (get-insert_same key a m)
]

get-shift_remove :
    {A : Type 0} (key other : String) (m : List (String × A))
    → eqb other key ≡ false
    → get key (shift_remove other m) ≡ get key m
unfolding get shift_remove
get-shift_remove key other [] differ = refl
get-shift_remove key other ((k, b) ∷ m) differ = elim (Bool-cases (eqb k other)) [
  | inl same ↦ rw (same, subst (λ o. eqb o key ≡ false) (sym (eqb→eq k other same)) differ) refl
  | inr new ↦
      rw new (ap (λ r. if eqb k key then some b else r) (get-shift_remove key other m differ))
]

lost-other :
    {Hash : Type 0} (key other : String) (entry : Hash) (m changed : List (String × Hash))
    → (eqb other key ≡ false → get key changed ≡ get key m)
    → get key m ≡ some entry
    → get key changed ≡ none
    → eqb other key ≡ true
lost-other key other entry m changed same was gone = elim (Bool-cases (eqb other key)) [
  | inl equal ↦ equal
  | inr differ ↦ cc (same differ, was, gone)
]

insert-kept :
    {A : Type 0} (key other : String) (a entry : A) (m : List (String × A))
    → get key m ≡ some entry
    → get key (insert other a m) ≢ none
insert-kept key other a entry m was gone = elim (Bool-cases (eqb other key)) [
  | inl equal ↦
      cc (get-insert_same key a m, ap (λ o. get key (insert o a m)) (eqb→eq other key equal), gone)
  | inr differ ↦ cc (get-insert key other a m differ, was, gone)
]

-- The user was there, and is gone.
abbrev pub Removed : {A : Type 0} → String → A → List (String × A) → List (String × A) → Type 0
Removed key entry before after = (get key before ≡ some entry) × (get key after ≡ none)

Stays :
    {Hash : Type 0}
    → String
    → UserEntry Hash
    → Users Hash
    → Reply (List UserDto) × Users Hash
    → Type 0
Stays key entry stored r = Removed key entry stored r.1 → ⊥

if-Stays :
    {Hash : Type 0} (key : String) (entry : UserEntry Hash) (stored : Users Hash) (b : Bool)
    (x y : Reply (List UserDto) × Users Hash)
    → Stays key entry stored x
    → Stays key entry stored y
    → Stays key entry stored (if b then x else y)
if-Stays key entry stored true x y p q = p
if-Stays key entry stored false x y p q = q

refused-Stays :
    {Hash : Type 0} (key : String) (entry : UserEntry Hash) (stored : Users Hash) (e : HttpError)
    → Stays key entry stored (refused e, stored)
unfolding Stays
refused-Stays key entry stored e gone = cc (gone.0, gone.1)

insert-Stays :
    {Hash : Type 0} (key : String) (entry : UserEntry Hash) (stored : Users Hash) (saves : Bool)
    (other : String) (a : UserEntry Hash)
    → Stays key entry stored (saved saves stored (insert other a stored))
unfolding Stays
insert-Stays key entry stored true other a gone = insert-kept key other a entry stored gone.0 gone.1
insert-Stays key entry stored false other a gone = cc (gone.0, gone.1)

module _ {Hash : Type 0} (hash : String → Option Hash) (saves : Bool) (cached : Users Hash)
    (key : String) (entry : UserEntry Hash) (stored : Users Hash) where
  insert_hashed-Stays :
      (user_id : String) (rs : List String) (h : Option Hash)
      → Stays key entry stored (insert_hashed hash saves cached user_id rs h stored)
  insert_hashed-Stays user_id rs none = refused-Stays key entry stored settings
  insert_hashed-Stays user_id rs (some h) =
      insert-Stays key entry stored saves user_id (make_user_entry h rs)

  put_found-Stays :
      (user_id : String) (p : Option String) (rs : List String) (existing : Option (UserEntry Hash))
      → Stays key entry stored (put_found hash saves cached user_id p rs existing stored)
  put_found-Stays user_id p rs none = refused-Stays key entry stored not_found
  put_found-Stays user_id p rs (some e) =
      insert_hashed-Stays user_id rs (new_hash hash saves cached p (password e))

  -- The request is to delete this user, and comes from an owner who is another one.
  abbrev pub DeletedBy : AuthorizedUser → AdminRequest → Type 0
  DeletedBy user request =
      (request ≡ delete_user key)
      × (has_role "owner" user.roles ≡ true)
      × (eqb key user.user_id ≡ false)

  deleted :
      (user : AuthorizedUser) (user_id : String) (ok : Bool)
      → has_role "owner" user.roles ≡ true
      → eqb user_id user.user_id ≡ false
      → Removed key entry stored (saved ok stored (shift_remove user_id stored)).1
      → DeletedBy user (delete_user user_id)
  deleted user user_id false owner differ gone =
      absurd (unfold Stays in refused-Stays key entry stored settings gone)
  deleted user user_id true owner differ gone =
      let is_key : user_id ≡ key = eqb→eq user_id key (
        lost-other key user_id entry stored (shift_remove user_id stored)
          (get-shift_remove key user_id stored) gone.0 gone.1) in
      (ap delete_user is_key, owner, subst (λ k. eqb k user.user_id ≡ false) is_key differ)

  as_owner-Removed :
      (user : AuthorizedUser) (request : AdminRequest)
      → has_role "owner" user.roles ≡ true
      → Removed key entry stored (as_owner hash saves cached user request stored).1
      → DeletedBy user request
  unfolding Stays
  as_owner-Removed user (post_user user_id p rs) owner gone = absurd (
      if-Stays key entry stored (eqb user_id "") _ _ (refused-Stays key entry stored bad_request)
        (if-Stays key entry stored (contains_key user_id cached) _ _
          (refused-Stays key entry stored bad_request) (insert_hashed-Stays user_id rs (hash p)))
        gone)
  as_owner-Removed user (put_user user_id p rs) owner gone =
      absurd (put_found-Stays user_id p rs (get user_id cached) gone)
  as_owner-Removed user (delete_user user_id) owner gone =
      elim (Bool-cases (eqb user_id user.user_id)) [
        | inl same ↦ absurd (
            unfold Stays in
            refused-Stays key entry stored bad_request (
              subst
                (λ b.
                  Removed key entry stored
                    (if b
                      then (refused bad_request, stored)
                      else saved saves stored (shift_remove user_id stored)).1)
                same gone))
        | inr differ ↦ deleted user user_id saves owner differ (
            subst
              (λ b.
                Removed key entry stored
                  (if b
                    then (refused bad_request, stored)
                    else saved saves stored (shift_remove user_id stored)).1)
              differ gone)
      ]

-- A user that the settings file holds is gone after a request to the user administration only if
-- the request was to delete just this user and came from another user, who is an owner.
pub administer-removed :
    {Hash : Type 0} (hash : String → Option Hash) (saves : Bool) (cached stored : Users Hash)
    (user : AuthorizedUser) (request : AdminRequest) (key : String) (entry : UserEntry Hash)
    → get key stored ≡ some entry
    → get key (administer hash saves cached user request stored).1 ≡ none
    → (request ≡ delete_user key)
      × (has_role "owner" user.roles ≡ true)
      × (eqb key user.user_id ≡ false)
unfolding administer
administer-removed hash saves cached stored user request key entry was gone =
    elim (Bool-cases (has_role "owner" user.roles)) [
      | inl owner ↦ as_owner-Removed hash saves cached key entry stored user request owner (
        was,
        subst
            (λ b.
              get key
                (if b
                  then as_owner hash saves cached user request stored
                  else (refused forbidden, stored)).1
              ≡ none)
            owner gone,
      )
      | inr other ↦ absurd (
          unfold Stays in
          refused-Stays key entry stored forbidden (
            was,
            subst
                (λ b.
                  get key
                    (if b
                      then as_owner hash saves cached user request stored
                      else (refused forbidden, stored)).1
                  ≡ none)
                other gone,
          ))
    ]
