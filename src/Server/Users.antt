-- ===== src/Server/Users.antt =====
-- The authorized users of core/src/settings.rs and the user administration of
-- core/src/server/mod.rs. The map from ids to entries keeps its order, as `IndexMap` does.
pub mod Kept
use read_flow.Db.Result.{Error}
use read_flow.Prelude.{
  true, ◌||◌, false, eqb, some, any, if◌then◌else◌, none, ◌∷◌, [], Option, Bool, String, List, ℕ,
}

-- `Hash` is the type of password hashes.
pub data UserEntry (Hash : Type 0) : Type 0 where
  simple : Hash → UserEntry Hash
  extended : Hash → List String → UserEntry Hash

abbrev pub password : {Hash : Type 0} → UserEntry Hash → Hash
password (simple p) = p
password (extended p roles) = p

abbrev pub roles : {Hash : Type 0} → UserEntry Hash → List String
roles (simple p) = []
roles (extended p rs) = rs

unfoldable pub get {ℓ} : {A : Type ℓ} → String → List (String × A) → Option A
get key [] = none
get key ((k, a) ∷ m) = let rest = get key m in if eqb k key then some a else rest

abbrev pub contains_key {ℓ} : {A : Type ℓ} → String → List (String × A) → Bool
contains_key key [] = false
contains_key key ((k, a) ∷ m) = eqb k key || contains_key key m

-- `IndexMap::insert`: an entry that is there keeps its place.
unfoldable pub insert {ℓ} : {A : Type ℓ} → String → A → List (String × A) → List (String × A)
insert key a [] = (key, a) ∷ []
insert key a ((k, b) ∷ m) =
    let rest = insert key a m in if eqb k key then (k, a) ∷ m else (k, b) ∷ rest

unfoldable pub shift_remove {ℓ} : {A : Type ℓ} → String → List (String × A) → List (String × A)
shift_remove key [] = []
shift_remove key ((k, b) ∷ m) =
    let rest = shift_remove key m in if eqb k key then m else (k, b) ∷ rest

pub record AuthorizedUser : Type 0 where
  pub user_id : String
  pub roles : List String

abbrev pub has_role : String → List String → Bool
has_role role = any (λ r. eqb r role)

-- `server::Error`, for the handlers of this model.
pub data HttpError : Type 0 where
  dao : Error → HttpError
  bad_request : HttpError
  not_found : HttpError
  forbidden : HttpError
  settings : HttpError

abbrev pub status : HttpError → ℕ
status (dao e) = 500
status bad_request = 400
status not_found = 404
status forbidden = 403
status settings = 500

pub data Reply (A : Type 0) : Type 0 where
  accepted : A → Reply A
  refused : HttpError → Reply A

pub record UserDto : Type 0 where
  pub user_id : String
  pub roles : List String

abbrev pub Users : Type 0 → Type 0
Users Hash = List (String × UserEntry Hash)

abbrev pub make_user_entry : {Hash : Type 0} → Hash → List String → UserEntry Hash
make_user_entry p [] = simple p
make_user_entry p (r ∷ rs) = extended p (r ∷ rs)

unfoldable pub list_users : {Hash : Type 0} → Users Hash → List UserDto
list_users [] = []
list_users ((id, entry) ∷ m) = record { user_id = id; roles = roles entry } ∷ list_users m

pub data AdminRequest : Type 0 where
  post_user : String → String → List String → AdminRequest
  put_user : String → Option String → List String → AdminRequest
  delete_user : String → AdminRequest

-- `update_settings`, which fails where it cannot read or write the settings file.
abbrev pub saved :
    {Hash : Type 0} → Bool → Users Hash → Users Hash → Reply (List UserDto) × Users Hash
saved true stored changed = (accepted (list_users changed), changed)
saved false stored changed = (refused settings, stored)

-- `hash` is `HashedPassword::try_from`, none where the hasher fails. `cached` are the users of the
-- settings that the module holds in memory, `stored` those of the settings file, which
-- `update_settings` reads again, and `saves` is whether it can read and write that file.
module _ {Hash : Type 0} (hash : String → Option Hash) (saves : Bool) (cached : Users Hash) where
  abbrev pub insert_hashed :
      String → List String → Option Hash → Users Hash → Reply (List UserDto) × Users Hash
  insert_hashed user_id rs none stored = (refused settings, stored)
  insert_hashed user_id rs (some h) stored =
      saved saves stored (insert user_id (make_user_entry h rs) stored)

  abbrev pub new_hash : Option String → Hash → Option Hash
  new_hash none kept = some kept
  new_hash (some p) kept = if eqb p "" then some kept else hash p

  abbrev pub put_found :
      String
      → Option String
      → List String
      → Option (UserEntry Hash)
      → Users Hash
      → Reply (List UserDto) × Users Hash
  put_found user_id p rs none stored = (refused not_found, stored)
  put_found user_id p rs (some existing) stored =
      insert_hashed user_id rs (new_hash p (password existing)) stored

  abbrev pub as_owner :
      AuthorizedUser → AdminRequest → Users Hash → Reply (List UserDto) × Users Hash
  as_owner user (post_user user_id p rs) stored =
      if eqb user_id ""
      then (refused bad_request, stored)
      else if contains_key user_id cached
      then (refused bad_request, stored)
      else insert_hashed user_id rs (hash p) stored
  as_owner user (put_user user_id p rs) stored = put_found user_id p rs (get user_id cached) stored
  as_owner user (delete_user user_id) stored =
      if eqb user_id user.user_id
      then (refused bad_request, stored)
      else saved saves stored (shift_remove user_id stored)

  -- The three handlers, behind `require_owner`.
  unfoldable pub administer :
      AuthorizedUser → AdminRequest → Users Hash → Reply (List UserDto) × Users Hash
  administer user request stored =
      if has_role "owner" user.roles
      then as_owner user request stored
      else (refused forbidden, stored)
