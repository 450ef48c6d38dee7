-- ===== src/Db/Monad.antt =====
-- Statements against a connection: each takes the store to a result and the store after it.
-- Outside a transaction a statement that succeeded stays, also when a later one fails.
use read_flow.Prelude.{◌∙◌, ◌≡◌, refl, List, [], ◌∷◌}
use read_flow.Db.Result.{Error, Result, ok, err}
use read_flow.Db.Tables.{Db}

abbrev pub M : Type 0 → Type 0
M A = Db → Result A × Db

abbrev pub continue : {A B : Type 0} → Result A × Db → (A → M B) → Result B × Db
continue (ok a, db) f = f a db
continue (err e, db) f = (err e, db)

infixl 5 ◌>>=◌ ◌>>◌
abbrev pub ◌>>=◌ : {A B : Type 0} → M A → (A → M B) → M B
◌>>=◌ m f db = continue (m db) f

abbrev pub ◌>>◌ : {B : Type 0} → M (Unit {0}) → M B → M B
◌>>◌ m k db = continue (m db) (λ _. k)

abbrev pub pure : {A : Type 0} → A → M A
pure a db = (ok a, db)

abbrev pub fail : {A : Type 0} → Error → M A
fail e db = (err e, db)

abbrev pub query : {A : Type 0} → (Db → A) → M A
query f db = (ok (f db), db)

abbrev pub execute : (Db → Db) → M (Unit {0})
execute f db = (ok tt, f db)

abbrev pub settle : {A : Type 0} → Result A × Db → Result (Unit {0}) × Db
settle (r, db) = (ok tt, db)

-- `let _ = …`: the error is dropped.
abbrev pub attempt : {A : Type 0} → M A → M (Unit {0})
attempt m db = settle (m db)

-- `for x in xs { body }`.
unfoldable pub for_each : {A : Type 0} → List A → (A → M (Unit {0})) → M (Unit {0})
for_each [] body db = (ok tt, db)
for_each (x ∷ xs) body db = continue (body x db) (λ _. for_each xs body)

-- What a transaction's block ends with: `commit`, or a return that drops the transaction.
pub data Ending (A : Type 0) : Type 0 where
  commit : A → Ending A
  rollback : A → Ending A

abbrev pub conclude : {A : Type 0} → Db → Result (Ending A) × Db → Result A × Db
conclude before (ok (commit a), db) = (ok a, db)
conclude before (ok (rollback a), db) = (ok a, before)
conclude before (err e, db) = (err e, before)

-- `pool.begin()` with the block that uses it: unless it commits, its writes are undone.
abbrev pub transaction : {A : Type 0} → M (Ending A) → M A
transaction body db = conclude db (body db)

pub continue-pure :
    {A : Type 0} (r : Result (Unit {0}) × Db) (x : A)
    → r.0 ≡ ok tt
    → continue r (λ _. pure x) ≡ (ok x, r.1)
continue-pure (ok u, db) x h = refl
continue-pure (err e, db) x h = cc

-- A part of the store that every statement of a block leaves alone.
module _ {C : Type 0} (f : Db → C) where
  pub continue-keeps :
      {A B : Type 0} (r : Result A × Db) (k : A → M B)
      → ((a : A) (db : Db) → f (k a db).1 ≡ f db)
      → f (continue r k).1 ≡ f r.1
  continue-keeps (ok a, db) k keep = keep a db
  continue-keeps (err e, db) k keep = refl

  pub for_each-keeps :
      {A : Type 0} (xs : List A) (body : A → M (Unit {0})) (db : Db)
      → ((x : A) (db : Db) → f (body x db).1 ≡ f db)
      → f (for_each xs body db).1 ≡ f db
  unfolding for_each
  for_each-keeps [] body db keep = refl
  for_each-keeps (x ∷ xs) body db keep =
      continue-keeps (body x db) (λ _. for_each xs body) (λ _ db'. for_each-keeps xs body db' keep)
      ∙ keep x db

-- What holds of the store where a block succeeds.
abbrev pub OnOk : {A : Type 0} → (Db → Type 0) → Result A × Db → Type 0
OnOk P (ok a, db) = P db
OnOk P (err e, db) = Unit

pub OnOk-continue :
    {A B : Type 0} (P Q : Db → Type 0) (r : Result A × Db) (k : A → M B)
    → OnOk P r
    → ((a : A) (db : Db) → P db → OnOk Q (k a db))
    → OnOk Q (continue r k)
OnOk-continue P Q (ok a, db) k p next = next a db p
OnOk-continue P Q (err e, db) k p next = tt

pub OnOk-all : {A : Type 0} (P : Db → Type 0) (r : Result A × Db) → P r.1 → OnOk P r
OnOk-all P (ok a, db) p = p
OnOk-all P (err e, db) p = tt

pub OnOk-ok :
    {A : Type 0} (P : Db → Type 0) (r : Result A × Db) {a : A} → r.0 ≡ ok a → OnOk P r → P r.1
OnOk-ok P (ok a, db) h p = p
OnOk-ok P (err e, db) h p = cc

pub OnOk-map :
    {A : Type 0} (P Q : Db → Type 0) (r : Result A × Db)
    → ((db : Db) → P db → Q db)
    → OnOk P r
    → OnOk Q r
OnOk-map P Q (ok a, db) f p = f db p
OnOk-map P Q (err e, db) f p = tt

-- A block that succeeds, with what its store, or its result and its store, then meet.
abbrev pub Succeeds : {A : Type 0} → (Db → Type 0) → Result A × Db → Type 0
Succeeds P (ok a, db) = P db
Succeeds P (err e, db) = ⊥

abbrev pub Returns : {A : Type 0} → (A → Db → Type 0) → Result A × Db → Type 0
Returns P (ok a, db) = P a db
Returns P (err e, db) = ⊥

pub Succeeds-continue :
    {A B : Type 0} (P Q : Db → Type 0) (r : Result A × Db) (k : A → M B)
    → Succeeds P r
    → ((a : A) (db : Db) → P db → Succeeds Q (k a db))
    → Succeeds Q (continue r k)
Succeeds-continue P Q (ok a, db) k p next = next a db p
Succeeds-continue P Q (err e, db) k p next = absurd p

pub Returns-continue :
    {A B : Type 0} (P : A → Db → Type 0) (Q : Db → Type 0) (r : Result A × Db) (k : A → M B)
    → Returns P r
    → ((a : A) (db : Db) → P a db → Succeeds Q (k a db))
    → Succeeds Q (continue r k)
Returns-continue P Q (ok a, db) k p next = next a db p
Returns-continue P Q (err e, db) k p next = absurd p

pub Returns-pure :
    {A B : Type 0} (f : A → B) (Q : B → Db → Type 0) (r : Result A × Db)
    → Returns (λ a. Q (f a)) r
    → Returns Q (continue r (λ a. pure (f a)))
Returns-pure f Q (ok a, db) p = p
Returns-pure f Q (err e, db) p = p

pub Succeeds-with :
    {A : Type 0} (P Q : Db → Type 0) (r : Result A × Db)
    → Succeeds P r
    → Q r.1
    → Succeeds (λ d. P d × Q d) r
Succeeds-with P Q (ok a, db) p q = (p, q)
Succeeds-with P Q (err e, db) p q = absurd p

pub Succeeds-map :
    {A : Type 0} (P Q : Db → Type 0) (r : Result A × Db)
    → ((db : Db) → P db → Q db)
    → Succeeds P r
    → Succeeds Q r
Succeeds-map P Q (ok a, db) f p = f db p
Succeeds-map P Q (err e, db) f p = absurd p

pub Succeeds-ok :
    (P : Db → Type 0) (r : Result (Unit {0}) × Db) → Succeeds P r → (r.0 ≡ ok tt) × P r.1
Succeeds-ok P (ok tt, db) p = (refl, p)
Succeeds-ok P (err e, db) p = absurd p
