-- ===== src/Db/Documents/Keys.antt =====
-- The keys of `documents`: ids and guids name a row each.
use read_flow.Prelude.{
  ℕ, ◌==◌, String, false, not, Option, none, some, List, [], ◌∷◌, All, All-retain, retain, find,
  eqb, if◌then◌else◌, ◌≡◌, refl, arith,
}
use mathlib.Core.Option
use read_flow.Db.Tables.{Document}
use read_flow.Db.Contents.{guid_of}

-- The two UNIQUE constraints of the table.
abbrev pub AreKeyed : List Document → Type 0
AreKeyed [] = Unit
AreKeyed (d ∷ ds) =
    All (λ e. ((e.id == d.id) ≡ false) × (eqb e.guid d.guid ≡ false)) ds × AreKeyed ds

abbrev pub id_of : String → List Document → Option ℕ
id_of guid documents =
    Option.map (λ (d : Document). d.id) (find (λ (d : Document). eqb d.guid guid) documents)

abbrev pub without : ℕ → List Document → List Document
without id = retain (λ d. not (d.id == id))

pub AreKeyed-without : (id : ℕ) (ds : List Document) → AreKeyed ds → AreKeyed (without id ds)
AreKeyed-without id [] k = tt
AreKeyed-without id (d ∷ ds) k = ground (
  arith,
  AreKeyed-without id ds k.1,
  All-retain (λ e. ((e.id == d.id) ≡ false) × (eqb e.guid d.guid ≡ false)) (λ e. not (e.id == id))
      ds k.0,
)

pub guid_of-without :
    (id i : ℕ) (ds : List Document)
    → guid_of i (without id ds) ≡ (if i == id then none else guid_of i ds)
guid_of-without id i [] = ground arith
guid_of-without id i (d ∷ ds) = ground (arith, guid_of-without id i ds)

absent_id :
    (i : ℕ) (g : String) (ds : List Document)
    → All (λ e. ((e.id == i) ≡ false) × (eqb e.guid g ≡ false)) ds
    → guid_of i ds ≡ none
absent_id i g [] a = refl
absent_id i g (d ∷ ds) a = ground (arith, absent_id i g ds a.1)

absent_guid :
    (i : ℕ) (g : String) (ds : List Document)
    → All (λ e. ((e.id == i) ≡ false) × (eqb e.guid g ≡ false)) ds
    → id_of g ds ≡ none
absent_guid i g [] a = refl
absent_guid i g (d ∷ ds) a = ground (arith, absent_guid i g ds a.1)

-- The two keys say the same.
pub guid_of-id_of :
    (i : ℕ) (g : String) (ds : List Document)
    → AreKeyed ds
    → id_of g ds ≡ some i
    → guid_of i ds ≡ some g
guid_of-id_of i g [] k h = cc
guid_of-id_of i g (d ∷ ds) k h =
    ground (arith, guid_of-id_of i g ds k.1, absent_id d.id d.guid ds k.0)

pub id_of-guid_of :
    (i : ℕ) (g : String) (ds : List Document)
    → AreKeyed ds
    → guid_of i ds ≡ some g
    → id_of g ds ≡ some i
id_of-guid_of i g [] k h = cc
id_of-guid_of i g (d ∷ ds) k h =
    ground (arith, id_of-guid_of i g ds k.1, absent_guid d.id d.guid ds k.0)
