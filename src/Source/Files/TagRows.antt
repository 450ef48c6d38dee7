-- ===== src/Source/Files/TagRows.antt =====
-- How the statements on `content_tags` change which content has which tag.
use read_flow.Db.Monad.{OnOk-map, OnOk-continue, OnOk, for_each}
use read_flow.Db.Tables.{Db, ContentTag}
use read_flow.Db.Contents.{
  upsert_many_content_tags, has_content, upsert_content_tag, is_tag, delete_content_tags,
}
use read_flow.Prelude.{
  any-append, ◌||◌, sym, ap₂, eqb_refl, eqb→eq, ◌∙◌, Bool-cases, arith, ◌&&◌, not, ◌≡◌, retain, any,
  eqb, List, Bool, String, [], ◌∷◌, refl, true, false, inl, inr,
}
use read_flow.Db.Result.{ok}

-- The content has the tag.
abbrev pub tagged_with : String → String → List ContentTag → Bool
tagged_with fingerprint tag = any (is_tag fingerprint tag)

any-retain :
    {A : Type 0} (q p : A → Bool) (l : List A)
    → ((a : A) → q a ≡ true → p a ≡ true)
    → any q (retain p l) ≡ any q l
any-retain q p [] keeps = refl
any-retain q p (a ∷ l) keeps = ground (arith, keeps a, any-retain q p l keeps)

any-retain-not :
    {A : Type 0} (q : A → Bool) (l : List A) → any q (retain (λ a. not (q a)) l) ≡ false
any-retain-not q [] = refl
any-retain-not q (a ∷ l) = ground (arith, any-retain-not q l)

pub eqb_sym : (s t : String) → eqb s t ≡ eqb t s
eqb_sym s t = ground (arith, eqb→eq s t, eqb→eq t s, eqb_refl s, eqb_refl t)

-- A row that bears both tags of contents shows that they are the same.
same_tag :
    (f g x y : String) (t : ContentTag)
    → is_tag f x t ≡ true
    → is_tag g y t ≡ true
    → (eqb g f && eqb x y) ≡ true
same_tag f g x y t one two = ground (
  arith,
  one,
  two,
  eqb→eq t.fingerprint f,
  eqb→eq t.fingerprint g,
  eqb→eq t.tag x,
  eqb→eq t.tag y,
  eqb_refl f,
  eqb_refl x,
)

unfoldable pub drop_tags : String → List String → List ContentTag → List ContentTag
drop_tags f [] l = l
drop_tags f (x ∷ xs) l = drop_tags f xs (retain (λ t. not (is_tag f x t)) l)

drop_one :
    (f x g tag : String) (l : List ContentTag)
    → tagged_with g tag (retain (λ t. not (is_tag f x t)) l)
      ≡ (tagged_with g tag l && not (eqb g f && eqb x tag))
drop_one f x g tag l = elim (Bool-cases (eqb g f && eqb x tag)) [
  | inl same ↦
      ap₂ (λ h y. tagged_with h y (retain (λ t. not (is_tag f x t)) l))
        (eqb→eq g f (ground (arith, same))) (sym (eqb→eq x tag (ground (arith, same))))
      ∙ any-retain-not (is_tag f x) l
      ∙ ground (arith, same)
  | inr differ ↦
      any-retain (is_tag g tag) (λ t. not (is_tag f x t)) l (λ t is. stays t is differ)
      ∙ ground (arith, differ)
]
  where
    stays :
        (t : ContentTag)
        → is_tag g tag t ≡ true
        → (eqb g f && eqb x tag) ≡ false
        → not (is_tag f x t) ≡ true
    stays t is differ = elim (Bool-cases (is_tag f x t)) [
      | inl dropped ↦ cc (same_tag f g x tag t dropped is, differ)
      | inr kept ↦ rw kept refl
    ]

pub delete_content_tags-drop :
    (f : String) (xs : List String) (db : Db)
    → delete_content_tags f xs db
      ≡ (ok tt, record db { content_tags = drop_tags f xs db.content_tags })
unfolding delete_content_tags for_each drop_tags
delete_content_tags-drop f [] db = refl
delete_content_tags-drop f (x ∷ xs) db =
    delete_content_tags-drop f xs
      (record db { content_tags = retain (λ t. not (is_tag f x t)) db.content_tags })

pub drop_tags-tagged :
    (f : String) (xs : List String) (g tag : String) (l : List ContentTag)
    → tagged_with g tag (drop_tags f xs l)
      ≡ (tagged_with g tag l && not (eqb g f && any (λ x. eqb x tag) xs))
unfolding drop_tags
drop_tags-tagged f [] g tag l = ground arith
drop_tags-tagged f (x ∷ xs) g tag l =
    drop_tags-tagged f xs g tag (retain (λ t. not (is_tag f x t)) l)
    ∙ ground (arith, drop_one f x g tag l)

there_already :
    (t : ContentTag) (g tag : String) (l : List ContentTag)
    → any (is_tag t.fingerprint t.tag) l ≡ true
    → tagged_with g tag l ≡ (tagged_with g tag l || is_tag g tag t)
there_already t g tag l there = elim (Bool-cases (is_tag g tag t)) [
  | inl is ↦
      let known : tagged_with g tag l ≡ true =
        ap₂ (λ h y. tagged_with h y l) (sym (eqb→eq t.fingerprint g (ground (arith, is))))
          (sym (eqb→eq t.tag tag (ground (arith, is))))
        ∙ there in
      ground (arith, known)
  | inr no_match ↦ ground (arith, no_match)
]

add_one :
    (t : ContentTag) (db : Db) (g tag : String)
    → OnOk
        (λ d.
          tagged_with g tag d.content_tags ≡ (tagged_with g tag db.content_tags || is_tag g tag t))
        (upsert_content_tag t db)
unfolding upsert_content_tag
add_one t db g tag = elim (Bool-cases (any (is_tag t.fingerprint t.tag) db.content_tags)) [
  | inl there ↦ rw there (there_already t g tag db.content_tags there)
  | inr fresh ↦ rw fresh (elim (Bool-cases (has_content t.fingerprint db.contents)) [
    | inl known ↦ rw known (any-append (is_tag g tag) db.content_tags (t ∷ []) ∙ ground arith)
    | inr unknown ↦ rw unknown tt
  ])
]

pub add_all :
    (ts : List ContentTag) (db : Db) (g tag : String)
    → OnOk
        (λ d.
          tagged_with g tag d.content_tags
          ≡ (tagged_with g tag db.content_tags || any (is_tag g tag) ts))
        (upsert_many_content_tags ts db)
unfolding upsert_many_content_tags for_each
add_all [] db g tag = ground arith
add_all (t ∷ ts) db g tag =
    OnOk-continue
      (λ d.
        tagged_with g tag d.content_tags ≡ (tagged_with g tag db.content_tags || is_tag g tag t))
      (λ d.
        tagged_with g tag d.content_tags
        ≡ (tagged_with g tag db.content_tags || (is_tag g tag t || any (is_tag g tag) ts)))
      (upsert_content_tag t db) (λ u. upsert_many_content_tags ts) (add_one t db g tag)
      (λ u d added.
        OnOk-map
          (λ e.
            tagged_with g tag e.content_tags
            ≡ (tagged_with g tag d.content_tags || any (is_tag g tag) ts))
          (λ e.
            tagged_with g tag e.content_tags
            ≡ (tagged_with g tag db.content_tags || (is_tag g tag t || any (is_tag g tag) ts)))
          (upsert_many_content_tags ts d) (λ e more. ground (arith, more, added))
          (add_all ts d g tag))
