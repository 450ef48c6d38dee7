-- ===== src/Online/Titles.antt =====
-- core/src/online_library/mod.rs: the file name that a title is downloaded under.
use read_flow.Chars.{cons_head, split-join, Lacks, codes, join, is_empty, lower, split, Chars}
use read_flow.Prelude.{
  ap₂, ℕ, ◌==◌, Bool, true, false, not, List, [], ◌∷◌, ◌++◌, All, All-append, retain, ◌⊎◌, inl, inr,
  if◌then◌else◌, ◌≡◌, ◌≢◌, refl, ap, ◌∙◌, arith, Bool-cases,
}

module _ (is_alphanumeric : ℕ → Bool) where
  abbrev pub slug_char : ℕ → ℕ
  slug_char c = if is_alphanumeric c then lower c else b'-'

  unfoldable pub slug : Chars → Chars
  slug [] = []
  slug (c ∷ s) = slug_char c ∷ slug s

  abbrev pub or_book : List Chars → Chars
  or_book [] = codes "book"
  or_book (p ∷ ps) = join b'-' (p ∷ ps)

  -- `sanitize_title`.
  unfoldable pub sanitize_title : Chars → Chars
  unfolding slug split join
  sanitize_title title = or_book (retain (λ p. not (is_empty p)) (split b'-' (slug title)))

-- What `char::is_alphanumeric` documents of ASCII, as far as it matters: hyphens, slashes and dots are
-- not alphanumeric, letters are.
pub record Alphabet (is_alphanumeric : ℕ → Bool) : Type 0 where
  pub no_hyphen : is_alphanumeric b'-' ≡ false
  pub no_slash : is_alphanumeric b'/' ≡ false
  pub no_dot : is_alphanumeric b'.' ≡ false
  pub lowered : (c : ℕ) → is_alphanumeric c ≡ true → is_alphanumeric (lower c) ≡ true
  pub book_letters : All (λ c. is_alphanumeric c ≡ true) (codes "book")

module _ (is_alphanumeric : ℕ → Bool) (alphabet : Alphabet is_alphanumeric) where
  -- A character that lower-casing leaves alone.
  abbrev Settled : ℕ → Type 0
  Settled c = (is_alphanumeric c ≡ true) × (lower c ≡ c)

  -- A nonempty word of such characters.
  abbrev IsWord : Chars → Type 0
  IsWord p = (is_empty p ≡ false) × All Settled p

  lower_twice : (c : ℕ) → lower (lower c) ≡ lower c
  lower_twice c = ground arith

  hyphen_differs : (c : ℕ) → is_alphanumeric c ≡ true → c ≢ b'-'
  hyphen_differs c letter e = absurd (cc (alphabet.no_hyphen, letter, ap is_alphanumeric e))

  abbrev Slugged : ℕ → Type 0
  Slugged c = Settled c ⊎ (c ≡ b'-')

  slug_char-Slugged : (c : ℕ) → Slugged (slug_char is_alphanumeric c)
  slug_char-Slugged c = elim (Bool-cases (is_alphanumeric c)) [
    | inl letter ↦ rw letter (inl (alphabet.lowered c letter, lower_twice c))
    | inr other ↦ rw other (inr refl)
  ]

  slug-Slugged : (s : Chars) → All Slugged (slug is_alphanumeric s)
  unfolding slug
  slug-Slugged [] = tt
  slug-Slugged (c ∷ s) = (slug_char-Slugged c, slug-Slugged s)

  cons_head-Settled :
      (c : ℕ) (ps : List Chars)
      → Settled c
      → All (All Settled) ps
      → All (All Settled) (cons_head c ps)
  cons_head-Settled c [] settled all_ = ((settled, tt), tt)
  cons_head-Settled c (p ∷ ps) settled all_ = ((settled, all_.0), all_.1)

  split-words : (s : Chars) → All Slugged s → All (All Settled) (split b'-' s)
  unfolding split
  split-words [] slugged = (tt, tt)
  split-words (c ∷ s) (inl settled, slugged) =
      let apart : (c == b'-') ≡ false = ground (arith, hyphen_differs c settled.0) in
      rw apart (cons_head-Settled c (split b'-' s) settled (split-words s slugged))
  split-words (c ∷ s) (inr hyphen, slugged) =
      let same : (c == b'-') ≡ true = ground (arith, hyphen) in rw same (tt, split-words s slugged)

  words_only :
      (ps : List Chars) → All (All Settled) ps → All IsWord (retain (λ p. not (is_empty p)) ps)
  words_only [] settled = tt
  words_only ([] ∷ ps) settled = words_only ps settled.1
  words_only ((c ∷ p) ∷ ps) settled = ((refl, settled.0), words_only ps settled.1)

  slug-word : (p : Chars) → All Settled p → slug is_alphanumeric p ≡ p
  unfolding slug
  slug-word [] settled = refl
  slug-word (c ∷ p) settled =
      ap₂ (λ d r. d ∷ r) (rw settled.0.0 settled.0.1) (slug-word p settled.1)

  slug-append_hyphen :
      (p s : Chars)
      → All Settled p
      → slug is_alphanumeric (p ++ b'-' ∷ s) ≡ p ++ b'-' ∷ slug is_alphanumeric s
  unfolding slug
  slug-append_hyphen [] s settled = rw alphabet.no_hyphen refl
  slug-append_hyphen (c ∷ p) s settled =
      ap₂ (λ d r. d ∷ r) (rw settled.0.0 settled.0.1) (slug-append_hyphen p s settled.1)

  slug-join :
      (p : Chars) (ps : List Chars)
      → All IsWord (p ∷ ps)
      → slug is_alphanumeric (join b'-' (p ∷ ps)) ≡ join b'-' (p ∷ ps)
  unfolding join
  slug-join p [] words = slug-word p words.0.1
  slug-join p (q ∷ ps) words =
      slug-append_hyphen p (join b'-' (q ∷ ps)) words.0.1
      ∙ ap (λ r. p ++ b'-' ∷ r) (slug-join q ps words.1)

  Settled-Lacks : (p : Chars) → All Settled p → Lacks b'-' p
  Settled-Lacks [] settled = tt
  Settled-Lacks (c ∷ p) settled = (hyphen_differs c settled.0.0, Settled-Lacks p settled.1)

  IsWord-Lacks : (ps : List Chars) → All IsWord ps → All (Lacks b'-') ps
  IsWord-Lacks [] words = tt
  IsWord-Lacks (p ∷ ps) words = (Settled-Lacks p words.0.1, IsWord-Lacks ps words.1)

  all_words : (ps : List Chars) → All IsWord ps → retain (λ p. not (is_empty p)) ps ≡ ps
  all_words [] words = refl
  all_words (p ∷ ps) words = rw words.0.0 (ap (λ qs. p ∷ qs) (all_words ps words.1))

  -- Words joined by hyphens are a file name already.
  join-kept :
      (p : Chars) (ps : List Chars)
      → All IsWord (p ∷ ps)
      → sanitize_title is_alphanumeric (join b'-' (p ∷ ps)) ≡ join b'-' (p ∷ ps)
  unfolding sanitize_title
  join-kept p ps words =
      ap (λ s. or_book is_alphanumeric (retain (λ q. not (is_empty q)) (split b'-' s)))
        (slug-join p ps words)
      ∙ ap (λ qs. or_book is_alphanumeric (retain (λ q. not (is_empty q)) qs))
          (split-join b'-' p ps (IsWord-Lacks (p ∷ ps) words))
      ∙ ap (or_book is_alphanumeric) (all_words (p ∷ ps) words)

  book-IsWord : IsWord (codes "book")
  book-IsWord =
      let b = alphabet.book_letters in
      (refl, ((b.0, refl), ((b.1.0, refl), ((b.1.1.0, refl), ((b.1.1.1.0, refl), tt)))))

  or_book-kept :
      (ps : List Chars)
      → All IsWord ps
      → sanitize_title is_alphanumeric (or_book is_alphanumeric ps) ≡ or_book is_alphanumeric ps
  unfolding join
  or_book-kept [] words = join-kept (codes "book") [] (book-IsWord, tt)
  or_book-kept (p ∷ ps) words = join-kept p ps words

  abbrev pub Allowed : ℕ → Type 0
  Allowed c = (is_alphanumeric c ≡ true) ⊎ (c ≡ b'-')

  Settled-Allowed : (p : Chars) → All Settled p → All Allowed p
  Settled-Allowed [] settled = tt
  Settled-Allowed (c ∷ p) settled = (inl settled.0.0, Settled-Allowed p settled.1)

  join-Allowed :
      (p : Chars) (ps : List Chars)
      → All IsWord (p ∷ ps)
      → (is_empty (join b'-' (p ∷ ps)) ≡ false) × All Allowed (join b'-' (p ∷ ps))
  unfolding join
  join-Allowed (c ∷ p) [] words = (refl, Settled-Allowed (c ∷ p) words.0.1)
  join-Allowed [] [] words = absurd (cc words.0.0)
  join-Allowed [] (q ∷ ps) words = absurd (cc words.0.0)
  join-Allowed (c ∷ p) (q ∷ ps) words = (
    refl,
    All-append Allowed (c ∷ p) (b'-' ∷ join b'-' (q ∷ ps)) (Settled-Allowed (c ∷ p) words.0.1)
        (inr refl, (join-Allowed q ps words.1).1),
  )

  or_book-Allowed :
      (ps : List Chars)
      → All IsWord ps
      → (is_empty (or_book is_alphanumeric ps) ≡ false) × All Allowed (or_book is_alphanumeric ps)
  or_book-Allowed [] words = (refl, Settled-Allowed (codes "book") book-IsWord.1)
  or_book-Allowed (p ∷ ps) words = join-Allowed p ps words

  Allowed-Lacks :
      (x : ℕ) (s : Chars)
      → is_alphanumeric x ≡ false
      → (x == b'-') ≡ false
      → All Allowed s
      → Lacks x s
  Allowed-Lacks x [] other differs allowed = tt
  Allowed-Lacks x (c ∷ s) other differs (inl letter, allowed) = (
    (λ e. absurd (cc (letter, other, ap is_alphanumeric e))),
    Allowed-Lacks x s other differs allowed,
  )
  Allowed-Lacks x (c ∷ s) other differs (inr hyphen, allowed) =
      ((λ e. absurd (ground (arith, hyphen, e))), Allowed-Lacks x s other differs allowed)

  -- The file name of any title is not empty, has only alphanumeric characters and hyphens, has no
  -- slash and no dot, and is its own file name.
  pub sanitize_title-settled :
      (title : Chars)
      → (is_empty (sanitize_title is_alphanumeric title) ≡ false)
        × All Allowed (sanitize_title is_alphanumeric title)
        × Lacks b'/' (sanitize_title is_alphanumeric title)
        × Lacks b'.' (sanitize_title is_alphanumeric title)
        × (sanitize_title is_alphanumeric (sanitize_title is_alphanumeric title)
            ≡ sanitize_title is_alphanumeric title)
  unfolding sanitize_title
  sanitize_title-settled title =
      let found = retain (λ p. not (is_empty p)) (split b'-' (slug is_alphanumeric title)) in
      let words =
        words_only (split b'-' (slug is_alphanumeric title))
          (split-words (slug is_alphanumeric title) (slug-Slugged title)) in
      let fine = or_book-Allowed found words in
      let name = or_book is_alphanumeric found in
      (
        fine.0,
        fine.1,
        Allowed-Lacks b'/' name alphabet.no_slash refl fine.1,
        Allowed-Lacks b'.' name alphabet.no_dot refl fine.1,
        or_book-kept found words,
      )
