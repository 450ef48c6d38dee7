-- ===== src/Tests/Online.antt =====
-- Three editions of one book in a list, a query and a title.
use mathlib.Core.Option.{join}
use read_flow.Online.Editions.{merge_gutenberg_editions-merged, merged_from}
use read_flow.Online.Titles.{slug, sanitize_title-settled, Allowed, sanitize_title, Alphabet}
use read_flow.Online.Encoding.{
  replace_all, percent_decode-percent_encode, percent_encode, percent_decode, build_search_url,
}
use read_flow.Chars.{
  Lacks, same_text, split, split_once, codes, lower, is_empty, strip_prefix, Chars,
}
use read_flow.Online.{
  merge_loop, index_of, merge_book_into, strip_gutenberg_edition_note, erase, gutenberg_base_id,
  html_to_plain_text, split_spaces, outside_tags, DownloadFormat, OnlineBook,
  merge_gutenberg_editions,
}
use mathlib.Core.Option
use read_flow.Prelude.{
  ℕ, true, false, some, none, List, [], ◌∷◌, ◌&&◌, ◌||◌, All, Bool, map, leb, ◌≡◌, refl, arith,
}

program : Unit {0}
unfolding Option.bind strip_prefix split_once split join same_text outside_tags split_spaces
    html_to_plain_text gutenberg_base_id erase strip_gutenberg_edition_note merge_book_into index_of
    merge_loop merge_gutenberg_editions percent_encode percent_decode replace_all build_search_url
    slug sanitize_title
program = tt

abbrev format : Chars → DownloadFormat
format href = record { mime_type = codes "application/epub+zip"; href = href; label = codes "EPUB" }

abbrev book : Chars → Chars → OnlineBook
book id href = record {
  id = id;
  title = codes "Moby Dick";
  subtitle = none;
  authors = [];
  contributors = [];
  summary = some (codes "This edition has images. A whale.");
  summary_html = none;
  language = none;
  publisher = none;
  identifier = none;
  published = none;
  rights = none;
  subject = none;
  cover_url = none;
  formats = format href ∷ [];
  catalog_name = codes "Project Gutenberg";
}

abbrev listed : List OnlineBook
listed = merge_gutenberg_editions (
    book (codes "urn:gutenberg:2701:2") (codes "a")
    ∷ book (codes "x") (codes "b")
    ∷ book (codes "urn:gutenberg:2701:3") (codes "c")
    ∷ [])

merged-ids : map (λ (b : OnlineBook). b.id) listed ≡ codes "urn:gutenberg:2701" ∷ codes "x" ∷ []
unfolding program
merged-ids = refl

merged-formats :
    map (λ (b : OnlineBook). map (λ (f : DownloadFormat). f.href) b.formats) listed
    ≡ (codes "a" ∷ codes "c" ∷ []) ∷ (codes "b" ∷ []) ∷ []
unfolding program
merged-formats = refl

merged-summaries :
    map (λ (b : OnlineBook). b.summary) listed
    ≡ some (codes "A whale.") ∷ some (codes "This edition has images. A whale.") ∷ []
unfolding program
merged-summaries = refl

merge_gutenberg_editions-merged_example :
    merge_gutenberg_editions (book (codes "urn:gutenberg:2701:2") (codes "a") ∷ [])
    ≡ merged_from [] (book (codes "urn:gutenberg:2701:2") (codes "a") ∷ [])
merge_gutenberg_editions-merged_example =
    merge_gutenberg_editions-merged (book (codes "urn:gutenberg:2701:2") (codes "a") ∷ [])

search :
    build_search_url (λ _ _. none) (codes "http://x/?q={searchTerms}&n=1") (codes "a &b")
    ≡ some (codes "http://x/?q=a%20%26b&n=1")
unfolding program
search = refl

percent_decode-percent_encode_example :
    percent_decode (percent_encode (195 ∷ 169 ∷ 32 ∷ [])) ≡ some (195 ∷ 169 ∷ 32 ∷ [])
percent_decode-percent_encode_example =
    percent_decode-percent_encode (195 ∷ 169 ∷ 32 ∷ [])
      (omega arith, (omega arith, (omega arith, tt)))

-- The letters and digits of ASCII.
abbrev is_alphanumeric : ℕ → Bool
is_alphanumeric c =
    (leb b'A' c && leb c b'Z') || ((leb b'a' c && leb c b'z') || (leb b'0' c && leb c b'9'))

lower-kept : (c : ℕ) → is_alphanumeric c ≡ true → is_alphanumeric (lower c) ≡ true
lower-kept c letter = ground (arith, letter)

abbrev alphabet : Alphabet is_alphanumeric
alphabet = record {
  no_hyphen = refl;
  no_slash = refl;
  no_dot = refl;
  lowered = lower-kept;
  book_letters = (refl, (refl, (refl, (refl, tt))));
}

whale :
    sanitize_title is_alphanumeric (codes "Moby Dick; Or, The Whale")
    ≡ codes "moby-dick-or-the-whale"
unfolding program
whale = refl

sanitize_title-settled_example :
    (is_empty (sanitize_title is_alphanumeric (codes "A. b/?")) ≡ false)
    × All (Allowed is_alphanumeric alphabet) (sanitize_title is_alphanumeric (codes "A. b/?"))
    × Lacks b'/' (sanitize_title is_alphanumeric (codes "A. b/?"))
    × Lacks b'.' (sanitize_title is_alphanumeric (codes "A. b/?"))
    × (sanitize_title is_alphanumeric (sanitize_title is_alphanumeric (codes "A. b/?"))
        ≡ sanitize_title is_alphanumeric (codes "A. b/?"))
sanitize_title-settled_example = sanitize_title-settled is_alphanumeric alphabet (codes "A. b/?")
