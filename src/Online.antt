-- ===== src/Online.antt =====
-- core/src/online_library/mod.rs: the books that a catalog lists, the merging of Project Gutenberg's
-- editions, and the texts that become URLs and file names. A text is its list of code points; the
-- bytes of a query are a list too. `is_alphanumeric` is that of Rust's characters.

pub mod Slots
pub mod Editions
pub mod Encoding
pub mod Titles
use read_flow.Chars.{join, split_once, codes, cons_head, is_empty, strip_prefix, same_text, Chars}
use mathlib.Core.List.{reverse}
use mathlib.Core.Option
use read_flow.Prelude.{
  ℕ, zero, suc, ◌+◌, ◌-◌, ◌/◌, ◌%◌, ◌==◌, leb, String, Bool, true, false, not, ◌&&◌, ◌||◌, Option,
  none, some, List, [], ◌∷◌, ◌++◌, length, retain, all, any, map, if◌then◌else◌,
}

pub record DownloadFormat : Type 0 where
  pub mime_type : Chars
  pub href : Chars
  pub label : Chars

pub record OnlineBook : Type 0 where
  pub id : Chars
  pub title : Chars
  pub subtitle : Option Chars
  pub authors : List Chars
  pub contributors : List Chars
  pub summary : Option Chars
  pub summary_html : Option Chars
  pub language : Option Chars
  pub publisher : Option Chars
  pub identifier : Option Chars
  pub published : Option Chars
  pub rights : Option Chars
  pub subject : Option Chars
  pub cover_url : Option Chars
  pub formats : List DownloadFormat
  pub catalog_name : Chars

-- `char::is_whitespace`.
abbrev pub is_whitespace : ℕ → Bool
is_whitespace c =
    (leb 9 c && leb c 13)
    || (c == 32
        || (c == 0x85
            || (c == 0xA0
                || (c == 0x1680
                    || ((leb 0x2000 c && leb c 0x200A)
                        || (c == 0x2028
                            || (c == 0x2029 || (c == 0x202F || (c == 0x205F || c == 0x3000)))))))))

abbrev pub push_unless : Bool → ℕ → Chars → Chars
push_unless true c s = s
push_unless false c s = c ∷ s

-- The loop of `html_to_plain_text`.
unfoldable pub outside_tags : Bool → Chars → Chars
outside_tags in_tag [] = []
outside_tags in_tag (c ∷ s) =
    let opened = outside_tags true s in
    let closed = outside_tags false s in
    let kept = push_unless in_tag c (outside_tags in_tag s) in
    if c == b'<' then opened else if c == b'>' then closed else kept

unfoldable pub split_spaces : Chars → List Chars
split_spaces [] = [] ∷ []
split_spaces (c ∷ s) =
    let rest = split_spaces s in if is_whitespace c then [] ∷ rest else cons_head c rest

-- `out.split_whitespace().collect().join(" ")`.
unfoldable pub html_to_plain_text : Chars → Chars
unfolding outside_tags split_spaces join
html_to_plain_text html =
    join b' ' (retain (λ w. not (is_empty w)) (split_spaces (outside_tags false html)))

abbrev pub is_digits : Chars → Bool
is_digits s = not (is_empty s) && all (λ c. leb b'0' c && leb c b'9') s

abbrev pub base_of_parts : Chars × Chars → Option Chars
base_of_parts (book, variant) =
    if is_digits book && is_digits variant then some (codes "urn:gutenberg:" ++ book) else none

-- `gutenberg_base_id`.
unfoldable pub gutenberg_base_id : Chars → Option Chars
unfolding strip_prefix split_once
gutenberg_base_id id =
    Option.bind (strip_prefix (codes "urn:gutenberg:") id)
      (λ rest. Option.bind (split_once (codes ":") rest) base_of_parts)

-- `s.replace(pattern, "")`; `skip` counts the characters left of an occurrence.
unfoldable pub erase : Chars → ℕ → Chars → Chars
unfolding strip_prefix
erase pattern skip [] = []
erase pattern (suc k) (c ∷ s) = erase pattern k s
erase pattern zero (c ∷ s) = elim (strip_prefix pattern (c ∷ s)) [
  | some _ ↦ erase pattern (length pattern - 1) s
  | none ↦ c ∷ erase pattern zero s
]

abbrev pub drop_spaces : Chars → Chars
drop_spaces [] = []
drop_spaces (c ∷ s) = if is_whitespace c then drop_spaces s else c ∷ s

-- `trim`.
abbrev pub trim : Chars → Chars
trim s = reverse (drop_spaces (reverse (drop_spaces s)))

abbrev pub edition_notes : List Chars
edition_notes = codes "This edition had all images removed." ∷ codes "This edition has images." ∷ []

abbrev pub erase_all : List Chars → Chars → Chars
erase_all [] text = text
erase_all (n ∷ notes) text = erase_all notes (erase n zero text)

abbrev pub in_paragraph : Chars → Chars
in_paragraph note = codes "<p>" ++ (note ++ codes "</p>")

abbrev pub kept_if : (Chars → Bool) → Chars → Option Chars
kept_if p s = if p s then some s else none

unfoldable pub strip_gutenberg_edition_note : OnlineBook → OnlineBook
unfolding erase html_to_plain_text
strip_gutenberg_edition_note book = record book {
  summary =
      Option.bind book.summary
        (λ s. kept_if (λ t. not (is_empty t)) (trim (erase_all edition_notes s)));
  summary_html = Option.bind book.summary_html (λ s.
      kept_if (λ t. not (is_empty (html_to_plain_text t)))
        (trim (erase_all (map in_paragraph edition_notes) s)));
}

-- `a.take().or(b)`.
abbrev pub or_else : Option Chars → Option Chars → Option Chars
or_else none b = b
or_else (some a) b = some a

abbrev pub or_all : List Chars → List Chars → List Chars
or_all [] b = b
or_all (a ∷ as_) b = a ∷ as_

abbrev pub knows : List DownloadFormat → DownloadFormat → Bool
knows formats f = any (λ g. same_text g.href f.href) formats

unfoldable pub merge_book_into : OnlineBook → OnlineBook → OnlineBook
unfolding same_text
merge_book_into target other = record target {
  formats = target.formats ++ retain (λ f. not (knows target.formats f)) other.formats;
  subtitle = or_else target.subtitle other.subtitle;
  summary = or_else target.summary other.summary;
  summary_html = or_else target.summary_html other.summary_html;
  language = or_else target.language other.language;
  publisher = or_else target.publisher other.publisher;
  identifier = or_else target.identifier other.identifier;
  published = or_else target.published other.published;
  rights = or_else target.rights other.rights;
  subject = or_else target.subject other.subject;
  cover_url = or_else target.cover_url other.cover_url;
  authors = or_all target.authors other.authors;
  contributors = or_all target.contributors other.contributors;
}

-- `merged[i]` under a change; an index out of range does not occur.
abbrev pub modify {ℓ} : {A : Type ℓ} → ℕ → (A → A) → List A → List A
modify i f [] = []
modify zero f (x ∷ xs) = f x ∷ xs
modify (suc i) f (x ∷ xs) = x ∷ modify i f xs

-- `index_by_base.get`.
unfoldable pub index_of : Chars → List (Chars × ℕ) → Option ℕ
unfolding same_text
index_of base [] = none
index_of base ((k, i) ∷ index) = if same_text k base then some i else index_of base index

abbrev pub opened : Chars → OnlineBook → OnlineBook
opened base book = record (strip_gutenberg_edition_note book) { id = base }

abbrev pub Merging : Type 0
Merging = List OnlineBook × List (Chars × ℕ)

abbrev pub place : OnlineBook → Chars → Option ℕ → Merging → Merging
place book base (some i) (merged, index) =
    (modify i (λ b. merge_book_into b (strip_gutenberg_edition_note book)) merged, index)
place book base none (merged, index) =
    (merged ++ opened base book ∷ [], (base, length merged) ∷ index)

abbrev pub merge_step : OnlineBook → Option Chars → Merging → Merging
merge_step book none (merged, index) = (merged ++ book ∷ [], index)
merge_step book (some base) (merged, index) = place book base (index_of base index) (merged, index)

-- The loop of `merge_gutenberg_editions`.
unfoldable pub merge_loop : List OnlineBook → Merging → List OnlineBook
unfolding gutenberg_base_id index_of merge_book_into strip_gutenberg_edition_note
merge_loop [] (merged, index) = merged
merge_loop (b ∷ bs) m = merge_loop bs (merge_step b (gutenberg_base_id b.id) m)

unfoldable pub merge_gutenberg_editions : List OnlineBook → List OnlineBook
unfolding merge_loop
merge_gutenberg_editions books = merge_loop books ([], [])
