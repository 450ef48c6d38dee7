-- ===== src/Db/Linking/Pass.antt =====
-- What the pass of documents.rs after a scan does, by the places of files in their directories.
use read_flow.Chars.{Chars, same_text}
use read_flow.Db.Linking.{FileForLinking, key_of, files_for_linking}
use read_flow.Db.Linking.Links.{holding}
use read_flow.Db.Tables.{Db, Content, FileRow}
use read_flow.Prelude.{ℕ, String, Bool, false, not, ◌&&◌, some, List, any, eqb, All, ◌⊎◌, ◌≡◌, ◌≢◌}

abbrev same_place : Chars × Chars → Chars × Chars → Bool
same_place a b = same_text a.0 b.0 && same_text a.1 b.1

module _ (place : String → Chars × Chars) where
  -- No content lies at two places.
  abbrev pub AreOnce : List FileRow → Type 0
  AreOnce files =
      All
        (λ f.
          All (λ g. (eqb f.fingerprint g.fingerprint ≡ false) ⊎ (place f.path ≡ place g.path))
            files)
        files

  -- A file with the content, and one with another content at its place.
  abbrev pub twins : String → String → String → String → String → Bool
  twins fp p f q g = eqb f fp && (not (eqb g fp) && same_place (place p) (place q))

  abbrev pub has_twin : String → List FileRow → Bool
  has_twin fp files =
      any (λ f. any (λ g. twins fp f.path f.fingerprint g.path g.fingerprint) files) files

  -- Two files at different places, of one content, or of contents of one document.
  abbrev pub AreTogether : List Content → String → String → String → String → Type 0
  AreTogether cs p f q g =
      (place p ≢ place q)
      ⊎ (f ≡ g)
      ⊎ ((id : ℕ) × (holding f cs ≡ some (some id)) × (holding g cs ≡ some (some id)))

  abbrev IsPlaced : FileForLinking → Type 0
  IsPlaced r = key_of r ≡ place r.path

  -- A relation between all files of the rows, from one between all places and fingerprints.
  module _ (R : String → String → String → String → Type 0)
      (S : FileForLinking → FileForLinking → Type 0) (cs : List Content) (fs : List FileRow) where
    abbrev rows : List FileForLinking
    rows = files_for_linking cs fs
