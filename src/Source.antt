-- ===== src/Source.antt =====
-- core/src/db/datasource.rs: the files that the local data source hands to its clients, as the
-- `File` of core/src/api.rs.
pub mod Tags
pub mod Files
use mathlib.Core.Option
use read_flow.Prelude.{
  ℕ, ◌==◌, String, Bool, true, false, not, Option, none, some, List, [], ◌∷◌, map, any, retain, eqb,
  if◌then◌else◌,
}
use read_flow.Db.Tables.{ℤ, Db, ContentTag, FileRow, File}
use read_flow.Db.Contents.{
  select_all_files, select_file_by_guid, select_content_tags_by_fingerprint,
}

pub data ReadingStatus : Type 0 where
  unread reading read : ReadingStatus

pub record ApiFile : Type 0 where
  pub guid : String
  pub path : String
  pub type_ : String
  pub size : ℤ
  pub fingerprint : String
  pub tags : List String
  pub status : ReadingStatus
  pub document_guid : Option String
  pub has_cover : Bool
  pub archive_path : Option String
  pub archive_inner_path : Option String
  pub imported_at : String

unfoldable pub status_from : ℕ → ReadingStatus
status_from n = if n == 1 then reading else if n == 2 then read else unread

-- `From<(DbFile, Vec<ContentTag>)>`.
unfoldable pub api_file : File → List ContentTag → ApiFile
api_file file tags = record {
  guid = file.guid;
  path = file.path;
  type_ = file.type_;
  size = file.size;
  fingerprint = file.fingerprint;
  tags = map (λ (t : ContentTag). t.tag) tags;
  status = status_from file.status;
  document_guid = file.document_guid;
  has_cover = false;
  archive_path = file.archive_path;
  archive_inner_path = file.archive_inner_path;
  imported_at = file.imported_at;
}

abbrev pub cover_exists : String → List String → Bool
cover_exists fingerprint covers = any (λ fp. eqb fp fingerprint) covers

abbrev pub tagged : File → List ContentTag → List String → ApiFile
tagged file tags covers = record (api_file file tags) {
  has_cover = cover_exists file.fingerprint covers;
}

-- The `map` over the files, which takes the entry of a fingerprint out of `tags_by_fp`; the map is
-- the list of all tags that are still in it.
unfoldable pub hand_out : List ContentTag → List String → List File → List ApiFile
hand_out tags_by_fp covers [] = []
hand_out tags_by_fp covers (file ∷ files) =
    tagged file (retain (λ t. eqb t.fingerprint file.fingerprint) tags_by_fp) covers
    ∷ hand_out (retain (λ t. not (eqb t.fingerprint file.fingerprint)) tags_by_fp) covers files

unfoldable pub get_files : String → Db → List ApiFile
get_files user_id db = hand_out db.content_tags db.covers (select_all_files user_id db)

unfoldable pub get_file : String → String → Db → Option ApiFile
get_file user_id guid db =
    Option.map
      (λ (file : File).
        tagged file (select_content_tags_by_fingerprint file.fingerprint db) db.covers)
      (select_file_by_guid user_id guid db)
