-- ===== src/Tests/Store.antt =====
-- A small store: two documents with a content each, and their metadata.
use read_flow.Prelude.{ℕ, String, Option, none, some, List, [], ◌∷◌, eqb, if◌then◌else◌}
use read_flow.Audit.{AuditActor, AuditActorKind, AuditChannel, AuditContext}
use read_flow.Db.Tables.{Db, Document, Content, DocumentUserMetadata}
use read_flow.Db.Metadata.{AuthorsJson}
use read_flow.Db.Documents.{Times}

abbrev pub times : Times
times = record { started_at = "t1"; occurred_at = "t2"; completed_at = "t3"; updated_at = "t4" }

abbrev pub actor : AuditActor
actor = record { kind = AuditActorKind.system; id = none }

abbrev pub context : AuditContext
context = record { operation_id = "op"; actor = actor; channel = AuditChannel.cli }

-- Lists of one and of two authors, as they occur here.
abbrev pub write_authors : List String → Option String
write_authors [] = some "[]"
write_authors (a ∷ []) = some (if eqb a "Austen" then "[Austen]" else "[Shelley]")
write_authors (a ∷ b ∷ authors) = some "[Shelley,Austen]"

abbrev pub read_authors : String → Option (List String)
read_authors text =
    if eqb text "[Shelley]"
    then some ("Shelley" ∷ [])
    else if eqb text "[Austen]"
    then some ("Austen" ∷ [])
    else if eqb text "[Shelley,Austen]"
    then some ("Shelley" ∷ "Austen" ∷ [])
    else none

abbrev pub json : AuthorsJson
json = record { to_string = write_authors; from_str = read_authors }

abbrev pub blank : String → ℕ → DocumentUserMetadata
blank now id = record {
  document_id = id;
  document_type = none;
  title = none;
  subtitle = none;
  authors = none;
  description = none;
  language = none;
  publisher = none;
  identifier = none;
  date = none;
  subject = none;
  updated_at = now;
  selected_cover_fingerprint = none;
}

abbrev pub winner_row : DocumentUserMetadata
winner_row = record (blank "t0" 1) { title = some "Emma"; authors = some "[Shelley]" }

abbrev pub loser_row : DocumentUserMetadata
loser_row = record (blank "t0" 2) {
  title = some "emma.epub";
  authors = some "[Austen]";
  selected_cover_fingerprint = some "b";
}

abbrev pub one : Document
one = record { id = 1; guid = "g1" }

abbrev pub two : Document
two = record { id = 2; guid = "g2" }

abbrev pub content : String → Option ℕ → Content
content fingerprint id = record { fingerprint = fingerprint; document_id = id }

abbrev pub store : Db
store = record {
  documents = one ∷ two ∷ [];
  next_document = 3;
  contents = content "a" (some 1) ∷ content "b" (some 2) ∷ [];
  content_tags = [];
  files = [];
  next_file = 1;
  metadata = winner_row ∷ loser_row ∷ [];
  reading_state = [];
  covers = "b" ∷ [];
  operations = [];
  events = [];
  next_event = 1;
  targets = [];
}
