-- ===== src/Lib.antt =====
-- Verification of Read Flow, a reader's library of documents: the database layer of its core,
-- its scanner, its catalogs of online books, the authentication and access rules of its server,
-- the reading positions of
-- its EPUB library, its cached providers, and the page navigation of its desktop application.
--
-- The program keeps a SQLite store. A scan writes a file row and a content row per fingerprint
-- (core/src/db/dao/files.rs, tags.rs); contents that are the same work in several formats share a
-- document with one row of metadata (documents.rs); each user has a reading state per content
-- (reading_state.rs); and every change that a user makes is an operation of the activity history,
-- with numbered events and their targets (audit.rs, over the types of core/src/audit). An HTTP
-- server lets users with a password or a token at the store, and hides content with private tags
-- from all but owners who ask for it (core/src/server). Positions in a book are written as texts
-- (epub/src/domain/locator.rs). The desktop application shows the documents in pages
-- (cosmic/src/component/pagination.rs).
--
-- Prelude, with Tests, Lists and Text below it, has the Boolean tests, the list operations and the
--   texts that the parts share.
-- Audit is core/src/audit: types of events, operations, outcomes, actors and channels, and the
--   status machine.
-- Db.Tables has the tables of core/migrations as lists of rows, with the row types of
--   core/src/db/models.rs; Db.Result the errors of core/src/db/dao/mod.rs; Db.Monad the statements:
--   a function of the store to a result and the store after it. A transaction that does not commit,
--   because a statement failed or because the block returned early, gives back the store it began
--   with, as sqlx does when a transaction is dropped.
-- Db.Audit is audit.rs: create_audit_operation, append_audit_event, finish_audit_operation(_on_
--   connection) and interrupt_stale_operations under their names; Codec has its texts.
-- Db.Contents is tags.rs and files.rs, up to write_scanned_file.
-- Db.Metadata and Db.Documents are documents.rs: the metadata rows and their merge, and
--   merge_documents_impl, which merge_documents and merge_documents_with_audit call; its loop over
--   the losers is merge_losers, the body for a loser that exists is absorb. Db.Removal is
--   delete_content_from_document of the same file.
-- Db.Reading is reading_state.rs.
-- Source is get_files and get_file of core/src/db/datasource.rs; Source.Files is update_file,
--   get_file_tags, add_file_tags_with_audit and delete_file_tags_with_audit of the same file.
-- Server is core/src/server. Limiter is BasicAuthLimiter of authn.rs, with the log of all failures
--   that its queue stands for in Limiter.Log and Limiter.Stands; Authn is
--   AuthorizedUser::from_request_parts, one function for each match of the code, and Tokens is
--   token.rs with oauth_token of mod.rs; Access is access.rs; Users is the user administration of
--   mod.rs (`administer` is post_user, put_user and delete_user behind require_owner), and Handlers
--   are the handlers for a file and its tags (`handle`), which use Access and Source.
-- Chars has the operations on texts, as lists of code points, that Epub and Server use.
-- Epub.Locator is Locator of epub/src/domain/locator.rs, with to_uri and from_uri in Uri, to_cfi
--   and from_cfi in Cfi; Epub.Decimal has u32's to_string and parse; Epub.Resolve is
--   epub/src/content/resolve.rs.
-- Pagination is the component of that name, its `update`, also as a debug build runs it
--   (`checked_update`), and what the buttons of its `view` send; Reach has the states that it gets
--   into by them, by the keys of page/document_list.rs, and by what page/online_library.rs writes.
-- Db.Linking is ensure_document_for_fingerprint and auto_link_documents of documents.rs, and
--   upsert_cover of covers.rs. Its Links, Rows and Sound are about one content, the files and
--   the references,
--   Groups, Lookup, Apart and Twins about the map of groups, Places about the directory and the stem
--   in a path, and Shared and Pass about the whole pass.
-- Scan is core/src/scan. Scan itself is mod.rs: the settings that a directory inherits, and the
--   summary that folds the events of a scan. Archive is archive.rs; Walk is the first stage of
--   scanner.rs, stage1_traversal with visit_dir (visit_node and visit_entries) and
--   emit_archive_members, over a tree of what the system calls answer; Writer is its third stage:
--   `collect` is the two loops of stage3_writer, flush_items the loop of flush_batch_with_audit;
--   Enrich is enrich_file. The second stage hashes files side by side, so the files arrive at the
--   third in any order: its input is a list of arrivals and timeouts.
-- Paths is what Scan and Db.Linking use of std::path.
-- Online is core/src/online_library/mod.rs: merge_gutenberg_editions, whose loop is merge_loop, with
--   Online.Slots and Online.Editions; percent_encode and build_search_url in Online.Encoding;
--   sanitize_title in Online.Titles.
-- Provider is provider/src/sync: the combinators, Cache and ExpiringItemCache; Provider.Threads has
--   threads that share a Cache, as steps between which others may come.
-- Tests has concrete runs.
--
-- Foreign keys, unique constraints and their actions are those of the migrations: a violation is an
-- error of the statement, ON DELETE CASCADE and SET NULL are part of the deletion. The clock and
-- fresh guids are arguments. serde_json on lists of authors is the record AuthorsJson, and the
-- outcome of tokio::fs::remove_file at a path an argument. The base64 decoder, the check of a
-- password against its hash, the hasher and the signing and checking of tokens are arguments of the
-- server's functions, and so are the times at which the code reads the clock. A `u32` wraps round
-- in to_cfi as in a release build. Every loop is over a list; only the digits of a number n are
-- written with fuel, n + 1, which is enough since each digit divides by ten. A percentage is a
-- natural number of units of 2^-1074, which holds every finite nonnegative
-- double exactly; a size and a `usize` wrap round where the program casts or adds.
--
-- The scanner's channels are lists: the receiver of the first stage takes a number of items and
-- is then
-- dropped. The members that an archive's reader yields, the failure of a connection's begin or
-- commit,
-- the texts of errors and the extracted metadata are arguments, and so are the order in which a map
-- yields its groups and Rust's is_alphanumeric.
--
-- Not modelled: failures of the database itself other than those (a full disk) and two connections
-- that write at once, so the enrichments of a batch come one after another; symbolic links that
-- form a
-- cycle, which the system ends; the selects for the API; the server's handlers for documents,
-- deletion, upload, reading states and settings, its routes and TLS; two requests that pass the
-- limiter at once; the parsing of EPUB files and of catalog feeds; hashing, the readers of
-- archives and
-- the extractors; the clients, the observers of the provider library and its asynchronous half, and
-- the rest of the desktop application, whose work is mostly I/O and layout.
pub mod Prelude
pub mod Audit
pub mod Db
pub mod Source
pub mod Pagination
pub mod Chars
pub mod Paths
pub mod Epub
pub mod Server
pub mod Provider
pub mod Online
pub mod Scan
pub mod Tests
