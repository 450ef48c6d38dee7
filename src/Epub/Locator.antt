-- ===== src/Epub/Locator.antt =====
-- epub/src/domain/locator.rs: a reading position, written as an `rf://` address and as an EPUB CFI.
pub mod Uri
pub mod Cfi
pub mod Addresses
pub mod Fragments
