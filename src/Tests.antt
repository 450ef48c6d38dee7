-- ===== src/Tests.antt =====
-- Concrete runs, and the theorems at concrete inputs.
mod Store
mod Documents
mod History
mod Reading
mod Pages
mod Files
mod Scan
mod Walk
mod Writer
mod Linking
mod Removal
mod Source
mod Epub
mod Server
mod Handlers
mod Provider
mod Online
