-- ===== src/Epub.antt =====
-- epub/src: reading positions and hrefs. A text is the list of its code points.
pub mod Decimal
pub mod Locator
pub mod Resolve
