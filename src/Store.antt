-- ===== src/Store.antt =====
-- The generations of a record in a directory: `BookmarksStore` of src/bookmarks.rs, with
-- `BrowsingHistoryStore` of src/browsing_history.rs its twin. The record's codec is a parameter.
pub mod Directory
pub mod Codec
pub mod Names
pub mod Load
pub mod Discovery
pub mod Newest
pub mod Save
pub mod Keeps
pub mod Files
pub mod Published
pub mod Reload
pub mod Returns
