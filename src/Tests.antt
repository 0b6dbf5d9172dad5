-- ===== src/Tests.antt =====
-- The theorems at concrete inputs, one module for each part of the program.
mod Browser
mod Tabs
mod Closing
mod History
mod Saves
mod Bookmarks
mod Authority
