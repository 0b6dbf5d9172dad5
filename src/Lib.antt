-- ===== src/Lib.antt =====
-- The browser model of Zorya: windows, tabs, session history and the state that is saved for them.
--
-- The program is a desktop browser. Its model of what the user sees is `BrowserApp` in src/app.rs: a
-- map of windows and the counters of identifiers. A window holds tabs in order, the active one, a
-- request to activate another one and the address bar; a tab holds its session history and the
-- navigation that is pending. The platform layer sends commands to `BrowserApp`, hands the Web
-- content over from tab to tab, and has the committed pages recorded in the history of the profile,
-- which is saved to disk in the background. History and bookmarks are kept as generations: each save
-- writes a new file, and a load takes the newest that is whole.
--
-- Parts and files:
--   Navigation    src/navigation.rs, `TabNavigation`: back, forward, reload, commits, failures.
--                 Navigation/Shape has the invariant, Navigation/Session the abstract session (pages
--                 behind, page shown, pages ahead), Navigation/Traverse the moves on it.
--   AddressBar    src/chrome.rs, `AddressBarState`.
--   Activation    src/tab_activation.rs, the request to activate a tab.
--   Window        `BrowserWindow` of src/app.rs; Window/Shape has the invariant, Window/Close,
--                 Window/Order and Window/Cycle are about closing, moving and cycling tabs.
--   App           `BrowserApp` of src/app.rs: App/Tabs and App/Navigate hold the commands, App/Shape
--                 the invariant, App/Safe, App/Activate, App/Browse and App/Commit each command's
--                 proof, and App/Command all commands as steps.
--   Handoff       src/presentation_handoff.rs, `TabPresentationHandoff`: whose Web content is on
--                 screen while the privileged chrome goes from tab to tab.
--   TabClose      src/tab_close.rs: closing the active tab in two steps, over App and Handoff.
--                 TabClose/Begin is about the first step, TabClose/Commit and TabClose/Last about
--                 the second one, and TabClose/Protocol about both, with the handoff between them.
--   Commands      src/commands.rs: the dispatch of the browser's commands to the active tab.
--   Snapshots     what the shell draws of a window: `chrome_snapshot` of src/chrome.rs and
--                 `tab_strip_snapshot` of src/tab_strip.rs.
--   Authority     src/engine_authority.rs and what it reads of `EngineHost` of src/engine.rs: the
--                 source of a committed document. Authority/Policy is src/network_target_policy.rs.
--   Async         src/async_lifecycle.rs: request identifiers and the request a tab waits for.
--   Record        the bytes of a record: words, checksum and `RecordCursor`, which src/bookmarks.rs and
--                 src/browsing_history.rs both have. Record/Reads reads a read backwards.
--   Bookmarks     src/bookmarks.rs: Bookmarks/Edit holds the methods of the snapshot, Bookmarks/Encode
--                 and Bookmarks/Decode the byte format; Bookmarks/Stored hands it to the store.
--   Store         `BookmarksStore` of src/bookmarks.rs over an interface for the record,
--                 Store/Codec: Store/Directory discovers generations, Store/Load and Store/Save are
--                 `load` and `save`, Store/Names the names of the files. `BrowsingHistoryStore` is the same code.
--   History       src/browsing_history.rs, `BrowsingHistorySnapshot`; History/Encode, History/Decode
--                 and History/Stored are as for the bookmarks.
--   Saving        src/profile_runtime.rs, the methods of `ProfileRuntime` on the browsing history.
--   Scheduler     src/profile_history_scheduler.rs, `ProfileHistorySaveScheduler`.
--   Common        lists, words, outcomes and maps that the parts share.
--   Tests         the theorems at concrete inputs.
--
-- Conventions: a name of the model is the name in the source, in lower case for variants. An
-- identifier is its number, and a string is the list of its UTF-8 bytes. A `&mut self` method that
-- cannot fail returns its result beside the new state. One that can is a `Call`: its outcome is a
-- value, an error or a panic, with the state that was reached; `?`, `ok_or`, `expect` and
-- `debug_assert!` are steps of its `do` block, so what an error leaves behind is what the source
-- leaves behind. 64-bit counters keep their `checked_add` and `saturating_add`. The maps of windows
-- are association lists. There is no fuel: the loops of these parts are iterator methods, and they
-- are structural recursion on lists or on the number of rounds.
--
-- The store's directory is a list of entries in the order in which it is read; a generation's file
-- stands there under its number, which its name spells out. What the system calls of a load or a save
-- return, and what other writers do to the directory between its steps, are arguments; a
-- failure while a directory is read is one at its beginning. The root path of a
-- profile is compared byte by byte; other paths, and the messages of an error of input and output, are
-- left out. `str::from_utf8` is written out.
--
-- The calls of Rarog, the Web engine that is another repository's, are the fields of a record that
-- Authority takes; of its origins a theorem assumes that their `==` is exact.
--
-- Not modelled: the messages of `Display`; the native platform, the Web engine and its threads; the
-- registration of privileged requests and their transport; the profile catalog, locks, paths and metadata; the store
-- of settings and sessions, and the opening of a store; the schedulers of bookmarks, settings and
-- sessions, which have the code of the modelled one under other names. Of the profile runtime, only
-- what concerns the browsing history.
pub mod Common
pub mod Navigation
pub mod AddressBar
pub mod Activation
pub mod Window
pub mod App
pub mod Handoff
pub mod Async
pub mod Record
pub mod Store
pub mod Bookmarks
pub mod History
pub mod Saving
pub mod Scheduler
pub mod TabClose
pub mod Commands
pub mod Snapshots
pub mod Authority
pub mod Tests
