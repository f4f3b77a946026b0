-- ===== src/Tui.antt =====
-- userinterfaces/tui: text fields, the file browser, and the form that locks a file.
pub mod TextField
pub mod Editing
pub mod Cursor
pub mod Browser
pub mod BrowserState
pub mod Sorting
pub mod Browsing
pub mod FormNavigation
pub mod LockFileForm
pub mod LockFileKeys
pub mod LockFileInvariant
