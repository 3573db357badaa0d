-- ===== src/Snippet.antt =====
-- internal/server/highlight.go and formats.go: the client configurations that the page shows.
pub mod Highlight
pub mod Visible
pub mod Shown
pub mod JsonShown
pub mod Lines
pub mod Formats
