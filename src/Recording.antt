-- ===== src/Recording.antt =====
-- Recordings of a window: `record` of internal/app/desktop.go, and the tools `stop_recording` and
-- `list_recordings` of internal/app/tools.go. The encoder and the files are arguments.
pub mod Start
pub mod Frames
pub mod Safe
pub mod Examples
