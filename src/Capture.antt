-- ===== src/Capture.antt =====
-- The pixels of a window: internal/app/capture_options.go, internal/app/observation.go, and
-- `captureWithOptions` of internal/app/desktop.go. The outputs of hyprctl and of grim and the
-- replies of the guard are arguments, and so are the image decoder and the resampling of pixels.
pub mod Options
pub mod Grab
pub mod Observe
pub mod Unlocked
pub mod Released
pub mod Inside
pub mod Examples
