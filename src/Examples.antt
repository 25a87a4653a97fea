-- ===== src/Examples.antt =====
-- The programs of examples/ that do more than call the crate and print.
pub mod ShowMidi
pub mod Sine
pub mod PlaybackCapture
pub mod SetTransport
pub mod ShowTransport
