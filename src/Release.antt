-- ===== src/Release.antt =====
-- Staging and verification of release assets: trt-files/scripts/release_assets.py.
pub mod Names
pub mod Manifest
pub mod Download
pub mod Wheel
pub mod Facts
pub mod Sidecar
pub mod Onnx
pub mod Assemble
pub mod Printed
pub mod Sorted
pub mod Assembled
pub mod Entries
pub mod Verified
mod Tests
pub mod Recorded
