-- ===== src/Builder.antt =====
-- The checks of trt-files/scripts/build_engine.py around a TensorRT build: the batch profile and
-- what the built engine says of it, the graph policy, and the paths of the artifacts.
pub mod Profile
pub mod Options
pub mod Engine
pub mod Paths
pub mod Plan
pub mod Layout
mod Tests
