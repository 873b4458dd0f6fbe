-- ===== src/Chain.antt =====
-- Comparison of ordered accuracy reports under one protocol: trt-files/scripts/accuracy_chain.py.
pub mod Require
pub mod Model
pub mod Lineage
pub mod Valid
pub mod Accepted
pub mod Checked
pub mod GroundTruth
pub mod Protocol
pub mod Metrics
pub mod Compare
pub mod Transition
pub mod Decode
pub mod Dictionary
pub mod Decoded
pub mod Select
pub mod Numbers
pub mod Rows
pub mod Extracted
pub mod Counted
pub mod Consistent
pub mod Opposite
pub mod Linked
pub mod Run
pub mod Ran
mod Data
mod Tests
mod Runs
pub mod Justified
pub mod Verified
pub mod Report
