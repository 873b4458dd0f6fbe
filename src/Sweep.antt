-- ===== src/Sweep.antt =====
-- trt-files/scripts/preset_sweep.py: the operating points of a sweep, the specifications they are
-- read from, the keys that share work between them, and the runner of the steps.
pub mod Point
pub mod Parse
pub mod Options
pub mod Parts
pub mod Keys
pub mod Points
pub mod Select
pub mod Runner
pub mod Build
pub mod Export
pub mod Accounts
pub mod Builds
pub mod Once
pub mod Progress
pub mod Returns
pub mod Evaluate
pub mod Chosen
pub mod Evaluated
pub mod Chains
mod Tests
mod Trials
