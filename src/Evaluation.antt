-- ===== src/Evaluation.antt =====
-- Preconditions that the evaluation scripts share: trt-files/scripts/eval_contract.py.
pub mod Contract
mod Tests
pub mod Produced
pub mod Agreement
pub mod Arguments
pub mod Resolution
pub mod Checks
pub mod Outputs
