-- ===== src/Reports.antt =====
-- The reports of the evaluation scripts: trt-files/scripts/evaluation_report.py.
pub mod Atomic
pub mod Published
mod Tests
