-- ===== src/Cli.antt =====
-- Artifact resolution of python/dfine/cli.py: which engine a command uses.
pub mod Cache
pub mod Resolve
pub mod Choice
pub mod Identity
mod Tests
