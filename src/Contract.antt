-- ===== src/Contract.antt =====
-- shared/script_contract.py: what a script's parameters may be.
pub mod Params
