-- ===== src/Prompt/Invariant.antt =====
-- Invariants of the service: what each method keeps, given what the single writes keep.
pub mod Methods
pub mod Lifecycle
pub mod History
pub mod Numbers
pub mod Numbering
pub mod Bodies
pub mod Activation
