-- ===== src/Boot/Laws.antt =====
-- What holds of every run of the program, and of what it leaves open.
pub mod Process
pub mod Resources
pub mod Program
