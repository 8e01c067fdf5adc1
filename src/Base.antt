-- ===== src/Base.antt =====
-- src/base/cnode.c: the start-up arguments (Args), and the start and the clean-up of the program
-- (Instance).
pub mod Args
pub mod Instance
mod Tests
