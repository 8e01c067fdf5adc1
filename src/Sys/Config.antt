-- ===== src/Sys/Config.antt =====
-- src/sys/config.c: the names of the configuration entries (Entry), the evaluation of one value
-- (Eval), and the files /etc/cnode/node.cfg and /etc/cnode/.uuidauth (File, Read), and the
-- values by entry (Value, Write).
pub mod Entry
pub mod Eval
pub mod File
pub mod Read
pub mod Value
pub mod Write
mod Tests
