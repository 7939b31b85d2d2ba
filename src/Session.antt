-- ===== src/Session.antt =====
-- src/wstangoproc_common/WSTangoConn.cpp, with the parts of WSThread.cpp and WSThread_plain.cpp that
-- use its settings and open its sessions.
pub mod Options
pub mod Settings
pub mod Users
pub mod Access
pub mod Calm
