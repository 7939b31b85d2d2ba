-- ===== src/StringProc.antt =====
-- src/wstangoproc_common/StringProc.cpp: the texts that go out, the cutting of texts and the precision
-- options.
pub mod Response
pub mod Split
pub mod Precision
pub mod OneLine
