-- ===== src/Events.antt =====
-- src/wstangoproc_cli/EventProcCli.h and EventProcCli.cpp: the subscriptions of the clients to the
-- events of Tango devices, in the client build. A connection is a number. `Tango` is what the code
-- asks of the Tango library; `m_eventproc_lock` makes each operation one step.
pub mod State
pub mod Reply
pub mod Subscribe
pub mod Unsubscribe
pub mod Requests
pub mod Clients
pub mod Isolation
pub mod Subscriptions
pub mod Departure
