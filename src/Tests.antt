-- ===== src/Tests.antt =====
-- Runs at concrete inputs: a device AuthDS that knows the user `ann`, a Tango control system that
-- counts its subscriptions, and a property tree of texts and entries.
mod Auth
mod Messages
mod Subscribing
mod Serving
mod Waiting
mod Group
