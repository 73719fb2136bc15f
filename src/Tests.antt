-- ===== src/Tests.antt =====
-- Concrete inputs, and each theorem with conditions at one of them.
mod Data
mod Values
mod Records
mod LogFiles
mod Service
mod Jobs
mod Polls
mod Names
mod Formats
mod Pools
mod Startup
mod Install
mod Serving
mod Whole
mod Sending
mod Commands
mod Agree
