-- ===== src/Nsg.antt =====
-- parser/event_record.go: records of a network security group, and their CEF events.
pub mod Record
pub mod Names
pub mod Flow
pub mod Events
pub mod Instance
