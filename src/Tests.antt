-- ===== src/Tests.antt =====
-- Runs of the definitions at inputs that can be followed in the source, and each theorem at an
-- input where its hypotheses hold.
pub mod Strings
pub mod Shared
pub mod Server
pub mod Requests
pub mod Parsed
pub mod Threads
pub mod Files
pub mod Helpers
pub mod Sockets
