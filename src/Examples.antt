-- ===== src/Examples.antt =====
-- Tests of the definitions and instances of the theorems, at small scripts, states and sessions.
pub mod Scene
pub mod Listings
pub mod Answers
pub mod Sessions
mod Dialogues
mod Chunks
mod Patterns
mod FloatingBytes
mod Startups
mod Checked
mod Streams
pub mod Mains
mod Whole
mod Received
