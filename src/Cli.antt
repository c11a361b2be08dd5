-- ===== src/Cli.antt =====
-- cmd/drover: the operator's command line, over an inspector's calls. What a command prints is left out; what it
-- does to the store and the code it exits with are kept.
pub mod Globals
pub mod Switches
pub mod Flags
pub mod Commands
pub mod Run
pub mod Acts
pub mod Effects
pub mod Exits
mod Tests
