-- ===== src/Tsh.antt =====
-- The shell of ASSN/ASSN5/tsh.c: its job list, its command line parser and its handlers.
pub mod Jobs
pub mod Slots
pub mod JobMap
pub mod Deletion
pub mod Jids
pub mod Parse
pub mod CommandLine
pub mod Handlers
pub mod Shell
pub mod Main
pub mod Signals
pub mod Foreground
pub mod Resume
pub mod Waiting
pub mod NoCrash
pub mod Prompt
pub mod ReadLoop
pub mod Session
pub mod Errors
mod SessionTests
mod Tests
