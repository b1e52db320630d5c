-- ===== src/Machine.antt =====
-- The machine with its picture and sound units: gameboy/src/gameboy.cpp.
pub mod Units
pub mod Run
pub mod Frames
pub mod ObjectTransfer
pub mod Screen
mod Requests
pub mod Moves
pub mod Program
pub mod Dark
