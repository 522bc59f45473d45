-- ===== src/Examples.antt =====
-- Runs of the models and of their theorems on concrete inputs.
pub mod Frames
pub mod Engine
pub mod Rings
pub mod Pins
pub mod Host
pub mod Machines
pub mod Buses
pub mod Chips
pub mod Console
pub mod OneShot
