-- ===== src/Keyboard.antt =====
-- The keyboard driver (drivers/keyboard): the state that the interrupt handler and the readers share.
pub mod Key
pub mod Tables
pub mod Events
pub mod Driver
pub mod Modifiers
pub mod Queue
pub mod Text
pub mod Start
pub mod Exchange
pub mod Started
mod Tests
