-- ===== src/Typing.antt =====
-- The typing game of apps/typing.
pub mod Linklist
pub mod Keyboard
pub mod Game
pub mod Main
mod Tests
