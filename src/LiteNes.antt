-- ===== src/LiteNes.antt =====
-- The NES emulator of apps/litenes: the bit operations, the joystick port, the picture unit's
-- registers, the cartridge, the memory map, and the 6502 processor.
pub mod Bits
pub mod Psg
mod Tests
pub mod Ppu
pub mod Mmc
pub mod Rom
pub mod Machine
pub mod Memory
pub mod Addressing
pub mod Cpu
pub mod Video
