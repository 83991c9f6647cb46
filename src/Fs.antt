-- ===== src/Fs.antt =====
-- The file system: fs/.
pub mod Pipe
pub mod Tty
pub mod Path
pub mod Ramfs
pub mod Devices
pub mod Elf
