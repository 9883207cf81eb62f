-- ===== src/Kernel.antt =====
-- The kernel, clks/: one module to a component.
pub mod Pmm
pub mod Scheduler
pub mod Heap
pub mod Strings
pub mod Path
pub mod Ramdisk
pub mod Fs
pub mod Service
pub mod Keyboard
pub mod Elf
pub mod Exec
