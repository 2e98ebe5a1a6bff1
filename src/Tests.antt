-- ===== src/Tests.antt =====
-- Concrete runs: the theorems at inputs where their hypotheses hold, and small evaluations.
mod Paging
mod Terminal
mod Kernel
mod Interrupts
mod Strings
mod Boot
mod EfiMain
mod Loader
mod Firmware
mod Pool
mod Stub
mod Supply
mod Load
mod BootX64
mod Handoff
