-- ===== src/Handoff.antt =====
-- What the loader leaves for the kernel: the window of temporary mappings, which the loader builds in
-- efi/src/EFI_STUB.c and src/MemoryManagment/physical.c uses.
pub mod Window
pub mod Args
pub mod Jump
