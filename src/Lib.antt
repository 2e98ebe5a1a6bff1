-- ===== src/Lib.antt =====
-- FurOS64: a small 64-bit kernel that is started by an EFI loader.
--
-- The loader (efi/src/EFI_STUB.c) asks the firmware for pages and for its memory map with
-- `GetMemoryMap`, builds the page tables with `MMap` and `MakeTempRegion`, over `GetTable`, leaves
-- arguments and jumps to the kernel (src/main.c). The kernel starts the framebuffer driver
-- (src/Drivers/vga.c), the terminal that draws on it with the glyphs of src/font_mononoki.c
-- (src/Terminal/stdio.c), and the memory manager (src/MemoryManagment/physical.c), whose `TempMap`
-- writes to the page table that `MakeTempRegion` left in sight. The interrupt table
-- (src/Arch/Interrupts) and the string functions (src/stdlib/string.c) complete it.
--
-- Shared:
--   Prelude     library names, Boolean tests, lists on the native numbers, integers, bit operations
--   Memory      a byte at each address; little-endian loads and stores
--   Command     state-passing commands; a fault is what C leaves undefined, such as an index out of
--               range or a variable that was never set, or a loop that is known not to end; Ensures is total correctness, OrFault is about
--               the calls that return
-- Parts:
--   Efi         status values, and the firmware's AllocatePages as a parameter with the laws of the
--               UEFI specification
--   Paging      efi/src/EFI_STUB.c: get_table is GetTable, mmap is MMap, make_temp_region is
--               MakeTempRegion. Entry, Tree: what the processor reads, and the invariant that the
--               tables form a tree; Link, Descend: one level down; Leaf, Place, Map: the last level;
--               Leads: the upper levels alone; Spares: the other pages in use
--   Loader      efi/src/EFI_STUB.c: map_pages is each loop of efi_main that maps a range of pages,
--               max_address its scan of the memory map
--   Pool        efi/src/EFI_STUB.c: get_memory_map is GetMemoryMap, free_memory_map_descriptor is
--               FreeMemoryMapDescriptor, over the firmware's pool and memory map as parameters.
--               Fields, Pages: what the answers change in memory; Map, Calls: the functions
--   Stub        efi/src/EFI_STUB.c: efi_main is efi_main from the page map (line 405) to the
--               arguments (line 488), over Paging, Loader and Pool. Areas: parts of the address
--               space; Root, Kept, Layout, Main: the areas that it makes; Apart, Exact: where they are;
--               Scan: the scan of the memory map; Overrun: the clearing of the top-level table
--   Load        efi/src/EFI_STUB.c: load is efi_main up to the page map (lines 316 to 403), over the
--               firmware's protocols as parameters. Read: the kernel's file in memory
--   Supply      a firmware that has memory left, as a record of what is asked of it. Tables, Covers:
--               MMap and its loops; Map: the memory map; Stage, Main: efi_main step by step; Handed:
--               what the kernel is handed
--   Handoff     between the loader and the kernel. Args: the arguments in memory, as
--               efi/src/EFI_STUB.c lays them out and stores them, before the page tables are made and
--               after, and as src/main.c reads them; Jump: jump is the end of efi_main; Window:
--               TempMap on the tables of MakeTempRegion
--   EfiMain     efi/src/EFI_STUB.c: run_efi_main is Load and then Stub, without
--               the stores to KernelArgs, and run_with_args has them too. Kernel: the kernel's file, from
--               the disk to the higher half; Seen: what the kernel sees when it is called
--   BootX64     efi/src/main.c: boot_map is the reading of the memory map in its efi_main,
--               reserve_calls the scan that reserves pages for the kernel
--   Names       efi/src/EFI_STUB.c: efi_status_to_str is EFIStatusToStr, efi_mem_type_to_string is
--               EFIMemTypeToString. Back: the texts tell the cases apart
--   Font        src/font_mononoki.c: font_data, a glyph as forty rows, a row as a binary number
--   Vga         src/Drivers/vga.c: init_vga is initVga, print_pixel is PrintPixel
--   Terminal    src/Terminal/stdio.c: init_terminal, print_char, print_num, print_hex, print_string
--               are initTerminal, PrintChar, PrintNum, PrintHex, PrintString; Line: text on one line;
--               Settings, Reach: any calls in any order; Bottom: below the last row
--   Str         src/stdlib/string.c: strlen, strcmp
--   Physical    src/MemoryManagment/physical.c: memcpy, alloc_frame, free_frame, refresh_pages,
--               temp_map, free_temp_map, init_memory_managment are memcpy, AllocFrame, FreeFrame,
--               RefreshPages, TempMap, FreeTempMap, InitMemoryManagment;
--               Sequence: any calls of AllocFrame and FreeFrame
--   Interrupts  src/Arch/Interrupts/idt.c and isr.c: set_idt_gate, load_idt, isr_install,
--               register_interrupt_handler are SetIDTGate, LoadIDT, ISRInstall,
--               RegisterInterruptHandler
--   Boot        src/main.c: kernel, up to its endless loop
--   Tests       the theorems at concrete inputs
--
-- Numbers are natural numbers with the C type's wrap-around written out. An address is a number; the
-- static variables of a file are one record that its functions pass on. The loops that count to a
-- known bound run on that bound. A loop over a range of pages whose counter wraps around, which is one
-- over more than 2^64 - 0x1000 bytes, does not end and is a fault. The top-level table is a pointer to memory: its
-- entries past the page that was allocated for it are the memory behind that page. Fuel: strlen and strcmp end with fuel above the length of the
-- string; the loop of PrintNum has 11 rounds, enough for the 10 digits of 32 bits, and that of
-- PrintHex 17, enough for the 16 digits of 64 bits; the loop of TempMap ends on its first round or
-- on none. The scan of the memory map has a round for each byte of the map and one more: with
-- entries of a size above 0 it ends before, and with entries of size 0 it does not end, which is an
-- ending of efi_main's own.
--
-- Not modelled: the firmware, the vendored gnu-efi, and console output of the loaders; the
-- call of ExitBootServices, whose status is not looked at; the rest of the earlier loader
-- efi/src/main.c, which opens files and starts an image by calls of the firmware, with pointers
-- that were never set; port input and output and other assembly (a reload of CR3 is counted, lidt
-- is the register that it loads, and the loader's end is the registers that it sets); the texts of
-- the exceptions in src/Arch/Interrupts/isr.c, which no code uses; and the empty files of
-- src/Arch/GDT and src/MemoryManagment/virtual.c.
pub mod Prelude
pub mod Memory
pub mod Command
pub mod Efi
pub mod Paging
pub mod Pool
pub mod Loader
pub mod Font
pub mod Vga
pub mod Terminal
pub mod Str
pub mod Physical
pub mod Interrupts
pub mod Boot
pub mod Supply
pub mod Load
pub mod BootX64
pub mod Names
pub mod Stub
pub mod EfiMain
pub mod Handoff
pub mod Tests
