-- ===== src/Interrupts.antt =====
-- src/Arch/Interrupts/idt.c and isr.c: the interrupt descriptor table in memory, the register that
-- `lidt` loads, and the table of handlers. A gate or handler index out of range is a fault.
pub mod Gates
use fur_os.Prelude.{ℕ, ◌+◌, ◌-◌, ◌*◌, ◌/◌, ◌%◌, ◌^◌, ltb, ◌==◌, if◌then◌else◌, Option, none, some}
use fur_os.Command.{ok, fault, Cmd}
use fur_os.Memory.{Memory, store_le}

abbrev pub idt_entries : ℕ
idt_entries = 256

abbrev pub isr_entries : ℕ
isr_entries = 256

-- `sizeof(idt_gate_t)`, a packed structure.
abbrev pub gate_size : ℕ
gate_size = 16

-- The content of an `idt_register_t`.
pub record IdtRegister : Type 0 where
  pub size : ℕ
  pub address : ℕ

-- `interrupt_gate` is the address of the array of gates, `idtr` the processor's register, and a
-- handler is the address of its function, or null.
pub record Interrupts : Type 0 where
  pub memory : Memory
  pub interrupt_gate : ℕ
  pub interrupt_table_reg : IdtRegister
  pub idtr : Option IdtRegister
  pub interrupt_handlers : ℕ → Option ℕ

-- The seven assignments to the fields of the gate at `a`.
unfoldable pub write_gate : ℕ → ℕ → Memory → Memory
write_gate a address m =
    let m1 = store_le 2 m a (address % 2 ^ 16) in
    let m2 = store_le 2 m1 (a + 2) 0x10 in
    let m3 = store_le 1 m2 (a + 4) 0 in
    let m4 = store_le 1 m3 (a + 5) 0x8e in
    let m5 = store_le 2 m4 (a + 6) (address / 2 ^ 16 % 2 ^ 16) in
    let m6 = store_le 4 m5 (a + 8) (address / 2 ^ 32 % 2 ^ 32) in store_le 4 m6 (a + 12) 0

unfoldable pub set_idt_gate : ℕ → ℕ → Cmd Interrupts (Unit {0})
set_idt_gate entry address s =
    if ltb entry idt_entries
    then ok tt
        (record s { memory = write_gate (s.interrupt_gate + gate_size * entry) address s.memory })
    else fault

unfoldable pub load_idt : Interrupts → Interrupts
load_idt s =
    let reg : IdtRegister = record {
      address = s.interrupt_gate;
      size = (idt_entries * gate_size - 1) % 2 ^ 16;
    } in
    record s { interrupt_table_reg = reg; idtr = some reg }

unfoldable pub isr_install : Interrupts → Interrupts
unfolding load_idt
isr_install s = load_idt s

-- `n` is a `uint8_t`.
unfoldable pub register_interrupt_handler : ℕ → ℕ → Cmd Interrupts (Unit {0})
register_interrupt_handler n handler s =
    if ltb (n % 2 ^ 8) isr_entries
    then ok tt (record s {
      interrupt_handlers = λ k. if k == n % 2 ^ 8 then some handler else s.interrupt_handlers k;
    })
    else fault
