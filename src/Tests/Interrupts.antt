-- ===== src/Tests/Interrupts.antt =====
-- A table of gates at 0x8000.
use fur_os.Prelude.{ℕ, ◌+◌, ◌/◌, ◌≡◌, ltb, leb, ◌==◌, if◌then◌else◌, none, some, arith}
use fur_os.Command.{ok}
use fur_os.Memory.{load_le}
use fur_os.Interrupts.{Interrupts, IdtRegister, set_idt_gate, isr_install}
use fur_os.Interrupts.Gates.{gate_target, gate_at, set_idt_gate-target, isr_install-covers}

abbrev interrupts : Interrupts
interrupts = record {
  memory = λ a. 0;
  interrupt_gate = 0x8000;
  interrupt_table_reg = record { size = 0; address = 0 };
  idtr = none;
  interrupt_handlers = λ k. none;
}

set_idt_gate-target_example :
    (s' : Interrupts) × (set_idt_gate 14 0xffffffff80001234 interrupts ≡ ok tt s')
    × (load_le 2 s'.memory (gate_at interrupts 14 + 2) ≡ 0x10)
    × (load_le 1 s'.memory (gate_at interrupts 14 + 5) ≡ 0x8e)
    × ((e : ℕ)
        → gate_target s'.memory (gate_at interrupts e) ≡ (
            if e == 14
            then 0xffffffff80001234
            else gate_target interrupts.memory (gate_at interrupts e)))
set_idt_gate-target_example =
    set_idt_gate-target 14 0xffffffff80001234 interrupts (omega arith) (omega arith)

isr_install-covers_example :
    (r : IdtRegister) × ((isr_install interrupts).idtr ≡ some r)
    × (r.address ≡ 0x8000)
    × ((b : ℕ) → leb b r.size ≡ ltb (b / 16) 256)
isr_install-covers_example = isr_install-covers interrupts
