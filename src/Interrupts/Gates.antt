-- ===== src/Interrupts/Gates.antt =====
-- What the processor reads from the table.
use fur_os.Prelude.{
  ℕ, ◌+◌, ◌*◌, ◌/◌, ◌%◌, ◌^◌, ◌<◌, ◌≡◌, ◌≢◌, refl, ◌∙◌, inl, inr, true, ltb, leb, ◌==◌,
  if◌then◌else◌, some, arith, Bool-cases,
}
use fur_os.Command.{ok}
use fur_os.Memory.{Memory, load_le}
use fur_os.Memory.Laws.{Apart, load_le-store_le, load_le-store_le-Apart}
use fur_os.Interrupts.{
  Interrupts, IdtRegister, write_gate, set_idt_gate, isr_install, register_interrupt_handler,
}

-- The address of the handler in the gate at `a`: its low 16 bits at byte 0, the next at byte 6, and
-- the high 32 bits at byte 8.
abbrev pub gate_target : Memory → ℕ → ℕ
gate_target m a = load_le 2 m a + load_le 2 m (a + 6) * 2 ^ 16 + load_le 4 m (a + 8) * 2 ^ 32

module _ (a address : ℕ) (m : Memory) where
  gate-Apart : (n b : ℕ) → Apart n b 16 a → load_le n (write_gate a address m) b ≡ load_le n m b
  unfolding write_gate
  gate-Apart n b h =
      load_le-store_le-Apart n 4 _ b (a + 12) _ (ground arith)
      ∙ load_le-store_le-Apart n 4 _ b (a + 8) _ (ground arith)
      ∙ load_le-store_le-Apart n 2 _ b (a + 6) _ (ground arith)
      ∙ load_le-store_le-Apart n 1 _ b (a + 5) _ (ground arith)
      ∙ load_le-store_le-Apart n 1 _ b (a + 4) _ (ground arith)
      ∙ load_le-store_le-Apart n 2 _ b (a + 2) _ (ground arith)
      ∙ load_le-store_le-Apart n 2 _ b a _ (ground arith)

  gate_low : load_le 2 (write_gate a address m) a ≡ address % 2 ^ 16
  unfolding write_gate
  gate_low =
      load_le-store_le-Apart 2 4 _ a (a + 12) _ (ground arith)
      ∙ load_le-store_le-Apart 2 4 _ a (a + 8) _ (ground arith)
      ∙ load_le-store_le-Apart 2 2 _ a (a + 6) _ (ground arith)
      ∙ load_le-store_le-Apart 2 1 _ a (a + 5) _ (ground arith)
      ∙ load_le-store_le-Apart 2 1 _ a (a + 4) _ (ground arith)
      ∙ load_le-store_le-Apart 2 2 _ a (a + 2) _ (ground arith)
      ∙ load_le-store_le 2 m a (address % 2 ^ 16) (omega arith)

  gate_selector : load_le 2 (write_gate a address m) (a + 2) ≡ 0x10
  unfolding write_gate
  gate_selector =
      load_le-store_le-Apart 2 4 _ (a + 2) (a + 12) _ (ground arith)
      ∙ load_le-store_le-Apart 2 4 _ (a + 2) (a + 8) _ (ground arith)
      ∙ load_le-store_le-Apart 2 2 _ (a + 2) (a + 6) _ (ground arith)
      ∙ load_le-store_le-Apart 2 1 _ (a + 2) (a + 5) _ (ground arith)
      ∙ load_le-store_le-Apart 2 1 _ (a + 2) (a + 4) _ (ground arith)
      ∙ load_le-store_le 2 _ (a + 2) 0x10 (omega arith)

  gate_type : load_le 1 (write_gate a address m) (a + 5) ≡ 0x8e
  unfolding write_gate
  gate_type =
      load_le-store_le-Apart 1 4 _ (a + 5) (a + 12) _ (ground arith)
      ∙ load_le-store_le-Apart 1 4 _ (a + 5) (a + 8) _ (ground arith)
      ∙ load_le-store_le-Apart 1 2 _ (a + 5) (a + 6) _ (ground arith)
      ∙ load_le-store_le 1 _ (a + 5) 0x8e (omega arith)

  gate_middle : load_le 2 (write_gate a address m) (a + 6) ≡ address / 2 ^ 16 % 2 ^ 16
  unfolding write_gate
  gate_middle =
      load_le-store_le-Apart 2 4 _ (a + 6) (a + 12) _ (ground arith)
      ∙ load_le-store_le-Apart 2 4 _ (a + 6) (a + 8) _ (ground arith)
      ∙ load_le-store_le 2 _ (a + 6) (address / 2 ^ 16 % 2 ^ 16) (omega arith)

  gate_high : load_le 4 (write_gate a address m) (a + 8) ≡ address / 2 ^ 32 % 2 ^ 32
  unfolding write_gate
  gate_high =
      load_le-store_le-Apart 4 4 _ (a + 8) (a + 12) _ (ground arith)
      ∙ load_le-store_le 4 _ (a + 8) (address / 2 ^ 32 % 2 ^ 32) (omega arith)

  gate_target-write_gate : address < 2 ^ 64 → gate_target (write_gate a address m) a ≡ address
  gate_target-write_gate h = omega (arith, gate_low, gate_middle, gate_high)

-- The address of gate `e`.
abbrev pub gate_at : Interrupts → ℕ → ℕ
gate_at s e = s.interrupt_gate + 16 * e

-- `SetIDTGate` of a 64-bit address on one of the 256 entries does not fault: the processor finds the address in that gate, a present
-- interrupt gate of code segment 0x10, and the address in every other gate is as before.
pub set_idt_gate-target :
    (entry address : ℕ) (s : Interrupts)
    → entry < 256
    → address < 2 ^ 64
    → (s' : Interrupts) × (set_idt_gate entry address s ≡ ok tt s')
      × (load_le 2 s'.memory (gate_at s entry + 2) ≡ 0x10)
      × (load_le 1 s'.memory (gate_at s entry + 5) ≡ 0x8e)
      × ((e : ℕ)
          → gate_target s'.memory (gate_at s e)
            ≡ (if e == entry then address else gate_target s.memory (gate_at s e)))
unfolding set_idt_gate
set_idt_gate-target entry address s h fits =
    let a = gate_at s entry in
    let test : ltb entry 256 ≡ true = ground arith in
    (
      record s { memory = write_gate a address s.memory },
      rw test,
      gate_selector a address s.memory,
      gate_type a address s.memory,
      λ e. elim (Bool-cases (e == entry)) [
        | inl same ↦
            let here : e ≡ entry = ground arith in
            rw (same, here) (gate_target-write_gate a address s.memory fits)
        | inr other ↦
            let ne : e ≢ entry = ground arith in
            let low = gate-Apart a address s.memory 2 (gate_at s e) (ground arith) in
            let middle = gate-Apart a address s.memory 2 (gate_at s e + 6) (ground arith) in
            let high = gate-Apart a address s.memory 4 (gate_at s e + 8) (ground arith) in
            rw (other, low, middle, high)
      ],
    )

-- `RegisterInterruptHandler` never faults on an 8-bit number: the handler is then found under that
-- number, and no other entry changes.
pub register_interrupt_handler_lem :
    (n handler : ℕ) (s : Interrupts)
    → n < 256
    → (s' : Interrupts) × (register_interrupt_handler n handler s ≡ ok tt s')
      × ((k : ℕ)
          → s'.interrupt_handlers k ≡ (if k == n then some handler else s.interrupt_handlers k))
unfolding register_interrupt_handler
register_interrupt_handler_lem n handler s h =
    let byte : n % 2 ^ 8 ≡ n = omega arith in
    let test : ltb n 256 ≡ true = ground arith in
    (
      record s {
        interrupt_handlers = λ k. if k == n then some handler else s.interrupt_handlers k;
      },
      rw (byte, test),
      λ k. refl,
    )

-- After `ISRInstall` the processor's register holds the table's address, and a limit that takes in
-- the last byte of every one of the 256 gates and no byte past them.
pub isr_install-covers :
    (s : Interrupts)
    → (r : IdtRegister) × ((isr_install s).idtr ≡ some r)
      × (r.address ≡ s.interrupt_gate)
      × ((b : ℕ) → leb b r.size ≡ ltb (b / 16) 256)
unfolding isr_install
isr_install-covers s =
    (record { size = 4095; address = s.interrupt_gate }, refl, refl, λ b. ground arith)
