-- ===== src/Processor/Jumps.antt =====
-- The jumps of the single-cycle processor, whose target is combined with `&` instead of `|`.
use superscalar_oooprocessor.Base.{
  ◌+◌, ◌*◌, ◌/◌, ◌%◌, ◌^◌, ◌<◌, ◌≡◌, refl, ap, ◌∙◌, ◌⊎◌, inl, inr, bit_and-disjoint, arith,
}
use superscalar_oooprocessor.Config.{u32_mod}
use superscalar_oooprocessor.Processor.Isa
use superscalar_oooprocessor.Control.{opcode_of, decode_j}
use superscalar_oooprocessor.Memory.{Memory}
use superscalar_oooprocessor.Registers.{Registers}
use superscalar_oooprocessor.Processor.SingleCycle.{
  Fields, single_cycle_processor_advance, fields_of,
}
use superscalar_oooprocessor.Processor.Outcome.{machine_of, outcome}
use superscalar_oooprocessor.Processor.Steps.{cycle_outcome, decode_fields}

outcome-zero :
    (f : Fields) (m : Isa.Machine)
    → f.addr < 2 ^ 26
    → (f.opcode ≡ 2) ⊎ (f.opcode ≡ 3)
    → (outcome (decode_fields f) f m).pc ≡ 0
unfolding decode_j
outcome-zero f m l (inl e) =
    simp e (bit_and-disjoint 28 ((m.pc + 4) % u32_mod / 2 ^ 28) (f.addr * 4) (omega arith))
outcome-zero f m l (inr e) =
    simp e (bit_and-disjoint 28 ((m.pc + 4) % u32_mod / 2 ^ 28) (f.addr * 4) (omega arith))

-- At level 0, after a word with the opcode of j or jal the single-cycle processor continues at
-- address 0, wherever the jump goes.
pub jump-zero :
    (memory : Memory) (g : Registers)
    → memory.opt_level ≡ 0
    → (opcode_of (memory.mem (g.pc / 4)) ≡ 2) ⊎ (opcode_of (memory.mem (g.pc / 4)) ≡ 3)
    → (single_cycle_processor_advance memory g).1.pc ≡ 0
jump-zero memory g level e =
    let f = fields_of (memory.mem (g.pc / 4)) in
    ap (λ (m : Isa.Machine). m.pc) (cycle_outcome memory g f level refl)
    ∙ outcome-zero f (machine_of (memory, g)) (omega arith) e
