-- ===== src/Processor/Forwarding.antt =====
-- The operands of the five-stage processor: what the forwarding in `execute_stage` and the stall in
-- `decode_stage` amount to.
use superscalar_oooprocessor.Base.{
  ℕ, zero, suc, ◌≡◌, ◌≢◌, ◌⊎◌, inl, inr, refl, sym, ◌∙◌, arith, true, false, ◌&&◌, ◌==◌,
  if◌then◌else◌,
}
use superscalar_oooprocessor.Control.{reset}
use superscalar_oooprocessor.Memory.{Memory}
use superscalar_oooprocessor.Processor.State.{
  Pipeline, ExMem, MemWb, start, empty_ex_mem, empty_mem_wb,
}
use superscalar_oooprocessor.Processor.SingleCycle.{mask_load}
use superscalar_oooprocessor.Processor.Pipeline.{
  writeback_stage, memory_stage, ex_dest, forward, forwarded, pipelined_processor_advance,
}
use superscalar_oooprocessor.Processor.Hazards.{
  IsLoadClass, written_back, newer, IsHazardFree, registers_after, registers_after-value,
  bubble-AreFresh, answered, memory_stage-both, advance-IsHazardFree,
}

start-IsHazardFree : (memory : Memory) → IsHazardFree (start memory)
unfolding start
start-IsHazardFree memory =
    let none_writes : IsLoadClass reset = record { agree = refl; to_rt = refl } in
    bubble-AreFresh empty_ex_mem empty_mem_wb (start memory).regfile.r none_writes none_writes refl
      refl

-- Cycles of the five-stage processor.
abbrev pub pipelined_cycles : ℕ → Pipeline → Pipeline
pipelined_cycles zero p = p
pipelined_cycles (suc n) p = pipelined_cycles n (pipelined_processor_advance p)

run-IsHazardFree : (n : ℕ) (p : Pipeline) → IsHazardFree p → IsHazardFree (pipelined_cycles n p)
run-IsHazardFree zero p h = h
run-IsHazardFree (suc n) p h =
    run-IsHazardFree n (pipelined_processor_advance p) (advance-IsHazardFree p h)

-- The state that `execute_stage` finds in the cycle from `p`.
abbrev pub before_execute : Pipeline → Pipeline
before_execute p = memory_stage (writeback_stage (record p { mem_wb_prev = p.mem_wb }))

-- The operands are the registers after the instructions ahead wrote back, register 0 apart.
pub record AreCurrent (z : Pipeline) : Type 0 where
  pub rs_current :
      (z.id_ex.rs ≡ 0)
      ⊎ ((forwarded z).read_data_1 ≡ ((writeback_stage z).regfile.r z.id_ex.rs).value)
  pub rt_current :
      (z.id_ex.rt ≡ 0)
      ⊎ ((forwarded z).read_data_2 ≡ ((writeback_stage z).regfile.r z.id_ex.rt).value)

-- One source register: what is ahead of it is `e`, which has its word from the memory, and `b`,
-- which was just written back.
forward-current :
    (e : ExMem) (b : MemWb) (word reg value current : ℕ)
    → IsLoadClass e.control
    → e.write_reg ≡ ex_dest e
    → (e.control.mem_read ≡ true → e.rt ≢ 0 → e.rt ≢ reg)
    → newer b reg value ≡ current
    → reg ≢ 0
    → forward b e reg value ≡ (
        if e.control.reg_write && (e.write_reg == reg)
        then (if e.control.mem_to_reg then word else e.alu_out)
        else current)
unfolding forward
forward-current e b word reg value current c h load_use fresh n =
    ground (arith, c.agree, c.to_rt, h, fresh)

answered-current :
    (p : Pipeline) (word : ℕ) (m : Memory)
    → IsHazardFree p
    → AreCurrent (answered (writeback_stage (record p { mem_wb_prev = p.mem_wb })) word m)
unfolding writeback_stage
answered-current p word m h =
    let q = writeback_stage (record p { mem_wb_prev = p.mem_wb }) in
    let z = answered q word m in
    let operand : (reg value : ℕ)
        → (p.ex_mem.control.mem_read ≡ true → p.ex_mem.rt ≢ 0 → p.ex_mem.rt ≢ reg)
        → newer p.mem_wb reg value ≡ written_back p.mem_wb p.regfile.r reg
        → reg ≢ 0
        → forward p.mem_wb p.ex_mem reg value ≡ ((writeback_stage z).regfile.r reg).value =
      λ reg value load_use fresh n.
        forward-current p.ex_mem p.mem_wb (mask_load p.ex_mem.control word) reg value
          (registers_after p reg).value h.ex_class h.ex_reg load_use
          (fresh ∙ sym (registers_after-value p reg)) n
        ∙ sym (registers_after-value z reg) in
    record {
      rs_current = elim (nat_cases p.id_ex.rs) [
        | inl e ↦ inl e
        | inr n ↦
            inr
              (operand p.id_ex.rs p.id_ex.read_data_1 (λ l k. (h.load_use l k).0) (h.rs_fresh n) n)
      ];
      rt_current = elim (nat_cases p.id_ex.rt) [
        | inl e ↦ inl e
        | inr n ↦
            inr
              (operand p.id_ex.rt p.id_ex.read_data_2 (λ l k. (h.load_use l k).1) (h.rt_fresh n) n)
      ];
    }
  where
    nat_cases : (k : ℕ) → (k ≡ 0) ⊎ (k ≢ 0)
    nat_cases zero = inl refl
    nat_cases (suc k) = inr (ground arith)

-- In every cycle of a run of the five-stage processor from its start, over any memory: if the
-- memory stage has its answer, the instruction that is executed gets in `execute_stage`, for each of
-- its source registers but register 0, the word that the register file holds once the two
-- instructions ahead of it wrote back.
pub run-AreCurrent :
    (n : ℕ) (memory : Memory)
    → (before_execute (pipelined_cycles n (start memory))).memory_stall ≡ false
    → AreCurrent (before_execute (pipelined_cycles n (start memory)))
run-AreCurrent n memory =
    let p = pipelined_cycles n (start memory) in
    let h = run-IsHazardFree n (start memory) (start-IsHazardFree memory) in
    memory_stage-both (λ z. z.memory_stall ≡ false → AreCurrent z)
      (writeback_stage (record p { mem_wb_prev = p.mem_wb }))
      (λ word m _. answered-current p word m h) (λ m stalled. absurd (ground arith))
