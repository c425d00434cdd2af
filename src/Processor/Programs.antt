-- ===== src/Processor/Programs.antt =====
-- Whole runs: programs of the modelled instructions on the single-cycle processor.
use superscalar_oooprocessor.Base.{
  ℕ, zero, suc, ◌/◌, ◌^◌, ◌<◌, ◌≡◌, refl, sym, subst, ◌∙◌, ◌%◌, some, bit_and-le, bit_or-lt, arith,
  update,
}
use native.Mathlib.Nat.{div-le_self}
use superscalar_oooprocessor.Config.{u32_mod}
use superscalar_oooprocessor.Memory.{Memory}
use superscalar_oooprocessor.Registers.{Registers}
use superscalar_oooprocessor.Processor.Isa
use superscalar_oooprocessor.Processor.Isa.{
  Machine, Operation, Shift, Immediate, Width, Instr, step, encode, IsEncodable, add, addu, sub,
  subu, bitwise_and, bitwise_or, bitwise_nor, slt, sll, srl, addi, addiu, slti, andi, ori, lui,
  word, halfword, byte, operate, shift, immediate, load, store, branch_equal, branch_not_equal,
  jump_register, nop,
}
use superscalar_oooprocessor.Processor.Manual.{prescribed, IsLow, step-prescribed}
use superscalar_oooprocessor.Processor.Outcome.{machine_of}
use superscalar_oooprocessor.Processor.SingleCycle.{single_cycle_processor_advance}
use superscalar_oooprocessor.Processor.Refines.{single_cycle-step}
use superscalar_oooprocessor.Processor.Steps.{cycle-level}

-- Registers and memory hold words.
pub record HasWords (m : Machine) : Type 0 where
  pub regs_words : (i : ℕ) → m.regs i < u32_mod
  pub mem_words : (i : ℕ) → m.mem i < u32_mod

less_than-lt : (a b : ℕ) → Isa.less_than a b < u32_mod
less_than-lt a b = ground arith

operation_result-lt :
    (op : Operation) (a b : ℕ) → a < u32_mod → b < u32_mod → Isa.operation_result op a b < u32_mod
operation_result-lt add a b ha hb = omega arith
operation_result-lt addu a b ha hb = omega arith
operation_result-lt sub a b ha hb = omega arith
operation_result-lt subu a b ha hb = omega arith
operation_result-lt bitwise_and a b ha hb = omega (arith, bit_and-le a b)
operation_result-lt bitwise_or a b ha hb = bit_or-lt 32 a b ha hb
operation_result-lt bitwise_nor a b ha hb = omega arith
operation_result-lt slt a b ha hb = less_than-lt a b

shift_result-lt : (op : Shift) (b shamt : ℕ) → b < u32_mod → Isa.shift_result op b shamt < u32_mod
shift_result-lt sll b shamt h = omega arith
shift_result-lt srl b shamt h = omega (arith, div-le_self b (2 ^ shamt))

immediate_result-lt :
    (op : Immediate) (a imm : ℕ)
    → a < u32_mod
    → imm < 2 ^ 16
    → Isa.immediate_result op a imm < u32_mod
immediate_result-lt addi a imm ha hi = omega arith
immediate_result-lt addiu a imm ha hi = omega arith
immediate_result-lt slti a imm ha hi = less_than-lt a (Isa.sign_extend imm)
immediate_result-lt andi a imm ha hi = omega (arith, bit_and-le a imm)
immediate_result-lt ori a imm ha hi = bit_or-lt 32 a imm ha (omega arith)
immediate_result-lt lui a imm ha hi = omega arith

loaded-lt : (w : Width) (v : ℕ) → v < u32_mod → Isa.loaded w v < u32_mod
loaded-lt word v h = h
loaded-lt halfword v h = omega arith
loaded-lt byte v h = omega arith

stored-lt :
    (w : Width) (old new : ℕ) → old < u32_mod → new < u32_mod → Isa.stored w old new < u32_mod
stored-lt word old new ho hn = hn
stored-lt halfword old new ho hn = omega arith
stored-lt byte old new ho hn = omega arith

update-lt :
    (f : ℕ → ℕ) (i v : ℕ)
    → ((j : ℕ) → f j < u32_mod)
    → v < u32_mod
    → (j : ℕ) → update f i v j < u32_mod
update-lt f i v h hv j = ground (arith, h j)

set_register-HasWords :
    (m : Machine) (d v : ℕ) → HasWords m → v < u32_mod → HasWords (Isa.set_register m d v)
set_register-HasWords m d v h hv = record {
  regs_words = λ j. ground (arith, update-lt m.regs d v h.regs_words hv j, h.regs_words j);
  mem_words = h.mem_words;
}

-- The instructions keep words words.
step-HasWords : (i : Instr) (m : Machine) → IsEncodable i → HasWords m → HasWords (step i m)
unfolding IsEncodable step
step-HasWords (operate op d s t) m e h =
    set_register-HasWords m d (Isa.operation_result op (m.regs s) (m.regs t)) h
      (operation_result-lt op (m.regs s) (m.regs t) (h.regs_words s) (h.regs_words t))
step-HasWords (shift op d t shamt) m e h =
    set_register-HasWords m d (Isa.shift_result op (m.regs t) shamt) h
      (shift_result-lt op (m.regs t) shamt (h.regs_words t))
step-HasWords (immediate op t s imm) m (_, _, hi, _) h =
    set_register-HasWords m t (Isa.immediate_result op (m.regs s) imm) h
      (immediate_result-lt op (m.regs s) imm (h.regs_words s) hi)
step-HasWords (load w t s imm) m e h =
    let v = m.mem (Isa.word_index m s imm) in
    set_register-HasWords m t (Isa.loaded w v) h
      (loaded-lt w v (h.mem_words (Isa.word_index m s imm)))
step-HasWords (store w t s imm) m e h =
    let i = Isa.word_index m s imm in
    record {
      regs_words = h.regs_words;
      mem_words =
          update-lt m.mem i (Isa.stored w (m.mem i) (m.regs t)) h.mem_words
            (stored-lt w (m.mem i) (m.regs t) (h.mem_words i) (h.regs_words t));
    }
step-HasWords (branch_equal s t imm) m e h = record {
  regs_words = h.regs_words;
  mem_words = h.mem_words;
}
step-HasWords (branch_not_equal s t imm) m e h = record {
  regs_words = h.regs_words;
  mem_words = h.mem_words;
}
step-HasWords (jump_register s) m e h = record {
  regs_words = h.regs_words;
  mem_words = h.mem_words;
}
step-HasWords nop m e h = record { regs_words = h.regs_words; mem_words = h.mem_words }

-- A run of `n` instructions as the manual prescribes, each of which the memory holds where `pc`, a
-- multiple of 4, points when its turn comes, and none of which traps or accesses a byte or a halfword
-- within a word.
pub data Runs : ℕ → Machine → Machine → Type 0 where
  done : {m : Machine} → Runs zero m m
  next :
      {n : ℕ} {m m' last : Machine} (i : Instr)
      → IsEncodable i
      → m.pc % 4 ≡ 0
      → m.mem (m.pc / 4) ≡ encode i
      → IsLow i m
      → prescribed i m ≡ some m'
      → Runs n m' last
      → Runs (suc n) m last

-- `n` cycles of the single-cycle processor.
abbrev pub cycles : ℕ → Memory × Registers → Memory × Registers
cycles zero s = s
cycles (suc n) (memory, g) = cycles n (single_cycle_processor_advance memory g)

-- At level 0, with words in the registers and the memory: take any run, from the current state, of
-- instructions of Isa.antt (so with a destination other than register 0, or `nop`) as the MIPS manual
-- prescribes them, but for branch delay slots; no instruction of it traps, and bytes and halfwords
-- are accessed at addresses that 4 divides. Then as many cycles of the single-cycle processor end in
-- the last state of that run.
pub cycles-Runs :
    (n : ℕ) (memory : Memory) (g : Registers) {last : Machine}
    → memory.opt_level ≡ 0
    → HasWords (machine_of (memory, g))
    → Runs n (machine_of (memory, g)) last
    → machine_of (cycles n (memory, g)) ≡ last
cycles-Runs zero memory g level h done = refl
cycles-Runs (suc n) memory g {last} level h (next {m' = m'} i e aligned at_pc low next_state rest) =
    let (memory', g') = single_cycle_processor_advance memory g in
    let m = machine_of (memory, g) in
    let ends = step-prescribed i m low next_state in
    let stepped = single_cycle-step i memory g level h.regs_words e at_pc ∙ ends in
    cycles-Runs n memory' g' {last = last} (cycle-level memory g level)
      (subst HasWords (ends ∙ sym stepped) (step-HasWords i m e h))
      (subst (λ x. Runs n x last) (sym stepped) rest)
