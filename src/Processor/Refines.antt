-- ===== src/Processor/Refines.antt =====
-- What one cycle of the single-cycle processor does with the encoding of each instruction.
use superscalar_oooprocessor.Base.{◌/◌, ◌^◌, ◌<◌, ◌≡◌, refl, ap, ◌∙◌, arith}
use superscalar_oooprocessor.Memory.{Memory}
use superscalar_oooprocessor.Registers.{Registers}
use superscalar_oooprocessor.Processor.Isa
use superscalar_oooprocessor.Processor.Isa.{
  Operation, Shift, Immediate, Width, Instr, step, encode, IsEncodable, add, addu, sub, subu,
  bitwise_and, bitwise_or, bitwise_nor, slt, sll, srl, addi, addiu, slti, andi, ori, lui, word,
  halfword, byte, operate, shift, immediate, load, store, branch_equal, branch_not_equal,
  jump_register, nop,
}
use superscalar_oooprocessor.Processor.Outcome.{machine_of}
use superscalar_oooprocessor.Processor.Encoding.{
  r_fields, i_fields, fields_of-r_word, fields_of-i_word,
}
use superscalar_oooprocessor.Processor.SingleCycle.{fields_of, single_cycle_processor_advance}
use superscalar_oooprocessor.Processor.Steps.{
  cycle_outcome, operate-step, shift-step, immediate-step, load-step, store-step, branch_equal-step,
  branch_not_equal-step, jump_register-step, nop-step, RegistersHoldWords,
}

operation_funct-lt : (op : Operation) → Isa.operation_funct op < 2 ^ 6
operation_funct-lt add = omega arith
operation_funct-lt addu = omega arith
operation_funct-lt sub = omega arith
operation_funct-lt subu = omega arith
operation_funct-lt bitwise_and = omega arith
operation_funct-lt bitwise_or = omega arith
operation_funct-lt bitwise_nor = omega arith
operation_funct-lt slt = omega arith

shift_funct-lt : (op : Shift) → Isa.shift_funct op < 2 ^ 6
shift_funct-lt sll = omega arith
shift_funct-lt srl = omega arith

immediate_opcode-lt : (op : Immediate) → Isa.immediate_opcode op < 2 ^ 6
immediate_opcode-lt addi = omega arith
immediate_opcode-lt addiu = omega arith
immediate_opcode-lt slti = omega arith
immediate_opcode-lt andi = omega arith
immediate_opcode-lt ori = omega arith
immediate_opcode-lt lui = omega arith

load_opcode-lt : (w : Width) → Isa.load_opcode w < 2 ^ 6
load_opcode-lt word = omega arith
load_opcode-lt halfword = omega arith
load_opcode-lt byte = omega arith

store_opcode-lt : (w : Width) → Isa.store_opcode w < 2 ^ 6
store_opcode-lt word = omega arith
store_opcode-lt halfword = omega arith
store_opcode-lt byte = omega arith

-- At level 0, with words in the registers and the encoding of an instruction at `pc` whose fields
-- fit and whose destination is not register 0, one cycle of the single-cycle processor changes the
-- registers, the memory and `pc` as `Isa.step` says.
pub single_cycle-step :
    (i : Instr) (memory : Memory) (g : Registers)
    → memory.opt_level ≡ 0
    → RegistersHoldWords g
    → IsEncodable i
    → memory.mem (g.pc / 4) ≡ encode i
    → machine_of (single_cycle_processor_advance memory g) ≡ step i (machine_of (memory, g))
unfolding IsEncodable encode
single_cycle-step (operate op d s t) memory g level hw (hd, hs, ht, h) e =
    let m = machine_of (memory, g) in
    let f =
      fields_of-r_word s t d 0 (Isa.operation_funct op) hs ht hd (omega arith)
        (operation_funct-lt op) in
    cycle_outcome memory g (r_fields s t d 0 (Isa.operation_funct op)) level (ap fields_of e ∙ f)
    ∙ operate-step op d s t m h (hw s) (hw t)
single_cycle-step (shift op d t shamt) memory g level hw (hd, ht, hh, h) e =
    let f =
      fields_of-r_word 0 t d shamt (Isa.shift_funct op) (omega arith) ht hd hh
        (shift_funct-lt op) in
    cycle_outcome memory g (r_fields 0 t d shamt (Isa.shift_funct op)) level (ap fields_of e ∙ f)
    ∙ shift-step op d t shamt (machine_of (memory, g)) h
single_cycle-step (immediate op t s imm) memory g level hw (ht, hs, hi, h) e =
    let o = Isa.immediate_opcode op in
    let f = fields_of-i_word o s t imm (immediate_opcode-lt op) hs ht hi in
    cycle_outcome memory g (i_fields o s t imm) level (ap fields_of e ∙ f)
    ∙ immediate-step op t s imm (machine_of (memory, g)) h hi (hw s)
single_cycle-step (load w t s imm) memory g level hw (ht, hs, hi, h) e =
    let o = Isa.load_opcode w in
    let f = fields_of-i_word o s t imm (load_opcode-lt w) hs ht hi in
    cycle_outcome memory g (i_fields o s t imm) level (ap fields_of e ∙ f)
    ∙ load-step w t s imm (machine_of (memory, g)) h hi
single_cycle-step (store w t s imm) memory g level hw (ht, hs, hi) e =
    let o = Isa.store_opcode w in
    let f = fields_of-i_word o s t imm (store_opcode-lt w) hs ht hi in
    cycle_outcome memory g (i_fields o s t imm) level (ap fields_of e ∙ f)
    ∙ store-step w t s imm (machine_of (memory, g)) hi
single_cycle-step (branch_equal s t imm) memory g level hw (hs, ht, hi) e =
    let f = fields_of-i_word 0x4 s t imm (omega arith) hs ht hi in
    cycle_outcome memory g (i_fields 0x4 s t imm) level (ap fields_of e ∙ f)
    ∙ branch_equal-step s t imm (machine_of (memory, g)) hi (hw s) (hw t)
single_cycle-step (branch_not_equal s t imm) memory g level hw (hs, ht, hi) e =
    let f = fields_of-i_word 0x5 s t imm (omega arith) hs ht hi in
    cycle_outcome memory g (i_fields 0x5 s t imm) level (ap fields_of e ∙ f)
    ∙ branch_not_equal-step s t imm (machine_of (memory, g)) hi (hw s) (hw t)
single_cycle-step (jump_register s) memory g level hw hs e =
    let f =
      fields_of-r_word s 0 0 0 0x08 hs (omega arith) (omega arith) (omega arith) (omega arith) in
    cycle_outcome memory g (r_fields s 0 0 0 0x08) level (ap fields_of e ∙ f)
    ∙ jump_register-step s (machine_of (memory, g))
single_cycle-step nop memory g level hw h e =
    let f : fields_of 0 ≡ r_fields 0 0 0 0 0 = refl in
    cycle_outcome memory g (r_fields 0 0 0 0 0) level (ap fields_of e ∙ f)
    ∙ nop-step (machine_of (memory, g)) (hw 0)
