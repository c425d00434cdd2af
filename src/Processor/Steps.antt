-- ===== src/Processor/Steps.antt =====
-- One cycle of the single-cycle processor for each kind of instruction.
use superscalar_oooprocessor.Base.{
  ℕ, ◌+◌, ◌-◌, ◌*◌, ◌/◌, ◌%◌, ◌^◌, ◌<◌, ◌≡◌, ◌≢◌, refl, ap, ◌∙◌, fun_ext, bit_or-disjoint, arith,
  Bool, true, false, not, ◌||◌, ◌==◌, if◌then◌else◌, update,
}
use superscalar_oooprocessor.Config.{u32_mod}
use superscalar_oooprocessor.Control.{Control, decode, decode_r, decode_j, decode_i}
use superscalar_oooprocessor.Alu.{generate_control_inputs, execute}
use superscalar_oooprocessor.Alu.Laws.{execute-slt}
use superscalar_oooprocessor.MemoryOoo.{reading}
use superscalar_oooprocessor.Memory.{Memory}
use superscalar_oooprocessor.Registers.{Registers}
use superscalar_oooprocessor.Processor.Isa
use superscalar_oooprocessor.Processor.Isa.{
  Operation, Shift, Immediate, Width, Instr, step, encode, IsEncodable, add, addu, sub, subu,
  bitwise_and, bitwise_or, bitwise_nor, slt, sll, srl, addi, addiu, slti, andi, ori, lui, word,
  halfword, byte, operate, shift, immediate, load, store, branch_equal, branch_not_equal,
  jump_register, nop,
}
use superscalar_oooprocessor.Processor.Outcome.{
  machine_of, outcome, complete-outcome, complete-level, access-flat, machine-≡,
}
use superscalar_oooprocessor.Processor.Encoding.{
  r_fields, i_fields, extend_imm-sign_extend, sign_extend-lt, extend_imm-zero,
}
use superscalar_oooprocessor.Processor.SingleCycle.{
  Fields, fields_of, single_cycle_processor_advance,
}

-- The decoder needs two fields.
abbrev pub decode_fields : Fields → Control
decode_fields f =
    if f.opcode == 0
    then decode_r f.funct
    else if f.opcode == 0x2 || f.opcode == 0x3
    then decode_j f.opcode
    else decode_i f.opcode

pub cycle_outcome :
    (memory : Memory) (g : Registers) (f : Fields)
    → memory.opt_level ≡ 0
    → fields_of (memory.mem (g.pc / 4)) ≡ f
    → machine_of (single_cycle_processor_advance memory g)
      ≡ outcome (decode_fields f) f (machine_of (memory, g))
unfolding single_cycle_processor_advance decode
cycle_outcome memory g f level e =
    let inst = memory.mem (g.pc / 4) in
    let flat = access-flat memory g.pc 0 reading level in
    let done = complete-outcome (decode inst) (fields_of inst) memory g level in
    rw flat (done ∙ ap (λ h. outcome (decode_fields h) h (machine_of (memory, g))) e)

-- A cycle stays at level 0.
pub cycle-level :
    (memory : Memory) (g : Registers)
    → memory.opt_level ≡ 0
    → (single_cycle_processor_advance memory g).0.opt_level ≡ 0
unfolding single_cycle_processor_advance
cycle-level memory g level =
    let inst = memory.mem (g.pc / 4) in
    let flat = access-flat memory g.pc 0 reading level in
    rw flat (complete-level (decode inst) (fields_of inst) memory g level)

-- A write to a register other than 0.
set_nonzero :
    (regs : ℕ → ℕ) {d v w : ℕ}
    → d ≢ 0
    → v ≡ w
    → update regs d v ≡ (if d == 0 then regs else update regs d w)
set_nonzero regs {d} {v} {w} h e = let z : (d == 0) ≡ false = ground arith in rw (z, e) refl

pub operate-step :
    (op : Operation) (d s t : ℕ) (m : Isa.Machine)
    → d ≢ 0
    → m.regs s < u32_mod
    → m.regs t < u32_mod
    → (let f = r_fields s t d 0 (Isa.operation_funct op) in outcome (decode_fields f) f m)
      ≡ step (operate op d s t) m
unfolding decode_r generate_control_inputs execute step
operate-step add d s t m h hs ht = machine-≡ (set_nonzero m.regs h refl) refl refl
operate-step addu d s t m h hs ht = machine-≡ (set_nonzero m.regs h refl) refl refl
operate-step sub d s t m h hs ht = machine-≡ (set_nonzero m.regs h refl) refl refl
operate-step subu d s t m h hs ht = machine-≡ (set_nonzero m.regs h refl) refl refl
operate-step bitwise_and d s t m h hs ht = machine-≡ (set_nonzero m.regs h refl) refl refl
operate-step bitwise_or d s t m h hs ht = machine-≡ (set_nonzero m.regs h refl) refl refl
operate-step bitwise_nor d s t m h hs ht = machine-≡ (set_nonzero m.regs h refl) refl refl
operate-step slt d s t m h hs ht =
    machine-≡ (set_nonzero m.regs h (execute-slt (m.regs s) (m.regs t) hs ht)) refl refl

pub shift-step :
    (op : Shift) (d t shamt : ℕ) (m : Isa.Machine)
    → d ≢ 0
    → (let f = r_fields 0 t d shamt (Isa.shift_funct op) in outcome (decode_fields f) f m)
      ≡ step (shift op d t shamt) m
unfolding decode_r generate_control_inputs execute step
shift-step sll d t shamt m h = machine-≡ (set_nonzero m.regs h refl) refl refl
shift-step srl d t shamt m h = machine-≡ (set_nonzero m.regs h refl) refl refl

pub immediate-step :
    (op : Immediate) (t s imm : ℕ) (m : Isa.Machine)
    → t ≢ 0
    → imm < 2 ^ 16
    → m.regs s < u32_mod
    → (let f = i_fields (Isa.immediate_opcode op) s t imm in outcome (decode_fields f) f m)
      ≡ step (immediate op t s imm) m
unfolding decode_i generate_control_inputs execute step
immediate-step addi t s imm m h hi hs =
    rw (extend_imm-sign_extend imm hi) (machine-≡ (set_nonzero m.regs h refl) refl refl)
immediate-step addiu t s imm m h hi hs =
    rw (extend_imm-sign_extend imm hi) (machine-≡ (set_nonzero m.regs h refl) refl refl)
immediate-step slti t s imm m h hi hs =
    let e = execute-slt (m.regs s) (Isa.sign_extend imm) hs (sign_extend-lt imm hi) in
    rw (extend_imm-sign_extend imm hi) (machine-≡ (set_nonzero m.regs h e) refl refl)
immediate-step andi t s imm m h hi hs =
    rw (extend_imm-zero imm) (machine-≡ (set_nonzero m.regs h refl) refl refl)
immediate-step ori t s imm m h hi hs =
    rw (extend_imm-zero imm) (machine-≡ (set_nonzero m.regs h refl) refl refl)
immediate-step lui t s imm m h hi hs =
    rw (extend_imm-sign_extend imm hi)
      (machine-≡ (set_nonzero m.regs h (high_half imm hi)) refl refl)
  where
    high_half : (imm : ℕ) → imm < 2 ^ 16 → Isa.sign_extend imm * 2 ^ 16 % u32_mod ≡ imm * 2 ^ 16
    high_half imm hi = ground arith

pub load-step :
    (w : Width) (t s imm : ℕ) (m : Isa.Machine)
    → t ≢ 0
    → imm < 2 ^ 16
    → (let f = i_fields (Isa.load_opcode w) s t imm in outcome (decode_fields f) f m)
      ≡ step (load w t s imm) m
unfolding decode_i generate_control_inputs execute step
load-step word t s imm m h hi =
    rw (extend_imm-sign_extend imm hi) (machine-≡ (set_nonzero m.regs h refl) refl refl)
load-step halfword t s imm m h hi =
    rw (extend_imm-sign_extend imm hi) (machine-≡ (set_nonzero m.regs h refl) refl refl)
load-step byte t s imm m h hi =
    rw (extend_imm-sign_extend imm hi) (machine-≡ (set_nonzero m.regs h refl) refl refl)

pub store-step :
    (w : Width) (t s imm : ℕ) (m : Isa.Machine)
    → imm < 2 ^ 16
    → (let f = i_fields (Isa.store_opcode w) s t imm in outcome (decode_fields f) f m)
      ≡ step (store w t s imm) m
unfolding decode_i generate_control_inputs execute step
store-step word t s imm m hi = rw (extend_imm-sign_extend imm hi) refl
store-step halfword t s imm m hi =
    let i = Isa.word_index m s imm in
    let low = m.regs t % 2 ^ 16 in
    rw (extend_imm-sign_extend imm hi, bit_or-disjoint 16 (m.mem i / 2 ^ 16) low (omega arith)) refl
store-step byte t s imm m hi =
    let i = Isa.word_index m s imm in
    let low = m.regs t % 2 ^ 8 in
    rw (extend_imm-sign_extend imm hi, bit_or-disjoint 8 (m.mem i / 2 ^ 8) low (omega arith)) refl

sub_zero : (a b : ℕ) → a < u32_mod → b < u32_mod → ((a + u32_mod - b) % u32_mod == 0) ≡ (a == b)
sub_zero a b ha hb = ground arith

target_mod : (pc k : ℕ) → ((pc + 4) % u32_mod + k * 4) % u32_mod ≡ (pc + 4 + k * 4) % u32_mod
target_mod pc k = omega arith

if-or_false : (c : Bool) (x y : ℕ) → (if c || false then x else y) ≡ (if c then x else y)
if-or_false false x y = refl
if-or_false true x y = refl

if-not : (c : Bool) (x y : ℕ) → (if not c then x else y) ≡ (if c then y else x)
if-not false x y = refl
if-not true x y = refl

pub branch_equal-step :
    (s t imm : ℕ) (m : Isa.Machine)
    → imm < 2 ^ 16
    → m.regs s < u32_mod
    → m.regs t < u32_mod
    → (let f = i_fields 0x4 s t imm in outcome (decode_fields f) f m)
      ≡ step (branch_equal s t imm) m
unfolding decode_i generate_control_inputs execute step
branch_equal-step s t imm m hi hs ht =
    rw
      (
        extend_imm-sign_extend imm hi,
        sub_zero (m.regs s) (m.regs t) hs ht,
        target_mod m.pc (Isa.sign_extend imm),
      )
      (machine-≡ refl refl
        (if-or_false (m.regs s == m.regs t) (Isa.branch_target m imm) ((m.pc + 4) % u32_mod)))

pub branch_not_equal-step :
    (s t imm : ℕ) (m : Isa.Machine)
    → imm < 2 ^ 16
    → m.regs s < u32_mod
    → m.regs t < u32_mod
    → (let f = i_fields 0x5 s t imm in outcome (decode_fields f) f m)
      ≡ step (branch_not_equal s t imm) m
unfolding decode_i generate_control_inputs execute step
branch_not_equal-step s t imm m hi hs ht =
    rw
      (
        extend_imm-sign_extend imm hi,
        sub_zero (m.regs s) (m.regs t) hs ht,
        target_mod m.pc (Isa.sign_extend imm),
      )
      (machine-≡ refl refl
        (if-not (m.regs s == m.regs t) (Isa.branch_target m imm) ((m.pc + 4) % u32_mod)))

pub jump_register-step :
    (s : ℕ) (m : Isa.Machine)
    → (let f = r_fields s 0 0 0 0x08 in outcome (decode_fields f) f m) ≡ step (jump_register s) m
unfolding decode_r step
jump_register-step s m = refl

-- `sll $0, $0, 0` writes register 0 back to itself.
pub nop-step :
    (m : Isa.Machine)
    → m.regs 0 < u32_mod
    → (let f = r_fields 0 0 0 0 0 in outcome (decode_fields f) f m) ≡ step nop m
unfolding decode_r generate_control_inputs execute step
nop-step m h = machine-≡ (fun_ext (λ i. ground arith)) refl refl

-- The registers hold words.
abbrev pub RegistersHoldWords : Registers → Type 0
RegistersHoldWords g = (i : ℕ) → (g.r i).value < u32_mod
