-- ===== src/Processor/Manual.antt =====
-- What the MIPS manual prescribes for the modelled instructions, for a machine without branch delay
-- slots: memory is little-endian, and an exception has no next state. The processor has neither
-- exceptions nor, for bytes and halfwords, addresses within a word (processor.cpp:106-112).
use superscalar_oooprocessor.Base.{
  ℕ, ◌+◌, ◌*◌, ◌/◌, ◌%◌, ◌^◌, ◌≡◌, refl, sym, ap, ◌∙◌, Bool, true, false, ◌&&◌, Option, none, some,
  ltb, leb, ◌==◌, if◌then◌else◌, update, arith,
}
use superscalar_oooprocessor.Config.{u32_mod}
use superscalar_oooprocessor.Processor.Isa
use superscalar_oooprocessor.Processor.Isa.{
  Machine, Operation, Immediate, Width, Instr, step, add, addu, sub, subu, bitwise_and, bitwise_or,
  bitwise_nor, slt, addi, addiu, slti, andi, ori, lui, word, halfword, byte, operate, shift,
  immediate, load, store, branch_equal, branch_not_equal, jump_register, nop,
}

-- The value of a word as a signed number, plus 2 ^ 31.
abbrev biased : ℕ → ℕ
biased a = (a + 2 ^ 31) % 2 ^ 32

-- The sum and the difference as signed numbers lie between -2 ^ 31 and 2 ^ 31 - 1.
abbrev sum_fits : ℕ → ℕ → Bool
sum_fits a b = leb (2 ^ 31) (biased a + biased b) && ltb (biased a + biased b) (2 ^ 32 + 2 ^ 31)

abbrev difference_fits : ℕ → ℕ → Bool
difference_fits a b = leb (biased b) (biased a + 2 ^ 31) && ltb (biased a) (biased b + 2 ^ 31)

-- `add`, `sub` and `addi` trap on overflow.
abbrev operation_fits : Operation → ℕ → ℕ → Bool
operation_fits add a b = sum_fits a b
operation_fits sub a b = difference_fits a b
operation_fits addu a b = true
operation_fits subu a b = true
operation_fits bitwise_and a b = true
operation_fits bitwise_or a b = true
operation_fits bitwise_nor a b = true
operation_fits slt a b = true

abbrev immediate_fits : Immediate → ℕ → ℕ → Bool
immediate_fits addi a imm = sum_fits a (Isa.sign_extend imm)
immediate_fits addiu a imm = true
immediate_fits slti a imm = true
immediate_fits andi a imm = true
immediate_fits ori a imm = true
immediate_fits lui a imm = true

abbrev pub address : Machine → ℕ → ℕ → ℕ
address m s imm = (m.regs s + Isa.sign_extend imm) % u32_mod

abbrev is_aligned : Width → ℕ → Bool
is_aligned word a = a % 4 == 0
is_aligned halfword a = a % 2 == 0
is_aligned byte a = true

-- The byte at address `a` begins at this place of its word.
abbrev place : ℕ → ℕ
place a = 2 ^ (8 * (a % 4))

abbrev field : Width → ℕ → ℕ → ℕ
field word a w = w
field halfword a w = w / place a % 2 ^ 16
field byte a w = w / place a % 2 ^ 8

-- `size` values of a field at `k` are replaced, those above and below stay.
abbrev replace : ℕ → ℕ → ℕ → ℕ → ℕ
replace size k old new = old / (k * size) * (k * size) + new % size * k + old % k

abbrev with_field : Width → ℕ → ℕ → ℕ → ℕ
with_field word a old new = new
with_field halfword a old new = replace (2 ^ 16) (place a) old new
with_field byte a old new = replace (2 ^ 8) (place a) old new

-- The next state, or `none` for an overflow or an address error.
unfoldable pub prescribed : Instr → Machine → Option Machine
prescribed (operate op d s t) m =
    if operation_fits op (m.regs s) (m.regs t)
    then some (Isa.set_register m d (Isa.operation_result op (m.regs s) (m.regs t)))
    else none
prescribed (shift op d t shamt) m =
    some (Isa.set_register m d (Isa.shift_result op (m.regs t) shamt))
prescribed (immediate op t s imm) m =
    if immediate_fits op (m.regs s) imm
    then some (Isa.set_register m t (Isa.immediate_result op (m.regs s) imm))
    else none
prescribed (load w t s imm) m =
    let a = address m s imm in
    if is_aligned w a then some (Isa.set_register m t (field w a (m.mem (a / 4)))) else none
prescribed (store w t s imm) m =
    let a = address m s imm in
    if is_aligned w a
    then some (record {
      regs = m.regs;
      mem = update m.mem (a / 4) (with_field w a (m.mem (a / 4)) (m.regs t));
      pc = (m.pc + 4) % u32_mod;
    })
    else none
prescribed (branch_equal s t imm) m = some (record m {
  pc = if m.regs s == m.regs t then Isa.branch_target m imm else (m.pc + 4) % u32_mod;
})
prescribed (branch_not_equal s t imm) m = some (record m {
  pc = if m.regs s == m.regs t then (m.pc + 4) % u32_mod else Isa.branch_target m imm;
})
prescribed (jump_register s) m = some (record m { pc = m.regs s })
prescribed nop m = some (record m { pc = (m.pc + 4) % u32_mod })

-- A byte or a halfword is accessed at the address of its word: the processor takes the low end of
-- the word whatever the address is.
abbrev pub AtLowEnd : Width → ℕ → Type 0
AtLowEnd word a = Unit
AtLowEnd halfword a = a % 4 ≡ 0
AtLowEnd byte a = a % 4 ≡ 0

unfoldable pub IsLow : Instr → Machine → Type 0
IsLow (operate op d s t) m = Unit
IsLow (shift op d t shamt) m = Unit
IsLow (immediate op t s imm) m = Unit
IsLow (load w t s imm) m = AtLowEnd w (address m s imm)
IsLow (store w t s imm) m = AtLowEnd w (address m s imm)
IsLow (branch_equal s t imm) m = Unit
IsLow (branch_not_equal s t imm) m = Unit
IsLow (jump_register s) m = Unit
IsLow nop m = Unit

field-low : (w : Width) (a v : ℕ) → AtLowEnd w a → field w a v ≡ Isa.loaded w v
field-low word a v h = refl
field-low halfword a v h = rw h (omega arith)
field-low byte a v h = rw h (omega arith)

with_field-low :
    (w : Width) (a old new : ℕ) → AtLowEnd w a → with_field w a old new ≡ Isa.stored w old new
with_field-low word a old new h = refl
with_field-low halfword a old new h = rw h (omega arith)
with_field-low byte a old new h = rw h (omega arith)

unless_trapped : (fits : Bool) {m m' : Machine} → (if fits then some m else none) ≡ some m' → m ≡ m'
unless_trapped false e = absurd (cc)
unless_trapped true e = cc

-- Where the manual prescribes a next state and no byte or halfword is within its word, the processor
-- goes to it.
pub step-prescribed :
    (i : Instr) (m : Machine) {m' : Machine} → IsLow i m → prescribed i m ≡ some m' → step i m ≡ m'
unfolding step prescribed IsLow
step-prescribed (operate op d s t) m h e =
    unless_trapped (operation_fits op (m.regs s) (m.regs t)) e
step-prescribed (shift op d t shamt) m h e = unless_trapped true e
step-prescribed (immediate op t s imm) m h e = unless_trapped (immediate_fits op (m.regs s) imm) e
step-prescribed (load w t s imm) m h e =
    let a = address m s imm in
    ap (Isa.set_register m t) (sym (field-low w a (m.mem (a / 4)) h))
    ∙ unless_trapped (is_aligned w a) e
step-prescribed (store w t s imm) m h e =
    let a = address m s imm in
    ap (λ v. record { regs = m.regs; mem = update m.mem (a / 4) v; pc = (m.pc + 4) % u32_mod })
      (sym (with_field-low w a (m.mem (a / 4)) (m.regs t) h))
    ∙ unless_trapped (is_aligned w a) e
step-prescribed (branch_equal s t imm) m h e = unless_trapped true e
step-prescribed (branch_not_equal s t imm) m h e = unless_trapped true e
step-prescribed (jump_register s) m h e = unless_trapped true e
step-prescribed nop m h e = unless_trapped true e
