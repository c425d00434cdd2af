-- ===== src/Alu/Laws.antt =====
-- The ALU against an independent description of what the instructions compute.
use native.Mathlib.Nat.{div-le_self}
use superscalar_oooprocessor.Base.{
  ℕ, ◌+◌, ◌%◌, ◌^◌, ◌<◌, ◌≡◌, refl, ◌↔◌, ◌⊎◌, inl, inr, ◌||◌, Bool, true, false, arith, ◌==◌, ltb,
  if◌then◌else◌, bit_or-lt, bit_and-le, bit_or-disjoint, Bool-cases,
}
use superscalar_oooprocessor.Config.{u32_mod}
use superscalar_oooprocessor.Control.{decode, decode_r, decode_j, decode_i, funct_of, opcode_of}
use superscalar_oooprocessor.Alu.{generate_control_inputs, i_type_inputs, execute, extend_imm}

-- Control inputs 3 and 4 are the shifts.
abbrev pub is_shift : ℕ → Bool
is_shift inputs = inputs == 3 || inputs == 4

r_type_shifts :
    (f op : ℕ) → is_shift (generate_control_inputs (decode_r f).alu_op f op) ≡ (decode_r f).shift
unfolding decode_r generate_control_inputs
r_type_shifts f op = ground arith

j_type_shifts :
    (f op : ℕ) → is_shift (generate_control_inputs (decode_j op).alu_op f op) ≡ (decode_j op).shift
unfolding decode_j generate_control_inputs
j_type_shifts f op = ground arith

i_type_no_shift : (op : ℕ) → is_shift (i_type_inputs op) ≡ false
unfolding i_type_inputs
i_type_no_shift op = ground arith

decode_i_quiet :
    (op : ℕ)
    → ((decode_i op).shift ≡ false)
      × (((decode_i op).alu_op ≡ 0) ⊎ (((decode_i op).alu_op ≡ 1) ⊎ ((decode_i op).alu_op ≡ 3)))
unfolding decode_i
decode_i_quiet op = ground arith

i_type_shifts :
    (f op : ℕ) → is_shift (generate_control_inputs (decode_i op).alu_op f op) ≡ (decode_i op).shift
unfolding generate_control_inputs
i_type_shifts f op =
    let (quiet, ops) = decode_i_quiet op in
    elim ops [
      | inl e ↦ rw (quiet, e) refl
      | inr (inl e) ↦ rw (quiet, e) refl
      | inr (inr e) ↦ rw (quiet, e) (i_type_no_shift op)
    ]

-- For every instruction word, the ALU is told to shift exactly if the decoder selects the shift
-- amount as first operand.
pub shift-decode :
    (inst : ℕ)
    → is_shift (generate_control_inputs (decode inst).alu_op (funct_of inst) (opcode_of inst))
      ≡ (decode inst).shift
unfolding decode
shift-decode inst = elim (Bool-cases (opcode_of inst == 0)) [
  | inl r ↦ rw r (r_type_shifts (funct_of inst) (opcode_of inst))
  | inr not_r ↦ elim (Bool-cases (opcode_of inst == 0x2 || opcode_of inst == 0x3)) [
    | inl j ↦ rw (not_r, j) (j_type_shifts (funct_of inst) (opcode_of inst))
    | inr not_j ↦ rw (not_r, not_j) (i_type_shifts (funct_of inst) (opcode_of inst))
  ]
]

-- The zero flag of a subtraction, which decides `beq` and `bne`, tells whether two words are equal.
pub execute-sub_zero : (a b : ℕ) → a < u32_mod → b < u32_mod → ((execute 6 a b).1 ≡ true) ↔ (a ≡ b)
unfolding execute
execute-sub_zero a b ha hb = ground arith

-- A word as a signed number is negative exactly if it is at least 2 ^ 31. `slt` yields 1 exactly if
-- the first word is the smaller one as a signed number, and 0 otherwise.
pub execute-slt :
    (a b : ℕ)
    → a < u32_mod
    → b < u32_mod
    → (execute 7 a b).0 ≡ (
        if ltb a (2 ^ 31)
        then (if ltb b (2 ^ 31) then (if ltb a b then 1 else 0) else 0)
        else if ltb b (2 ^ 31)
        then 1
        else if ltb a b
        then 1
        else 0)
unfolding execute
execute-slt a b ha hb = ground arith

-- Sign extension of a 16-bit immediate keeps its value modulo 2 ^ 16, fits a word, and is the same
-- signed number: adding the offset 2 ^ 15 to either gives one number.
pub extend_imm_signed :
    (imm : ℕ)
    → imm < 2 ^ 16
    → (extend_imm false imm < u32_mod)
      × (extend_imm false imm % 2 ^ 16 ≡ imm)
      × ((extend_imm false imm + 2 ^ 15) % u32_mod ≡ (imm + 2 ^ 15) % 2 ^ 16)
unfolding extend_imm
extend_imm_signed imm h = ground (arith, bit_or-disjoint 16 0xffff imm h)

-- Whatever the control inputs, the result of the ALU on two words is a word, and the zero flag says
-- whether it is 0.
pub execute-lt :
    (inputs a b : ℕ)
    → a < u32_mod
    → b < u32_mod
    → ((execute inputs a b).0 < u32_mod)
      × (((execute inputs a b).1 ≡ true) ↔ ((execute inputs a b).0 ≡ 0))
unfolding execute
execute-lt inputs a b ha hb =
    ground (arith, bit_and-le a b, bit_or-lt 32 a b ha hb, div-le_self b (2 ^ a))
