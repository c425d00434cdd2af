-- ===== src/Alu.antt =====
-- ALU.h: the control inputs of the ALU and its operations on 32-bit words.
pub mod Laws
use superscalar_oooprocessor.Base.{
  ℕ, ◌+◌, ◌-◌, ◌*◌, ◌/◌, ◌%◌, ◌^◌, bit_and, bit_or, Bool, ◌||◌, ltb, ◌==◌, if◌then◌else◌,
}
use superscalar_oooprocessor.Config.{u32_mod}

-- The `switch` on `funct` for R-type instructions.
unfoldable pub r_type_inputs : ℕ → ℕ
r_type_inputs funct =
    if funct == 0x00
    then 3
    else if funct == 0x02
    then 4
    else if funct == 0x08
    then 2
    else if funct == 0x20 || funct == 0x21
    then 2
    else if funct == 0x22 || funct == 0x23
    then 6
    else if funct == 0x24
    then 0
    else if funct == 0x25
    then 1
    else if funct == 0x27
    then 12
    else if funct == 0x2a || funct == 0x2b
    then 7
    else 2

-- The `switch` on `opcode` for the other I-type instructions.
unfoldable pub i_type_inputs : ℕ → ℕ
i_type_inputs opcode =
    if opcode == 0x8 || opcode == 0x9
    then 2
    else if opcode == 0xa || opcode == 0xb
    then 7
    else if opcode == 0xc
    then 0
    else if opcode == 0xd
    then 1
    else if opcode == 0xf
    then 5
    else 2

-- `ALU::generate_control_inputs`, the value that it stores.
unfoldable pub generate_control_inputs : ℕ → ℕ → ℕ → ℕ
unfolding r_type_inputs i_type_inputs
generate_control_inputs alu_op funct opcode =
    if alu_op == 0
    then 2
    else if alu_op == 1
    then 6
    else if alu_op == 2
    then r_type_inputs funct
    else i_type_inputs opcode

-- `(int)a < (int)b` of two words: adding 2 ^ 31 turns the signed order into the unsigned one.
abbrev pub signed_ltb : ℕ → ℕ → Bool
signed_ltb a b = ltb ((a + 2 ^ 31) % u32_mod) ((b + 2 ^ 31) % u32_mod)

-- The `switch` of `ALU::execute`. A shift by 32 or more is undefined in the source.
unfoldable pub alu_result : ℕ → ℕ → ℕ → ℕ
alu_result inputs operand_1 operand_2 =
    if inputs == 0
    then bit_and operand_1 operand_2
    else if inputs == 1
    then bit_or operand_1 operand_2
    else if inputs == 2
    then (operand_1 + operand_2) % u32_mod
    else if inputs == 3
    then operand_2 * 2 ^ operand_1 % u32_mod
    else if inputs == 4
    then operand_2 / 2 ^ operand_1
    else if inputs == 5
    then operand_2 * 2 ^ 16 % u32_mod
    else if inputs == 6
    then (operand_1 + u32_mod - operand_2) % u32_mod
    else if inputs == 7
    then (if signed_ltb operand_1 operand_2 then 1 else 0)
    else if inputs == 12
    then u32_mod - 1 - bit_or operand_1 operand_2
    else (operand_1 + operand_2) % u32_mod

-- `ALU::execute`: the result, and whether `ALU_zero` is set.
unfoldable pub execute : ℕ → ℕ → ℕ → ℕ × Bool
unfolding alu_result
execute inputs operand_1 operand_2 =
    let result = alu_result inputs operand_1 operand_2 in (result, result == 0)

-- The immediate operand: zero-extended, or sign-extended by `0xffff0000 | imm`.
unfoldable pub extend_imm : Bool → ℕ → ℕ
extend_imm zero_extend imm =
    if zero_extend then imm else if imm / 2 ^ 15 == 0 then imm else bit_or 0xffff0000 imm
