-- ===== src/Control.antt =====
-- control.h: the control signals and the instruction decoder, and the field extraction that every
-- processor does beside it.
pub mod Classes
use superscalar_oooprocessor.Base.{
  ℕ, ◌/◌, ◌%◌, ◌^◌, Bool, true, false, ◌&&◌, ◌||◌, ◌==◌, leb, if◌then◌else◌,
}

-- `control_t`. `ALU_op` is a field of two bits.
pub record Control : Type 0 where
  pub reg_dest : Bool
  pub jump : Bool
  pub jump_reg : Bool
  pub link : Bool
  pub shift : Bool
  pub branch : Bool
  pub bne : Bool
  pub mem_read : Bool
  pub mem_to_reg : Bool
  pub alu_op : ℕ
  pub mem_write : Bool
  pub halfword : Bool
  pub byte : Bool
  pub alu_src : Bool
  pub reg_write : Bool
  pub zero_extend : Bool

-- `control_t::reset`
abbrev pub reset : Control
reset = record {
  reg_dest = false;
  jump = false;
  jump_reg = false;
  link = false;
  shift = false;
  branch = false;
  bne = false;
  mem_read = false;
  mem_to_reg = false;
  alu_op = 0;
  mem_write = false;
  halfword = false;
  byte = false;
  alu_src = false;
  reg_write = false;
  zero_extend = false;
}

-- The fields of an instruction word: `(inst >> k) & mask` with a mask of ones.
abbrev pub opcode_of : ℕ → ℕ
opcode_of inst = inst / 2 ^ 26 % 2 ^ 6

abbrev pub rs_of : ℕ → ℕ
rs_of inst = inst / 2 ^ 21 % 2 ^ 5

abbrev pub rt_of : ℕ → ℕ
rt_of inst = inst / 2 ^ 16 % 2 ^ 5

abbrev pub rd_of : ℕ → ℕ
rd_of inst = inst / 2 ^ 11 % 2 ^ 5

abbrev pub shamt_of : ℕ → ℕ
shamt_of inst = inst / 2 ^ 6 % 2 ^ 5

abbrev pub funct_of : ℕ → ℕ
funct_of inst = inst % 2 ^ 6

abbrev pub imm_of : ℕ → ℕ
imm_of inst = inst % 2 ^ 16

abbrev pub addr_of : ℕ → ℕ
addr_of inst = inst % 2 ^ 26

-- The R-type branch of `decode`, from the low six bits.
unfoldable pub decode_r : ℕ → Control
decode_r funct =
    let r = record reset { reg_dest = true; reg_write = true; alu_op = 2 } in
    let j =
      if funct == 0x08
      then record r {
        reg_dest = false;
        reg_write = false;
        alu_op = 0;
        jump = true;
        jump_reg = true;
      }
      else r in
    if funct == 0x0 || funct == 0x2 then record j { shift = true } else j

-- The J-type branch.
unfoldable pub decode_j : ℕ → Control
decode_j opcode =
    let j = record reset { jump = true } in
    if opcode == 0x3 then record j { link = true; reg_write = true } else j

-- The I-type branch: branches, stores, loads, and all other opcodes.
unfoldable pub decode_i : ℕ → Control
decode_i opcode =
    let i = record reset { alu_src = true } in
    if opcode == 0x4 || opcode == 0x5
    then (let b = record i { branch = true; alu_op = 1; alu_src = false } in
        if opcode == 0x5 then record b { bne = true } else b)
    else if opcode == 0x2b || (opcode == 0x28 || opcode == 0x29)
    then (let s = record i { mem_write = true } in
        if opcode == 0x28
        then record s { byte = true }
        else if opcode == 0x29
        then record s { halfword = true }
        else s)
    else if (leb 0x23 opcode && leb opcode 0x25) || opcode == 0x30
    then (let l = record i { mem_read = true; mem_to_reg = true; reg_write = true } in
        if opcode == 0x24
        then record l { byte = true }
        else if opcode == 0x25
        then record l { halfword = true }
        else l)
    else (let o = record i { reg_write = true; alu_op = 3 } in
        if opcode == 0xc || opcode == 0xd then record o { zero_extend = true } else o)

-- `control_t::decode`
unfoldable pub decode : ℕ → Control
unfolding decode_r decode_j decode_i
decode inst =
    let opcode = opcode_of inst in
    if opcode == 0
    then decode_r (funct_of inst)
    else if opcode == 0x2 || opcode == 0x3
    then decode_j opcode
    else decode_i opcode
