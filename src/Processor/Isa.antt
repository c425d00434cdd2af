-- ===== src/Processor/Isa.antt =====
-- The instructions that the single-cycle processor is specified by: their encoding as words, and
-- what the processor makes of each. It takes no exceptions, has no delay slots, and accesses a byte
-- or a halfword at the low end of the word that holds the address; Processor/Manual says which of
-- this the MIPS manual prescribes.
use superscalar_oooprocessor.Base.{
  ℕ, ◌+◌, ◌-◌, ◌*◌, ◌/◌, ◌%◌, ◌^◌, ◌<◌, ◌≢◌, bit_and, bit_or, ◌==◌, ltb, if◌then◌else◌, update,
}
use superscalar_oooprocessor.Config.{u32_mod}

-- `regs` by number, `mem` by word index.
pub record Machine : Type 0 where
  pub regs : ℕ → ℕ
  pub mem : ℕ → ℕ
  pub pc : ℕ

-- The R-type instructions with two source registers.
pub data Operation : Type 0 where
  add : Operation
  addu : Operation
  sub : Operation
  subu : Operation
  bitwise_and : Operation
  bitwise_or : Operation
  bitwise_nor : Operation
  slt : Operation

pub data Shift : Type 0 where
  sll : Shift
  srl : Shift

-- The I-type instructions with one source register.
pub data Immediate : Type 0 where
  addi : Immediate
  addiu : Immediate
  slti : Immediate
  andi : Immediate
  ori : Immediate
  lui : Immediate

pub data Width : Type 0 where
  word : Width
  halfword : Width
  byte : Width

-- Destinations come first, then sources, then the immediate.
pub data Instr : Type 0 where
  operate : Operation → ℕ → ℕ → ℕ → Instr
  shift : Shift → ℕ → ℕ → ℕ → Instr
  immediate : Immediate → ℕ → ℕ → ℕ → Instr
  load : Width → ℕ → ℕ → ℕ → Instr
  store : Width → ℕ → ℕ → ℕ → Instr
  branch_equal : ℕ → ℕ → ℕ → Instr
  branch_not_equal : ℕ → ℕ → ℕ → Instr
  jump_register : ℕ → Instr
  nop : Instr

abbrev pub operation_funct : Operation → ℕ
operation_funct add = 0x20
operation_funct addu = 0x21
operation_funct sub = 0x22
operation_funct subu = 0x23
operation_funct bitwise_and = 0x24
operation_funct bitwise_or = 0x25
operation_funct bitwise_nor = 0x27
operation_funct slt = 0x2a

abbrev pub shift_funct : Shift → ℕ
shift_funct sll = 0x00
shift_funct srl = 0x02

abbrev pub immediate_opcode : Immediate → ℕ
immediate_opcode addi = 0x8
immediate_opcode addiu = 0x9
immediate_opcode slti = 0xa
immediate_opcode andi = 0xc
immediate_opcode ori = 0xd
immediate_opcode lui = 0xf

abbrev pub load_opcode : Width → ℕ
load_opcode word = 0x23
load_opcode byte = 0x24
load_opcode halfword = 0x25

abbrev pub store_opcode : Width → ℕ
store_opcode byte = 0x28
store_opcode halfword = 0x29
store_opcode word = 0x2b

-- The two layouts of a word.
abbrev pub r_word : ℕ → ℕ → ℕ → ℕ → ℕ → ℕ
r_word s t d shamt funct = s * 2 ^ 21 + t * 2 ^ 16 + d * 2 ^ 11 + shamt * 2 ^ 6 + funct

abbrev pub i_word : ℕ → ℕ → ℕ → ℕ → ℕ
i_word opcode s t imm = opcode * 2 ^ 26 + s * 2 ^ 21 + t * 2 ^ 16 + imm

unfoldable pub encode : Instr → ℕ
encode (operate op d s t) = r_word s t d 0 (operation_funct op)
encode (shift op d t shamt) = r_word 0 t d shamt (shift_funct op)
encode (immediate op t s imm) = i_word (immediate_opcode op) s t imm
encode (load w t s imm) = i_word (load_opcode w) s t imm
encode (store w t s imm) = i_word (store_opcode w) s t imm
encode (branch_equal s t imm) = i_word 0x4 s t imm
encode (branch_not_equal s t imm) = i_word 0x5 s t imm
encode (jump_register s) = r_word s 0 0 0 0x08
encode nop = 0

abbrev pub IsRegister : ℕ → Type 0
IsRegister r = r < 2 ^ 5

abbrev pub IsImmediate : ℕ → Type 0
IsImmediate imm = imm < 2 ^ 16

-- The fields fit, and the destination is not the constant register 0, which the processor writes like
-- any other.
unfoldable pub IsEncodable : Instr → Type 0
IsEncodable (operate op d s t) = IsRegister d × IsRegister s × IsRegister t × (d ≢ 0)
IsEncodable (shift op d t shamt) = IsRegister d × IsRegister t × IsRegister shamt × (d ≢ 0)
IsEncodable (immediate op t s imm) = IsRegister t × IsRegister s × IsImmediate imm × (t ≢ 0)
IsEncodable (load w t s imm) = IsRegister t × IsRegister s × IsImmediate imm × (t ≢ 0)
IsEncodable (store w t s imm) = IsRegister t × IsRegister s × IsImmediate imm
IsEncodable (branch_equal s t imm) = IsRegister s × IsRegister t × IsImmediate imm
IsEncodable (branch_not_equal s t imm) = IsRegister s × IsRegister t × IsImmediate imm
IsEncodable (jump_register s) = IsRegister s
IsEncodable nop = Unit

-- A 16-bit number in two's complement as a word.
abbrev pub sign_extend : ℕ → ℕ
sign_extend imm = if ltb imm (2 ^ 15) then imm else imm + (2 ^ 32 - 2 ^ 16)

-- Whether a word is less than another as a signed number, from their signs.
abbrev pub less_than : ℕ → ℕ → ℕ
less_than a b =
    if ltb a (2 ^ 31)
    then (if ltb b (2 ^ 31) then (if ltb a b then 1 else 0) else 0)
    else if ltb b (2 ^ 31)
    then 1
    else if ltb a b
    then 1
    else 0

abbrev pub operation_result : Operation → ℕ → ℕ → ℕ
operation_result add a b = (a + b) % u32_mod
operation_result addu a b = (a + b) % u32_mod
operation_result sub a b = (a + u32_mod - b) % u32_mod
operation_result subu a b = (a + u32_mod - b) % u32_mod
operation_result bitwise_and a b = bit_and a b
operation_result bitwise_or a b = bit_or a b
operation_result bitwise_nor a b = u32_mod - 1 - bit_or a b
operation_result slt a b = less_than a b

abbrev pub shift_result : Shift → ℕ → ℕ → ℕ
shift_result sll b shamt = b * 2 ^ shamt % u32_mod
shift_result srl b shamt = b / 2 ^ shamt

abbrev pub immediate_result : Immediate → ℕ → ℕ → ℕ
immediate_result addi a imm = (a + sign_extend imm) % u32_mod
immediate_result addiu a imm = (a + sign_extend imm) % u32_mod
immediate_result slti a imm = less_than a (sign_extend imm)
immediate_result andi a imm = bit_and a imm
immediate_result ori a imm = bit_or a imm
immediate_result lui a imm = imm * 2 ^ 16

abbrev pub loaded : Width → ℕ → ℕ
loaded word w = w
loaded halfword w = w % 2 ^ 16
loaded byte w = w % 2 ^ 8

abbrev pub stored : Width → ℕ → ℕ → ℕ
stored word old new = new
stored halfword old new = old / 2 ^ 16 * 2 ^ 16 + new % 2 ^ 16
stored byte old new = old / 2 ^ 8 * 2 ^ 8 + new % 2 ^ 8

-- The next instruction, after a register was written. Register 0 is constant.
abbrev pub set_register : Machine → ℕ → ℕ → Machine
set_register m d value = record {
  regs = if d == 0 then m.regs else update m.regs d value;
  mem = m.mem;
  pc = (m.pc + 4) % u32_mod;
}

-- The index of the word at a base register and an offset.
abbrev pub word_index : Machine → ℕ → ℕ → ℕ
word_index m s imm = (m.regs s + sign_extend imm) % u32_mod / 4

abbrev pub branch_target : Machine → ℕ → ℕ
branch_target m imm = (m.pc + 4 + sign_extend imm * 4) % u32_mod

unfoldable pub step : Instr → Machine → Machine
step (operate op d s t) m = set_register m d (operation_result op (m.regs s) (m.regs t))
step (shift op d t shamt) m = set_register m d (shift_result op (m.regs t) shamt)
step (immediate op t s imm) m = set_register m t (immediate_result op (m.regs s) imm)
step (load w t s imm) m = set_register m t (loaded w (m.mem (word_index m s imm)))
step (store w t s imm) m =
    let i = word_index m s imm in
    record {
      regs = m.regs;
      mem = update m.mem i (stored w (m.mem i) (m.regs t));
      pc = (m.pc + 4) % u32_mod;
    }
step (branch_equal s t imm) m = record m {
  pc = if m.regs s == m.regs t then branch_target m imm else (m.pc + 4) % u32_mod;
}
step (branch_not_equal s t imm) m = record m {
  pc = if m.regs s == m.regs t then (m.pc + 4) % u32_mod else branch_target m imm;
}
step (jump_register s) m = record m { pc = m.regs s }
step nop m = record m { pc = (m.pc + 4) % u32_mod }
