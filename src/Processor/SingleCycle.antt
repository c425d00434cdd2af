-- ===== src/Processor/SingleCycle.antt =====
-- `Processor::single_cycle_processor_advance` (processor.cpp).
use superscalar_oooprocessor.Base.{
  ℕ, ◌+◌, ◌*◌, ◌/◌, ◌%◌, ◌^◌, Bool, false, not, ◌&&◌, ◌||◌, if◌then◌else◌, bit_and, bit_or,
}
use superscalar_oooprocessor.Config.{u32_mod}
use superscalar_oooprocessor.Control.{
  Control, decode, opcode_of, rs_of, rt_of, rd_of, shamt_of, funct_of, imm_of, addr_of,
}
use superscalar_oooprocessor.Alu.{generate_control_inputs, execute, extend_imm}
use superscalar_oooprocessor.MemoryOoo.{reading}
use superscalar_oooprocessor.Memory.{Memory, access}
use superscalar_oooprocessor.Registers.{Registers}
use superscalar_oooprocessor.Registers

-- The fields of the instruction word.
pub record Fields : Type 0 where
  pub opcode : ℕ
  pub rs : ℕ
  pub rt : ℕ
  pub rd : ℕ
  pub shamt : ℕ
  pub funct : ℕ
  pub imm : ℕ
  pub addr : ℕ

abbrev pub fields_of : ℕ → Fields
fields_of inst = record {
  opcode = opcode_of inst;
  rs = rs_of inst;
  rt = rt_of inst;
  rd = rd_of inst;
  shamt = shamt_of inst;
  funct = funct_of inst;
  imm = imm_of inst;
  addr = addr_of inst;
}

-- `sb` and `sh` keep the other bits of the word.
abbrev pub merge_store : Control → ℕ → ℕ → ℕ
merge_store k old new =
    if k.halfword
    then bit_or (old / 2 ^ 16 * 2 ^ 16) (new % 2 ^ 16)
    else if k.byte
    then bit_or (old / 2 ^ 8 * 2 ^ 8) (new % 2 ^ 8)
    else new

-- `lbu` and `lhu` mask the word; the mask `0xffffffff` keeps it.
abbrev pub mask_load : Control → ℕ → ℕ
mask_load k word = if k.halfword then word % 2 ^ 16 else if k.byte then word % 2 ^ 8 else word

-- "Update PC", from the incremented `pc`.
abbrev pub next_pc : Control → Bool → ℕ → ℕ → ℕ → ℕ → ℕ
next_pc k alu_zero pc imm addr read_data_1 =
    let branched =
      if (k.branch && not k.bne && alu_zero) || (k.bne && not alu_zero)
      then (pc + imm * 4) % u32_mod
      else pc in
    if k.jump_reg
    then read_data_1
    else if k.jump
    then bit_and (branched / 2 ^ 28 * 2 ^ 28) (addr * 4)
    else branched

-- The body from the register file's read on; `g` has the incremented `pc`.
unfoldable pub complete : Control → Fields → Memory → Registers → Memory × Registers
complete k f memory g =
    let (read_data_1, read_data_2, _) = Registers.access g f.rs f.rt 0 false 0 in
    let inputs = generate_control_inputs k.alu_op f.funct f.opcode in
    let imm = extend_imm k.zero_extend f.imm in
    let operand_1 = if k.shift then f.shamt else read_data_1 in
    let operand_2 = if k.alu_src then imm else read_data_2 in
    let (alu_result, alu_zero) = execute inputs operand_1 operand_2 in
    let (_, old, memory1) =
      access memory alu_result 0
        (record { write_data = 0; mem_read = k.mem_read || k.mem_write; mem_write = false }) in
    let (_, word, memory2) = access memory1 alu_result old (record {
      write_data = merge_store k old read_data_2;
      mem_read = k.mem_read;
      mem_write = k.mem_write;
    }) in
    let write_reg = if k.link then 31 else if k.reg_dest then f.rd else f.rt in
    let write_data =
      if k.link
      then (g.pc + 8) % u32_mod
      else if k.mem_to_reg
      then mask_load k word
      else alu_result in
    let (_, _, g') = Registers.access g 0 0 write_reg k.reg_write write_data in
    (memory2, record g' { pc = next_pc k alu_zero g'.pc imm f.addr read_data_1 })

-- The whole cycle. The word that is fetched has no value before the access, which always succeeds
-- where this processor runs, at the level 0.
unfoldable pub single_cycle_processor_advance : Memory → Registers → Memory × Registers
unfolding complete
single_cycle_processor_advance memory g =
    let (_, instruction, memory') = access memory g.pc 0 reading in
    complete (decode instruction) (fields_of instruction) memory'
      (record g { pc = (g.pc + 4) % u32_mod })
