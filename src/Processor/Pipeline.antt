-- ===== src/Processor/Pipeline.antt =====
-- `Processor::pipelined_processor_advance` and the five stages (processor.cpp).
use superscalar_oooprocessor.Base.{
  ℕ, ◌+◌, ◌*◌, ◌/◌, ◌%◌, ◌^◌, Bool, true, false, not, ◌&&◌, ◌||◌, ◌==◌, if◌then◌else◌, ltb, bit_or,
}
use superscalar_oooprocessor.Config.{u32_mod}
use superscalar_oooprocessor.Control.{
  decode, opcode_of, rs_of, rt_of, rd_of, shamt_of, funct_of, imm_of, addr_of,
}
use superscalar_oooprocessor.Alu.{generate_control_inputs, execute, extend_imm}
use superscalar_oooprocessor.MemoryOoo.{reading}
use superscalar_oooprocessor.Memory.{access}
use superscalar_oooprocessor.Registers.{Registers}
use superscalar_oooprocessor.Registers
use superscalar_oooprocessor.Processor.State.{
  Pipeline, IdEx, ExMem, MemWb, empty_if_id, empty_id_ex,
}
use superscalar_oooprocessor.Processor.SingleCycle.{mask_load}

-- The word that an instruction writes back.
abbrev pub write_data_of : MemWb → ℕ
write_data_of b = if b.control.mem_to_reg then b.read_data_mem else b.alu_out

unfoldable pub writeback_stage : Pipeline → Pipeline
writeback_stage p =
    let b = p.mem_wb in
    let (_, _, g) =
      Registers.access p.regfile 0 0 b.write_reg b.control.reg_write (write_data_of b) in
    record p { regfile = g }

unfoldable pub memory_stage : Pipeline → Pipeline
memory_stage p =
    let e = p.ex_mem in
    let k = e.control in
    let (done, old, memory1) =
      access p.memory e.alu_out 0
        (record { write_data = 0; mem_read = k.mem_read || k.mem_write; mem_write = false }) in
    let (_, word, memory2) =
      access memory1 e.alu_out old (record {
        write_data = e.write_data_mem;
        mem_read = k.mem_read;
        mem_write = k.mem_write;
      }) in
    if done
    then record p {
      memory = memory2;
      memory_stall = false;
      mem_wb = record {
        read_data_mem = mask_load k word;
        alu_out = e.alu_out;
        write_reg = e.write_reg;
        rt = e.rt;
        rd = e.rd;
        control = k;
      };
    }
    else record p { memory = memory1; memory_stall = true }

-- `mem_dest` and `ex_dest`
abbrev pub mem_dest : MemWb → ℕ
mem_dest b = if b.control.reg_dest then b.rd else b.rt

abbrev pub ex_dest : ExMem → ℕ
ex_dest e = if e.control.reg_dest then e.rd else e.rt

-- Forwarding for one source register: the value of `mem_wb_prev`, then that of `ex_mem`.
unfoldable pub forward : MemWb → ExMem → ℕ → ℕ → ℕ
forward b e reg read_data =
    let older =
      if b.control.reg_write && not (mem_dest b == 0) && (mem_dest b == reg)
      then (if b.control.mem_read then b.read_data_mem else b.alu_out)
      else read_data in
    if e.control.reg_write && not (ex_dest e == 0) && (ex_dest e == reg) then e.alu_out else older

-- The target that `execute_stage` gives to `regfile.pc`, `d` having its forwarded operands.
unfoldable pub redirect : IdEx → Bool → ℕ → ℕ
redirect d branch_taken imm =
    if branch_taken
    then (d.pc + 4 + imm * 4) % u32_mod
    else if d.control.jump
    then bit_or (d.pc / 2 ^ 28 * 2 ^ 28) (d.addr * 4)
    else d.read_data_1

-- The operands after forwarding.
abbrev pub forwarded : Pipeline → IdEx
forwarded p = record p.id_ex {
  read_data_1 = forward p.mem_wb_prev p.ex_mem p.id_ex.rs p.id_ex.read_data_1;
  read_data_2 = forward p.mem_wb_prev p.ex_mem p.id_ex.rt p.id_ex.read_data_2;
}

unfoldable pub execute_stage : Pipeline → Pipeline
execute_stage p =
    let d = forwarded p in
    let k = d.control in
    let imm = extend_imm k.zero_extend d.imm in
    let (alu_result, alu_zero) =
      execute (generate_control_inputs k.alu_op d.funct d.opcode)
        (if k.shift then d.shamt else d.read_data_1) (if k.alu_src then imm else d.read_data_2) in
    let branch_taken = k.branch && ((k.bne && not alu_zero) || (not k.bne && alu_zero)) in
    let executed = record p {
      id_ex = d;
      ex_mem = record {
        alu_zero = alu_zero;
        alu_out = alu_result;
        write_data_mem = d.read_data_2;
        write_reg = if k.reg_dest then d.rd else d.rt;
        addr = d.addr;
        branch_reg = d.read_data_1;
        rt = d.rt;
        rd = d.rd;
        control = k;
      };
    } in
    if p.memory_stall
    then p
    else if branch_taken || (k.jump || k.jump_reg)
    then record executed {
      regfile = record p.regfile { pc = redirect d branch_taken imm };
      if_id = empty_if_id;
      id_ex = empty_id_ex;
    }
    else executed

unfoldable pub decode_stage : Pipeline → Pipeline
decode_stage p =
    let inst = p.if_id.instruction in
    let rs = rs_of inst in
    let rt = rt_of inst in
    let (read_data_1, read_data_2, _) = Registers.access p.regfile rs rt 0 false 0 in
    if p.memory_stall
    then p
    else if p.id_ex.control.mem_read && ((p.id_ex.rt == rs) || (p.id_ex.rt == rt))
    then record p { id_ex = empty_id_ex; load_use_stall = true }
    else record p {
      load_use_stall = false;
      id_ex = record {
        pc = p.if_id.pc;
        read_data_1 = read_data_1;
        read_data_2 = read_data_2;
        imm = imm_of inst;
        rt = rt;
        rd = rd_of inst;
        rs = rs;
        opcode = opcode_of inst;
        funct = funct_of inst;
        shamt = shamt_of inst;
        addr = addr_of inst;
        control = decode inst;
      };
    }

unfoldable pub fetch_stage : Pipeline → Pipeline
fetch_stage p =
    let (done, instruction, memory') = access p.memory p.regfile.pc 0 reading in
    if p.load_use_stall || p.memory_stall
    then p
    else if done
    then record p {
      memory = memory';
      if_id = record { pc = p.regfile.pc; instruction = instruction };
      regfile = record p.regfile { pc = (p.regfile.pc + 4) % u32_mod };
    }
    else record p { memory = memory' }

-- The five stages, the last one first, and the history of `pc` that `getPC` reports.
unfoldable pub pipelined_processor_advance : Pipeline → Pipeline
pipelined_processor_advance p =
    let snapshot = record p { mem_wb_prev = p.mem_wb } in
    let p' = fetch_stage (decode_stage (execute_stage (memory_stage (writeback_stage snapshot)))) in
    record p' {
      pc_history = λ i.
          if ltb i 5
          then p.pc_history (i + 1)
          else if i == 5
          then p'.regfile.pc
          else p.pc_history i;
    }
