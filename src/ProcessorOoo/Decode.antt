-- ===== src/ProcessorOoo/Decode.antt =====
-- `ProcessorOOO::decode_stage` and `update_reg_src_usage` (processorOOO.cpp).
use superscalar_oooprocessor.Base.{
  ℕ, zero, suc, Bool, true, false, not, ◌&&◌, ◌||◌, Option, none, some, ◌==◌, if◌then◌else◌, update,
}
use superscalar_oooprocessor.Config.{pipeline_width}
use superscalar_oooprocessor.Control.{
  decode, opcode_of, rs_of, rt_of, rd_of, shamt_of, funct_of, imm_of, addr_of,
}
use superscalar_oooprocessor.ProcessorOoo.State.{
  Core, IfId, IdRn, compact_if_id, compact_id_rn, free_if_id,
}

-- The `switch` of `update_reg_src_usage`: `reads_rs` and `reads_rt`.
unfoldable pub reg_src_usage : ℕ → ℕ → Bool × Bool
reg_src_usage opcode funct =
    if opcode == 0x00
    then (
      not (funct == 0x00) && not (funct == 0x02) && not (funct == 0x03),
      not (funct == 0x08) && not (funct == 0x09),
    )
    else if opcode == 0x02 || opcode == 0x03
    then (false, false)
    else if opcode == 0x0f
    then (false, false)
    else if opcode == 0x04 || opcode == 0x05
    then (true, true)
    else if opcode == 0x01 || opcode == 0x06 || opcode == 0x07
    then (true, false)
    else if opcode == 0x23 || opcode == 0x20 || opcode == 0x21 || opcode == 0x24 || opcode == 0x25
    then (true, false)
    else if opcode == 0x2b || opcode == 0x28 || opcode == 0x29
    then (true, true)
    else (true, false)

-- The body of the loop once a source slot is found.
unfoldable pub decode_slot : IfId → IdRn
decode_slot s =
    let inst = s.instruction in
    let (reads_rs, reads_rt) = reg_src_usage (opcode_of inst) (funct_of inst) in
    record {
      pc = s.pc;
      rs = rs_of inst;
      rt = rt_of inst;
      rd = rd_of inst;
      imm = imm_of inst;
      shamt = shamt_of inst;
      addr = addr_of inst;
      opcode = opcode_of inst;
      funct = funct_of inst;
      reads_rs = reads_rs;
      reads_rt = reads_rt;
      control = decode inst;
      in_use = true;
      branch_taken = s.branch_taken;
    }

-- The inner loop: the first slot in use from `j` on.
unfoldable pub first_in_use : (ℕ → IfId) → ℕ → ℕ → Option ℕ
first_in_use buf zero j = none
first_in_use buf (suc n) j = if (buf j).in_use then some j else first_in_use buf n (suc j)

-- The outer loop over the slots from `i` on.
unfoldable pub decode_from : ℕ → ℕ → (ℕ → IfId) → (ℕ → IdRn) → (ℕ → IfId) × (ℕ → IdRn)
decode_from zero i if_id id_rn = (if_id, id_rn)
decode_from (suc n) i if_id id_rn = elim ((id_rn i).in_use) [
  | true ↦ decode_from n (suc i) if_id id_rn
  | false ↦ elim (first_in_use if_id pipeline_width 0) [
    | none ↦ (if_id, id_rn)
    | some src ↦
        decode_from n (suc i) (update if_id src (free_if_id (if_id src)))
          (update id_rn i (decode_slot (if_id src)))
  ]
]

unfoldable pub decode_stage : Core → Core
unfolding compact_if_id compact_id_rn decode_from
decode_stage c =
    let (w, id_rn) = compact_id_rn c.id_rn_buffer in
    let (wf, if_id) = compact_if_id c.if_id_buffer in
    let (if_id', id_rn') = decode_from pipeline_width 0 if_id id_rn in
    record c { if_id_buffer = if_id'; id_rn_buffer = id_rn' }
