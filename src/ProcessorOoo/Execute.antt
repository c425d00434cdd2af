-- ===== src/ProcessorOoo/Execute.antt =====
-- `ProcessorOOO::execute_stage` and `perform_squash` (processorOOO.cpp).
use superscalar_oooprocessor.Base.{
  ℕ, ◌+◌, ◌*◌, ◌/◌, ◌%◌, ◌^◌, Bool, true, false, not, ◌&&◌, ◌||◌, Option, none, some, List, [], ◌∷◌,
  if◌then◌else◌, bit_or,
}
use superscalar_oooprocessor.Config.{u32_mod, u64_mod}
use superscalar_oooprocessor.Control.{Control}
use superscalar_oooprocessor.Alu.{generate_control_inputs, execute, extend_imm}
use superscalar_oooprocessor.MemoryOoo.{probe_l1}
use superscalar_oooprocessor.PhysicalRegisterFile.{PhysicalRegisterFile, read}
use superscalar_oooprocessor.LoadStoreQueue.{
  LoadStoreQueue, set_load, set_store, try_forward, mark_load_complete,
}
use superscalar_oooprocessor.LoadStoreQueue
use superscalar_oooprocessor.ReorderBuffer
use superscalar_oooprocessor.InstructionQueue.{IqInstr}
use superscalar_oooprocessor.InstructionQueue
use superscalar_oooprocessor.FunctionalUnits.{FunctionalUnit}
use superscalar_oooprocessor.FunctionalUnits
use superscalar_oooprocessor.BranchPredictor.{BranchPredictor, target_match, update_entry}
use superscalar_oooprocessor.NonBlockingCache.{allocate_mshr}
use superscalar_oooprocessor.NonBlockingCache
use superscalar_oooprocessor.ProcessorOoo.State.{
  Core, Squash, no_squash, free_if_id, free_id_rn, request_squash,
}

abbrev pub imm_operand : IqInstr → ℕ
imm_operand i = extend_imm i.control.zero_extend i.imm

-- The operands, and the ALU's result with the zero flag.
unfoldable pub run_alu : PhysicalRegisterFile → IqInstr → ℕ × Bool
run_alu p i =
    execute (generate_control_inputs i.control.alu_op i.funct i.opcode)
      (if i.control.shift then i.shamt else read p i.rs)
      (if i.control.alu_src then imm_operand i else read p i.rt)

-- `branch_taken` as it is first computed.
abbrev pub taken_test : Control → Bool → Bool
taken_test k alu_zero = (k.bne && not alu_zero) || (not k.bne && alu_zero)

abbrev pub is_jump : Control → Bool
is_jump k = k.jump || k.jump_reg

-- `target`
unfoldable pub target_of : PhysicalRegisterFile → IqInstr → Bool → ℕ
target_of p i alu_zero =
    let next = (i.pc + 4) % u32_mod in
    if taken_test i.control alu_zero
    then (next + imm_operand i * 4) % u32_mod
    else if i.control.jump
    then bit_or (next / 2 ^ 28 * 2 ^ 28) (i.addr * 4)
    else if i.control.jump_reg
    then read p i.rs
    else next

-- The block "branch instrs": the predictor learns, and a misprediction asks for a squash.
unfoldable pub resolve_branch :
    BranchPredictor → Squash → IqInstr → ℕ → Bool → BranchPredictor × Squash
resolve_branch bp sq i target alu_zero =
    let taken = taken_test i.control alu_zero || is_jump i.control in
    let differs = if taken then not i.branch_taken else i.branch_taken in
    let mispredict = differs || not (target_match bp i.pc target) in
    let learnt = update_entry bp taken i.pc target in
    (
      record learnt {
        total_branches = (bp.total_branches + 1) % u64_mod;
        mispredictions =
            if mispredict then (bp.mispredictions + 1) % u64_mod else bp.mispredictions;
      },
      if mispredict then request_squash sq i.seq target else sq,
    )

-- The end of the body: branches, and the result of the unit.
unfoldable pub finish_unit : Core → FunctionalUnit → ℕ → Bool → ℕ → Core × FunctionalUnit
finish_unit c u alu_result alu_zero load_result =
    let i = u.instr in
    let (bp', sq') = resolve_branch c.bp c.pending_squash i (target_of c.prf i alu_zero) alu_zero in
    (
      (if i.control.branch || (i.control.jump || i.control.jump_reg)
          then record c { bp = bp'; pending_squash = sq' }
          else c),
      record u {
        result = if i.control.mem_read then load_result else alu_result;
        result_instr = i;
        has_result = true;
        ready = true;
      },
    )

-- The branch of the loads: forwarding, then L1, then an MSHR.
unfoldable pub execute_load : Core → FunctionalUnit → ℕ → Bool → ℕ → Core × FunctionalUnit
execute_load c u alu_result alu_zero index =
    let q =
      set_load c.lsq index (record (c.lsq.lq index) { addr = alu_result; addr_ready = true }) in
    let seq = (c.lsq.lq index).seq in
    let completed = mark_load_complete q seq in
    let (probed, memory') = probe_l1 c.memory alu_result in
    let (success, d_nbc') =
      allocate_mshr c.d_nbc alu_result u.instr.rob_index u.instr.rd u.instr.seq in
    elim (try_forward q seq) [
      | some val ↦ finish_unit (record c { lsq = completed }) u alu_result alu_zero val
      | none ↦ elim probed [
        | some val ↦
            finish_unit (record c { lsq = completed; memory = memory' }) u alu_result alu_zero val
        | none ↦ (
          record c { lsq = q; memory = memory'; d_nbc = d_nbc' },
          if success then record u { ready = true; has_result = false } else u,
        )
      ]
    ]

-- The branch of the stores, up to the end of the body.
unfoldable pub execute_store : Core → ℕ → ℕ → Core
execute_store c index alu_result =
    let e = c.lsq.sq index in
    record c {
      lsq =
          set_store c.lsq index
            (record e { addr = alu_result; addr_ready = true; data_word = read c.prf e.src });
    }

-- The body of the loop for one unit. `none` is an access through the index -1.
unfoldable pub execute_unit : Core → FunctionalUnit → Option (Core × FunctionalUnit)
execute_unit c u =
    let i = u.instr in
    let (alu_result, alu_zero) = run_alu c.prf i in
    if u.ready
    then some (c, u)
    else if i.control.mem_read
    then elim i.load_index [
      | none ↦ none
      | some index ↦ some (execute_load c u alu_result alu_zero index)
    ]
    else if i.control.mem_write
    then elim i.store_index [
      | none ↦ none
      | some index ↦ some (finish_unit (execute_store c index alu_result) u alu_result alu_zero 0)
    ]
    else some (finish_unit c u alu_result alu_zero 0)

-- The loop over the units; it does not look at `c.fu`.
unfoldable pub execute_units : Core → List FunctionalUnit → Option (Core × List FunctionalUnit)
execute_units c [] = some (c, [])
execute_units c (u ∷ us) = elim (execute_unit c u) [
  | none ↦ none
  | some (c', u') ↦ elim (execute_units c' us) [
    | none ↦ none
    | some (c'', us') ↦ some (c'', u' ∷ us')
  ]
]

-- `perform_squash`
unfoldable pub perform_squash : Core → Core
perform_squash c =
    let seq = c.pending_squash.seq in
    let (rob', prf') = ReorderBuffer.squash c.rob seq c.prf in
    record c {
      iq = InstructionQueue.squash c.iq seq;
      fu = FunctionalUnits.squash c.fu seq;
      rob = rob';
      prf = record prf' { pc = c.pending_squash.target_pc };
      lsq = LoadStoreQueue.squash c.lsq seq;
      d_nbc = NonBlockingCache.squash c.d_nbc seq;
      if_id_buffer = λ i. free_if_id (c.if_id_buffer i);
      id_rn_buffer = λ i. free_id_rn (c.id_rn_buffer i);
      pending_squash = no_squash;
    }

unfoldable pub execute_stage : Core → Option Core
unfolding execute_units
execute_stage c = elim (execute_units c c.fu) [
  | none ↦ none
  | some (c', us) ↦
      (let c'' = record c' { fu = us } in
        some (if c''.pending_squash.pending then perform_squash c'' else c''))
]
