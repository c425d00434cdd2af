-- ===== src/ProcessorOoo/Retire.antt =====
-- `ProcessorOOO::memory_stage`, `writeback_stage` and `commit_stage` (processorOOO.cpp).
use superscalar_oooprocessor.Base.{
  ℕ, zero, suc, ◌+◌, Bool, false, not, ◌&&◌, Option, none, some, List, [], ◌∷◌, ◌==◌, if◌then◌else◌,
  ◌%◌,
}
use superscalar_oooprocessor.Config.{pipeline_width, u32_mod}
use superscalar_oooprocessor.PhysicalRegisterFile.{write}
use superscalar_oooprocessor.LoadStoreQueue.{EvictResult, evict_commited_stores}
use superscalar_oooprocessor.LoadStoreQueue
use superscalar_oooprocessor.ReorderBuffer.{commit, set_ready}
use superscalar_oooprocessor.InstructionQueue
use superscalar_oooprocessor.FunctionalUnits.{FunctionalUnit}
use superscalar_oooprocessor.NonBlockingCache.{CacheResponse, check_ready}
use superscalar_oooprocessor.ProcessorOoo.State.{Core, Squash, is_older, request_squash}

-- `prf.write`, `iq.broadcast_ready` and `lsq.broadcast_ready`
unfoldable pub broadcast : Core → ℕ → ℕ → Core
broadcast c reg value = record c {
  prf = write c.prf reg value;
  iq = InstructionQueue.broadcast_ready c.iq reg;
  lsq = LoadStoreQueue.broadcast_ready c.lsq reg;
}

-- `rob.set_ready`; `none` is a write through the index -1.
unfoldable pub complete : Core → Option ℕ → Option Core
complete c none = none
complete c (some index) = some (record c { rob = set_ready c.rob index })

-- The loop over the ready responses.
unfoldable pub take_responses : Core → List CacheResponse → Option Core
take_responses c [] = some c
take_responses c (r ∷ rs) = elim (complete (broadcast c r.reg r.data_word) r.rob_index) [
  | none ↦ none
  | some c' ↦ take_responses c' rs
]

-- The squash that a store into the program asks for.
abbrev pub note_smc : Squash → EvictResult → Squash
note_smc s er =
    if er.smc_detected then request_squash s er.smc_seq ((er.smc_pc + 4) % u32_mod) else s

unfoldable pub drain_stores : Core → EvictResult × Core
drain_stores c =
    let (er, lsq', memory') = evict_commited_stores c.lsq c.memory c.end_pc in
    (er, record c { lsq = lsq'; memory = memory'; pending_squash = note_smc c.pending_squash er })

unfoldable pub memory_stage : Core → Option Core
unfolding take_responses drain_stores
memory_stage c =
    let (i_nbc', memory') = check_ready c.i_nbc c.memory in
    let (d_nbc', memory'') = check_ready c.d_nbc memory' in
    elim (take_responses (record c { i_nbc = i_nbc'; d_nbc = d_nbc'; memory = memory'' })
      d_nbc'.ready_responses) [
        | none ↦ none
        | some c' ↦
            some (drain_stores (record c' { d_nbc = record c'.d_nbc { ready_responses = [] } })).1
      ]

-- The body of the loop of `writeback_stage` for one unit.
unfoldable pub writeback_unit : Core → FunctionalUnit → Option (Core × FunctionalUnit)
writeback_unit c u =
    let i = u.result_instr in
    let c' = if i.control.reg_write && not (i.rd == 0) then broadcast c i.rd u.result else c in
    if u.has_result
    then elim (complete c' i.rob_index) [
      | none ↦ none
      | some c'' ↦ some (c'', record u { has_result = false })
    ]
    else some (c, u)

-- The loop over the units; it does not look at `c.fu`.
unfoldable pub writeback_units : Core → List FunctionalUnit → Option (Core × List FunctionalUnit)
writeback_units c [] = some (c, [])
writeback_units c (u ∷ us) = elim (writeback_unit c u) [
  | none ↦ none
  | some (c', u') ↦ elim (writeback_units c' us) [
    | none ↦ none
    | some (c'', us') ↦ some (c'', u' ∷ us')
  ]
]

unfoldable pub writeback_stage : Core → Option Core
unfolding writeback_units
writeback_stage c = elim (writeback_units c c.fu) [
  | none ↦ none
  | some (c', us) ↦ some (record c' { fu = us })
]

-- One round of `commit_stage`: whether an instruction was committed, and the processor.
unfoldable pub commit_one : Core → Bool × Core
commit_one c =
    let (done, rob', prf', lsq') = commit c.rob c.prf c.lsq in
    (
      done,
      record c {
        rob = rob';
        prf = prf';
        lsq = lsq';
        commited_instrs = if done then (c.commited_instrs + 1) % u32_mod else c.commited_instrs;
      },
    )

-- The loop, `n` commits being allowed still.
unfoldable pub commit_from : ℕ → Core → Core
unfolding commit_one drain_stores
commit_from zero c = c
commit_from (suc n) c =
    let (done, c') = commit_one c in
    let (er, c'') = drain_stores c' in
    let rest = commit_from n c'' in
    if done
    then (if er.smc_detected && is_older c'.pending_squash er.smc_seq then c'' else rest)
    else c'

unfoldable pub commit_stage : Core → Core
unfolding commit_from
commit_stage = commit_from pipeline_width
