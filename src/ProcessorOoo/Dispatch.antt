-- ===== src/ProcessorOoo/Dispatch.antt =====
-- `ProcessorOOO::dispatch_stage` (processorOOO.cpp). `num_dispatched` stays 0 in the source, so its
-- test is always true and has no counterpart here.
use superscalar_oooprocessor.Base.{ℕ, zero, suc, true, false, Option, none, some, length}
use superscalar_oooprocessor.InstructionQueue
use superscalar_oooprocessor.FunctionalUnits
use superscalar_oooprocessor.ProcessorOoo.State.{Core}

-- One round: the oldest ready instruction goes to a unit. `none` is the exception of `get`.
unfoldable pub dispatch_one : Core → ℕ → Option Core
dispatch_one c index = elim (InstructionQueue.get c.iq index) [
  | none ↦ none
  | some instr ↦ some (record c {
    iq = (InstructionQueue.remove c.iq index).1;
    fu = (FunctionalUnits.issue_to_unit c.fu instr).1;
  })
]

-- The loop on fuel; the outer `none` is lack of fuel or the exception.
unfoldable pub dispatch_from : ℕ → Core → Option Core
dispatch_from zero c = none
dispatch_from (suc n) c = elim (FunctionalUnits.full c.fu) [
  | true ↦ some c
  | false ↦ elim (InstructionQueue.get_oldest_ready c.iq c.lsq) [
    | none ↦ some c
    | some oldest_ready ↦ elim (dispatch_one c oldest_ready) [
      | none ↦ none
      | some c' ↦ dispatch_from n c'
    ]
  ]
]

-- Each round takes one instruction out of the queue.
unfoldable pub dispatch_stage : Core → Option Core
unfolding dispatch_from
dispatch_stage c = dispatch_from (suc (length c.iq)) c
