-- ===== src/ProcessorOoo/Start.antt =====
-- The state in which the out-of-order core starts: the constructors, `initialize` and `setEndPC`
-- (processorOOO.h, processorOOO.cpp).
use superscalar_oooprocessor.Base.{ℕ, []}
use superscalar_oooprocessor.MemoryOoo.{MemoryOoo}
use superscalar_oooprocessor.PhysicalRegisterFile
use superscalar_oooprocessor.LoadStoreQueue.{LoadEntry, StoreEntry}
use superscalar_oooprocessor.LoadStoreQueue
use superscalar_oooprocessor.ReorderBuffer.{RobEntry}
use superscalar_oooprocessor.ReorderBuffer
use superscalar_oooprocessor.FunctionalUnits.{FunctionalUnit}
use superscalar_oooprocessor.FunctionalUnits
use superscalar_oooprocessor.BranchPredictor
use superscalar_oooprocessor.NonBlockingCache.{MshrEntry, initialize}
use superscalar_oooprocessor.ProcessorOoo.State.{
  Core, IfId, IdRn, no_squash, free_if_id, free_id_rn,
}

-- What the arrays hold before they are written, which the source leaves open.
pub record Garbage : Type 0 where
  pub if_id : ℕ → IfId
  pub id_rn : ℕ → IdRn
  pub rob : ℕ → RobEntry
  pub load : ℕ → LoadEntry
  pub store : ℕ → StoreEntry
  pub units : ℕ → FunctionalUnit
  pub i_mshr : ℕ → MshrEntry
  pub d_mshr : ℕ → MshrEntry

-- The core that is built over a memory, and made ready to run a program up to `end_pc`.
unfoldable pub start : Garbage → MemoryOoo → ℕ → Core
start g m end_pc = record {
  memory = m;
  if_id_buffer = λ i. free_if_id (g.if_id i);
  id_rn_buffer = λ i. free_id_rn (g.id_rn i);
  rob = ReorderBuffer.init g.rob;
  prf = PhysicalRegisterFile.init;
  iq = [];
  fu = FunctionalUnits.init g.units;
  lsq = LoadStoreQueue.init g.load g.store;
  bp = BranchPredictor.init;
  i_nbc = initialize g.i_mshr m.l1.miss_penalty;
  d_nbc = initialize g.d_mshr m.l1.miss_penalty;
  next_seq = 0;
  pending_squash = no_squash;
  end_pc = end_pc;
  commited_instrs = 0;
}
