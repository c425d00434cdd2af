-- ===== src/ProcessorOoo/Safety/Invariant.antt =====
-- The invariant of the out-of-order core: the parts are consistent with each other, and no index that
-- is used later is -1 or out of range.
use superscalar_oooprocessor.Base.{ℕ, ◌<◌, ◌≡◌, true, false, Option, none, some, All}
use superscalar_oooprocessor.Config.{
  reorder_buffer_size, load_queue_size, store_queue_size, num_architectural_registers,
}
use superscalar_oooprocessor.LoadStoreQueue.Bounds.{IsValid}
use superscalar_oooprocessor.ReorderBuffer.Sound.{AreSound}
use superscalar_oooprocessor.InstructionQueue.{IqInstr}
use superscalar_oooprocessor.FunctionalUnits.{FunctionalUnit}
use superscalar_oooprocessor.NonBlockingCache.{MshrTarget, MshrEntry, CacheResponse}
use superscalar_oooprocessor.ProcessorOoo.State.{Core, IdRn}

-- An index is there, and within the array.
abbrev pub IsPlace : ℕ → Option ℕ → Type 0
IsPlace limit none = ⊥
IsPlace limit (some i) = i < limit

-- A renamed instruction has its places in the reorder buffer and in the queue that it needs.
pub record IsPlaced (i : IqInstr) : Type 0 where
  pub rob_place : IsPlace reorder_buffer_size i.rob_index
  pub load_place : i.control.mem_read ≡ true → IsPlace load_queue_size i.load_index
  pub store_place :
      i.control.mem_read ≡ false
      → i.control.mem_write ≡ true
      → IsPlace store_queue_size i.store_index

pub record UnitIsPlaced (u : FunctionalUnit) : Type 0 where
  pub waiting : u.ready ≡ false → IsPlaced u.instr
  pub finished : u.has_result ≡ true → IsPlace reorder_buffer_size u.result_instr.rob_index

abbrev pub TargetIsPlaced : MshrTarget → Type 0
TargetIsPlaced t = IsPlace reorder_buffer_size t.rob_index

abbrev pub MshrIsPlaced : MshrEntry → Type 0
MshrIsPlaced m = All TargetIsPlaced m.targets

abbrev pub ResponseIsPlaced : CacheResponse → Type 0
ResponseIsPlaced r = IsPlace reorder_buffer_size r.rob_index

-- The register numbers of a decoded instruction have five bits.
abbrev pub SlotIsDecoded : IdRn → Type 0
SlotIsDecoded s =
    s.in_use ≡ true → (s.rt < num_architectural_registers) × (s.rd < num_architectural_registers)

pub record IsSafe (c : Core) : Type 0 where
  pub registers : AreSound c.rob c.prf
  pub queues : IsValid c.lsq
  pub waiting : All IsPlaced c.iq
  pub running : All UnitIsPlaced c.fu
  pub missing : All MshrIsPlaced c.d_nbc.mshrs
  pub answered : All ResponseIsPlaced c.d_nbc.ready_responses
  pub decoded : (i : ℕ) → SlotIsDecoded (c.id_rn_buffer i)

-- A step that may meet undefined behaviour does not, and ends in a safe state.
abbrev pub Succeeds : Option Core → Type 0
Succeeds none = ⊥
Succeeds (some c) = IsSafe c

-- A step after a step that succeeds.
pub Succeeds-bind :
    (o : Option Core) (f : Core → Option Core)
    → Succeeds o
    → ((c : Core) → IsSafe c → Succeeds (f c))
    → Succeeds (elim o [ none ↦ none | some c ↦ f c ])
Succeeds-bind none f h k = h
Succeeds-bind (some c) f h k = k c h
