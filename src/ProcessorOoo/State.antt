-- ===== src/ProcessorOoo/State.antt =====
-- The state of `ProcessorOOO` (processorOOO.h): its pipeline registers and its parts. `memory` is
-- the one object that the processor and its two non-blocking caches point to.
use superscalar_oooprocessor.Base.{
  ℕ, zero, suc, Bool, true, false, not, ◌||◌, ltb, ◌==◌, if◌then◌else◌, update,
}
use superscalar_oooprocessor.Config.{pipeline_width}
use superscalar_oooprocessor.Control.{Control}
use superscalar_oooprocessor.MemoryOoo.{MemoryOoo}
use superscalar_oooprocessor.PhysicalRegisterFile.{PhysicalRegisterFile}
use superscalar_oooprocessor.LoadStoreQueue.{LoadStoreQueue}
use superscalar_oooprocessor.ReorderBuffer.{ReorderBuffer}
use superscalar_oooprocessor.InstructionQueue.{InstructionQueue}
use superscalar_oooprocessor.FunctionalUnits.{FunctionalUnits}
use superscalar_oooprocessor.BranchPredictor.{BranchPredictor}
use superscalar_oooprocessor.NonBlockingCache.{NonBlockingCache}

pub record IfId : Type 0 where
  pub pc : ℕ
  pub instruction : ℕ
  pub in_use : Bool
  pub branch_taken : Bool

-- `read_data_1` and `read_data_2` of the source are never written.
pub record IdRn : Type 0 where
  pub pc : ℕ
  pub rs : ℕ
  pub rt : ℕ
  pub rd : ℕ
  pub imm : ℕ
  pub shamt : ℕ
  pub addr : ℕ
  pub opcode : ℕ
  pub funct : ℕ
  pub reads_rs : Bool
  pub reads_rt : Bool
  pub control : Control
  pub in_use : Bool
  pub branch_taken : Bool

-- `squash_pending`, `squash_seq` and `squash_target_pc`
pub record Squash : Type 0 where
  pub pending : Bool
  pub seq : ℕ
  pub target_pc : ℕ

-- The two pipeline registers are functions of the slot, 0 to 7.
pub record Core : Type 0 where
  pub memory : MemoryOoo
  pub if_id_buffer : ℕ → IfId
  pub id_rn_buffer : ℕ → IdRn
  pub rob : ReorderBuffer
  pub prf : PhysicalRegisterFile
  pub iq : InstructionQueue
  pub fu : FunctionalUnits
  pub lsq : LoadStoreQueue
  pub bp : BranchPredictor
  pub i_nbc : NonBlockingCache
  pub d_nbc : NonBlockingCache
  pub next_seq : ℕ
  pub pending_squash : Squash
  pub end_pc : ℕ
  pub commited_instrs : ℕ

abbrev pub no_squash : Squash
no_squash = record { pending = false; seq = 0; target_pc = 0 }

-- The loop that compacts a pipeline register in place: the slots from `r` on, `w` slots being in use
-- already. It yields the number of slots in use too.
module _ {ℓ} {A : Type ℓ} (in_use : A → Bool) (free : A → A) where
  abbrev pub move_slot : ℕ → ℕ → (ℕ → A) → ℕ → A
  move_slot r w buf = if w == r then buf else update (update buf w (buf r)) r (free (buf r))

  unfoldable pub compact : ℕ → ℕ → ℕ → (ℕ → A) → ℕ × (ℕ → A)
  compact zero r w buf = (w, buf)
  compact (suc n) r w buf = elim (in_use (buf r)) [
    | true ↦ compact n (suc r) (suc w) (move_slot r w buf)
    | false ↦ compact n (suc r) w buf
  ]

abbrev pub free_if_id : IfId → IfId
free_if_id s = record s { in_use = false }

abbrev pub free_id_rn : IdRn → IdRn
free_id_rn s = record s { in_use = false }

unfoldable pub compact_if_id : (ℕ → IfId) → ℕ × (ℕ → IfId)
unfolding compact
compact_if_id = compact (λ s. s.in_use) free_if_id pipeline_width 0 0

unfoldable pub compact_id_rn : (ℕ → IdRn) → ℕ × (ℕ → IdRn)
unfolding compact
compact_id_rn = compact (λ s. s.in_use) free_id_rn pipeline_width 0 0

-- A slot is marked as free.
abbrev pub clear_if_id : Core → ℕ → Core
clear_if_id c i = record c {
  if_id_buffer = update c.if_id_buffer i (free_if_id (c.if_id_buffer i));
}

abbrev pub clear_id_rn : Core → ℕ → Core
clear_id_rn c i = record c {
  id_rn_buffer = update c.id_rn_buffer i (free_id_rn (c.id_rn_buffer i));
}

-- `if (smc_detected && (!squash_pending || smc_seq < squash_seq))`, and the same for a branch: the
-- oldest request of a squash wins.
abbrev pub is_older : Squash → ℕ → Bool
is_older s seq = not s.pending || ltb seq s.seq

abbrev pub request_squash : Squash → ℕ → ℕ → Squash
request_squash s seq target_pc =
    if is_older s seq then record { pending = true; seq = seq; target_pc = target_pc } else s
