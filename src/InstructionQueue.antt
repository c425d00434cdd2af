-- ===== src/InstructionQueue.antt =====
-- instruction_queue.h and instruction_queue.cpp: the renamed instructions that wait for operands.
pub mod Select
use superscalar_oooprocessor.Base.{
  ℕ, suc, Bool, true, false, not, ◌&&◌, ◌||◌, Option, none, some, List, [], ◌∷◌, ◌++◌, ltb, leb,
  ◌==◌, if◌then◌else◌, map, length, keep, remove_at, get_elem?,
}
use superscalar_oooprocessor.Config.{instruction_queue_size}
use superscalar_oooprocessor.Control.{Control}
use superscalar_oooprocessor.LoadStoreQueue.{LoadStoreQueue, has_unresolved_earlier_store}

-- `iq_instr`
pub record IqInstr : Type 0 where
  pub seq : ℕ
  pub pc : ℕ
  pub opcode : ℕ
  pub rs : ℕ
  pub rt : ℕ
  pub rd : ℕ
  pub shamt : ℕ
  pub funct : ℕ
  pub imm : ℕ
  pub addr : ℕ
  pub control : Control
  pub rob_index : Option ℕ
  pub load_index : Option ℕ
  pub store_index : Option ℕ
  pub rs_ready : Bool
  pub rt_ready : Bool
  pub branch_taken : Bool

-- The class has one field, the vector.
abbrev pub InstructionQueue : Type 0
InstructionQueue = List IqInstr

unfoldable pub full : InstructionQueue → Bool
full iq = leb instruction_queue_size (length iq)

unfoldable pub add : InstructionQueue → IqInstr → Bool × InstructionQueue
add iq instr =
    if leb instruction_queue_size (length iq) then (false, iq) else (true, iq ++ (instr ∷ []))

-- The index is never negative here.
unfoldable pub remove : InstructionQueue → ℕ → Bool × InstructionQueue
remove iq index = if leb (length iq) index then (false, iq) else (true, remove_at iq index)

unfoldable pub get_source_regs : IqInstr → List ℕ
get_source_regs instr =
    if instr.opcode == 0 || (instr.control.mem_write || instr.control.branch)
    then instr.rs ∷ instr.rt ∷ []
    else if instr.control.mem_read
    then instr.rs ∷ []
    else []

-- The test of the loop of `get_oldest_ready`.
abbrev pub can_issue : LoadStoreQueue → IqInstr → Bool
can_issue lsq i =
    i.rs_ready
    && i.rt_ready
    && (not i.control.mem_read || not (has_unresolved_earlier_store lsq i.seq))

-- The loop, at index `i`.
unfoldable pub oldest_from : LoadStoreQueue → InstructionQueue → ℕ → Option ℕ
oldest_from lsq [] i = none
oldest_from lsq (x ∷ xs) i = if can_issue lsq x then some i else oldest_from lsq xs (suc i)

unfoldable pub get_oldest_ready : InstructionQueue → LoadStoreQueue → Option ℕ
unfolding oldest_from
get_oldest_ready iq lsq = oldest_from lsq iq 0

unfoldable pub squash : InstructionQueue → ℕ → InstructionQueue
squash iq branch_seq = keep (λ i. not (ltb branch_seq i.seq)) iq

-- One round of the loop of `broadcast_ready`.
abbrev pub wake : ℕ → IqInstr → IqInstr
wake phys_reg i = record i {
  rs_ready = if i.rs == phys_reg then true else i.rs_ready;
  rt_ready = if i.rt == phys_reg then true else i.rt_ready;
}

unfoldable pub broadcast_ready : InstructionQueue → ℕ → InstructionQueue
broadcast_ready iq phys_reg = map (wake phys_reg) iq

-- `none` is the exception of `at`.
unfoldable pub get : InstructionQueue → ℕ → Option IqInstr
get iq index = get_elem? iq index
