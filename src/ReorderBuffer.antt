-- ===== src/ReorderBuffer.antt =====
-- reorder_buffer.h and reorder_buffer.cpp: the circular buffer of the instructions in flight. An
-- index that the source writes as -1 is `none`. The array is a function of the index.
pub mod Queue
pub mod Squash
pub mod Renaming
pub mod Conservation
pub mod Sound
use superscalar_oooprocessor.Base.{
  ℕ, zero, suc, ◌+◌, ◌-◌, ◌%◌, Bool, true, false, ◌&&◌, Option, none, some, ltb, leb, ◌==◌,
  if◌then◌else◌, update,
}
use superscalar_oooprocessor.Config.{reorder_buffer_size}
use superscalar_oooprocessor.PhysicalRegisterFile.{
  PhysicalRegisterFile, rollback_rename, reclaim, update_commited_registers,
}
use superscalar_oooprocessor.LoadStoreQueue.{LoadStoreQueue, pop_load_head, mark_store_complete}

pub record RobEntry : Type 0 where
  pub seq : ℕ
  pub dest_arch_reg : ℕ
  pub dest_phys_reg : ℕ
  pub old_phys_reg : ℕ
  pub load_index : Option ℕ
  pub store_index : Option ℕ
  pub completed : Bool

pub record ReorderBuffer : Type 0 where
  pub buffer : ℕ → RobEntry
  pub size : ℕ
  pub head : ℕ
  pub tail : ℕ

-- The constructor leaves the array as it is.
unfoldable pub init : (ℕ → RobEntry) → ReorderBuffer
init buffer = record { buffer = buffer; size = 0; head = 0; tail = 0 }

unfoldable pub full : ReorderBuffer → Bool
full r = leb reorder_buffer_size r.size

unfoldable pub empty : ReorderBuffer → Bool
empty r = r.size == 0

-- The entry is the six arguments of the source with `completed` false.
unfoldable pub insert :
    ReorderBuffer → ℕ → ℕ → ℕ → ℕ → Option ℕ → Option ℕ → Option ℕ × ReorderBuffer
unfolding full
insert r seq dest_arch_reg dest_phys_reg old_phys_reg load_index store_index =
    if full r then (none, r) else (
      some r.tail,
      record r {
        buffer = update r.buffer r.tail (record {
          seq = seq;
          dest_arch_reg = dest_arch_reg;
          dest_phys_reg = dest_phys_reg;
          old_phys_reg = old_phys_reg;
          load_index = load_index;
          store_index = store_index;
          completed = false;
        });
        tail = (r.tail + 1) % reorder_buffer_size;
        size = r.size + 1;
      },
    )

-- What `squash` does to the mapping for one entry.
abbrev pub rollback : RobEntry → PhysicalRegisterFile → PhysicalRegisterFile
rollback e p =
    if e.dest_phys_reg == e.old_phys_reg
    then p
    else rollback_rename p e.dest_arch_reg e.dest_phys_reg e.old_phys_reg

-- The loop of `squash`; each round takes one entry off, so the first argument counts them.
unfoldable pub squash_from :
    ℕ → ℕ → ReorderBuffer → PhysicalRegisterFile → ReorderBuffer × PhysicalRegisterFile
squash_from zero branch_seq r p = (r, p)
squash_from (suc n) branch_seq r p =
    let prev = (r.tail + reorder_buffer_size - 1) % reorder_buffer_size in
    let entry = r.buffer prev in
    let rest =
      squash_from n branch_seq (record r { tail = prev; size = r.size - 1 }) (rollback entry p) in
    if leb entry.seq branch_seq then (r, p) else rest

unfoldable pub squash :
    ReorderBuffer → ℕ → PhysicalRegisterFile → ReorderBuffer × PhysicalRegisterFile
unfolding squash_from
squash r branch_seq p = squash_from r.size branch_seq r p

-- What `commit` does to the register file and to the queues for the entry at the head.
abbrev pub retire_register : RobEntry → PhysicalRegisterFile → PhysicalRegisterFile
retire_register e p =
    if e.dest_phys_reg == e.old_phys_reg
    then p
    else update_commited_registers (reclaim p e.old_phys_reg) e.dest_arch_reg e.dest_phys_reg

abbrev pub retire_load : RobEntry → LoadStoreQueue → LoadStoreQueue
retire_load e q = elim e.load_index [ none ↦ q | some _ ↦ pop_load_head q ]

abbrev pub retire_store : RobEntry → LoadStoreQueue → LoadStoreQueue
retire_store e q = elim e.store_index [ none ↦ q | some _ ↦ mark_store_complete q e.seq ]

unfoldable pub commit :
    ReorderBuffer
    → PhysicalRegisterFile
    → LoadStoreQueue
    → Bool × ReorderBuffer × PhysicalRegisterFile × LoadStoreQueue
commit r p q =
    let entry = r.buffer r.head in
    if ltb 0 r.size && entry.completed
    then (
      true,
      record r { head = (r.head + 1) % reorder_buffer_size; size = r.size - 1 },
      retire_register entry p,
      retire_store entry (retire_load entry q),
    )
    else (false, r, p, q)

unfoldable pub set_ready : ReorderBuffer → ℕ → ReorderBuffer
set_ready r index = record r {
  buffer = update r.buffer index (record (r.buffer index) { completed = true });
}
