-- ===== src/ProcessorOoo/Rename.antt =====
-- `ProcessorOOO::rename_stage` (processorOOO.cpp).
use superscalar_oooprocessor.Base.{
  ℕ, zero, suc, ◌+◌, ◌%◌, Bool, true, false, not, ◌&&◌, ◌||◌, Option, none, some, ◌==◌,
  if◌then◌else◌,
}
use superscalar_oooprocessor.Config.{pipeline_width, u64_mod}
use superscalar_oooprocessor.PhysicalRegisterFile.{
  PhysicalRegisterFile, ready, get_mapping, assign_mapping, has_free_phys_reg,
}
use superscalar_oooprocessor.LoadStoreQueue.{
  LoadStoreQueue, LoadEntry, StoreEntry, lq_full, sq_full, add_load, add_store, set_load, set_store,
}
use superscalar_oooprocessor.ReorderBuffer
use superscalar_oooprocessor.InstructionQueue.{IqInstr}
use superscalar_oooprocessor.InstructionQueue
use superscalar_oooprocessor.ProcessorOoo.State.{Core, IdRn, clear_id_rn}

-- `dest_arch_reg` and `writes_reg`
abbrev pub dest_of : IdRn → ℕ
dest_of s = if s.control.reg_dest then s.rd else s.rt

abbrev pub writes_reg : IdRn → Bool
writes_reg s = s.control.reg_write && not (dest_of s == 0)

-- The conditions of the two `break`s.
unfoldable pub must_stall : Core → IdRn → Bool
must_stall c s =
    ReorderBuffer.full c.rob
    || (InstructionQueue.full c.iq
        || ((s.control.mem_read && lq_full c.lsq)
            || ((s.control.mem_write && sq_full c.lsq)
                || (writes_reg s && not (has_free_phys_reg c.prf)))))

-- The physical source registers with their readiness.
abbrev pub rs_phys_of : PhysicalRegisterFile → IdRn → ℕ
rs_phys_of p s = if s.reads_rs then get_mapping p s.rs else 0

abbrev pub rt_phys_of : PhysicalRegisterFile → IdRn → ℕ
rt_phys_of p s = if s.reads_rt then get_mapping p s.rt else 0

abbrev pub rs_ready_of : PhysicalRegisterFile → IdRn → Bool
rs_ready_of p s = not s.reads_rs || (ready p (rs_phys_of p s) || s.rs == 0)

abbrev pub rt_ready_of : PhysicalRegisterFile → IdRn → Bool
rt_ready_of p s = not s.reads_rt || (ready p (rt_phys_of p s) || s.rt == 0)

-- `old_phys_reg`, `new_phys_reg` and the register file. `none` is the undefined `front` of an empty
-- free list.
unfoldable pub rename_dest : PhysicalRegisterFile → IdRn → Option (ℕ × ℕ × PhysicalRegisterFile)
rename_dest p s =
    let old = get_mapping p (dest_of s) in
    if writes_reg s
    then elim (assign_mapping p (dest_of s)) [ none ↦ none | some (new, p') ↦ some (old, new, p') ]
    else some (0, 0, p)

-- The queue entries that the stage makes; what it does not set is zero.
abbrev pub load_entry : IdRn → ℕ → ℕ → LoadEntry
load_entry s seq new = record {
  seq = seq;
  pc = s.pc;
  rob_index = some 0;
  addr = 0;
  addr_ready = false;
  completed = false;
  dest_phys_reg = new;
  byte = s.control.byte;
  halfword = s.control.halfword;
  issued = false;
}

abbrev pub store_entry : IdRn → ℕ → ℕ → Bool → StoreEntry
store_entry s seq rt_phys_reg rt_ready = record {
  seq = seq;
  pc = s.pc;
  rob_index = some 0;
  addr = 0;
  addr_ready = false;
  src = rt_phys_reg;
  src_ready = rt_ready;
  data_word = 0;
  byte = s.control.byte;
  halfword = s.control.halfword;
  issued = false;
  completed = false;
}

-- "add to lsq": the two indices and the queues.
unfoldable pub enter_lsq :
    LoadStoreQueue → IdRn → ℕ → ℕ → ℕ → Bool → Option ℕ × Option ℕ × LoadStoreQueue
enter_lsq q s seq new rt_phys_reg rt_ready =
    let (load_index, loaded) = add_load q (load_entry s seq new) in
    let (store_index, stored) = add_store q (store_entry s seq rt_phys_reg rt_ready) in
    if s.control.mem_read
    then (load_index, none, loaded)
    else if s.control.mem_write
    then (none, store_index, stored)
    else (none, none, q)

-- "backfill rob_index in the LSQ entry"
unfoldable pub backfill : LoadStoreQueue → Option ℕ → Option ℕ → Option ℕ → LoadStoreQueue
backfill q load_index store_index rob_index =
    let q' : LoadStoreQueue = elim load_index [
      | none ↦ q
      | some i ↦ set_load q i (record (q.lq i) { rob_index = rob_index })
    ] in
    elim store_index [
      | none ↦ q'
      | some i ↦ set_store q' i (record (q'.sq i) { rob_index = rob_index })
    ]

-- The instruction that goes to the instruction queue. The sources are read before the destination
-- is renamed.
abbrev pub renamed_instr :
    PhysicalRegisterFile → IdRn → ℕ → ℕ → Option ℕ → Option ℕ → Option ℕ → IqInstr
renamed_instr p s seq new rob_index load_index store_index = record {
  seq = seq;
  pc = s.pc;
  opcode = s.opcode;
  rs = rs_phys_of p s;
  rt = rt_phys_of p s;
  rd = new;
  shamt = s.shamt;
  funct = s.funct;
  imm = s.imm;
  addr = s.addr;
  control = s.control;
  rob_index = rob_index;
  load_index = load_index;
  store_index = store_index;
  rs_ready = rs_ready_of p s;
  rt_ready = rt_ready_of p s;
  branch_taken = s.branch_taken;
}

-- The body of the loop from `seq` on, for the instruction of slot `i` with its renamed destination.
unfoldable pub enter : Core → ℕ → ℕ → ℕ → PhysicalRegisterFile → Core
enter c i old new p =
    let s = c.id_rn_buffer i in
    let seq = c.next_seq in
    let (load_index, store_index, q) =
      enter_lsq c.lsq s seq new (rt_phys_of c.prf s) (rt_ready_of c.prf s) in
    let (rob_index, rob') =
      ReorderBuffer.insert c.rob seq (dest_of s) new old load_index store_index in
    let instr = renamed_instr c.prf s seq new rob_index load_index store_index in
    clear_id_rn
      (record c {
        prf = p;
        lsq = backfill q load_index store_index rob_index;
        rob = rob';
        iq = (InstructionQueue.add c.iq instr).1;
        next_seq = (seq + 1) % u64_mod;
      })
      i

-- The body of the loop past the `break`s, for the instruction of slot `i`.
unfoldable pub rename_slot : Core → ℕ → Option Core
rename_slot c i = elim (rename_dest c.prf (c.id_rn_buffer i)) [
  | none ↦ none
  | some (old, new, p) ↦ some (enter c i old new p)
]

-- The loop over the slots from `i` on. `none` is undefined behaviour.
unfoldable pub rename_from : ℕ → ℕ → Core → Option Core
rename_from zero i c = some c
rename_from (suc n) i c = elim ((c.id_rn_buffer i).in_use) [
  | false ↦ rename_from n (suc i) c
  | true ↦ elim (must_stall c (c.id_rn_buffer i)) [
    | true ↦ some c
    | false ↦ elim (rename_slot c i) [ none ↦ none | some c' ↦ rename_from n (suc i) c' ]
  ]
]

unfoldable pub rename_stage : Core → Option Core
unfolding rename_from
rename_stage = rename_from pipeline_width 0
