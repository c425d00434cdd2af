-- ===== src/Tests/Data.antt =====
-- Concrete states for the tests.
use superscalar_oooprocessor.Base.{
  ℕ, true, false, none, some, [], ◌==◌, if◌then◌else◌, arith, update,
}
use superscalar_oooprocessor.Control.{reset}
use superscalar_oooprocessor.Cache.{CacheLine}
use superscalar_oooprocessor.MemoryOoo.{MemoryOoo, init, load_word}
use superscalar_oooprocessor.PhysicalRegisterFile.{PhysicalRegisterFile, count_up}
use superscalar_oooprocessor.PhysicalRegisterFile
use superscalar_oooprocessor.LoadStoreQueue.{LoadEntry, StoreEntry, LoadStoreQueue}
use superscalar_oooprocessor.LoadStoreQueue.Bounds
use superscalar_oooprocessor.ReorderBuffer.{RobEntry, ReorderBuffer}
use superscalar_oooprocessor.ReorderBuffer.Queue.{IsValid, contents}
use superscalar_oooprocessor.ReorderBuffer.Squash.{IsAscending}
use superscalar_oooprocessor.ReorderBuffer.Conservation.{init-IsSound, assign_enter}
use superscalar_oooprocessor.ReorderBuffer.Sound.{AreSound}
use superscalar_oooprocessor.InstructionQueue.{IqInstr}
use superscalar_oooprocessor.ProcessorOoo.State.{IfId}
use superscalar_oooprocessor.ProcessorOoo.Decode.{decode_slot}
use superscalar_oooprocessor.ProcessorOoo.Start.{Garbage}

-- `add $t0, $t0, $t1`, and `lw $t0, 4($t1)`
abbrev pub add_word : ℕ
add_word = 0x01094020

abbrev pub load_instruction : ℕ
load_instruction = 0x8d280004

abbrev pub blank_line : CacheLine
blank_line = record {
  words = λ i. 0;
  address = 0;
  tag = 0;
  valid = true;
  dirty = true;
  repl_bits = 7;
}

-- A memory with two instructions.
abbrev pub program : MemoryOoo
program = load_word (load_word (init blank_line) 0 add_word) 4 load_instruction

abbrev pub blank_instr : IqInstr
blank_instr = record {
  seq = 7;
  pc = 12;
  opcode = 0;
  rs = 8;
  rt = 9;
  rd = 40;
  shamt = 0;
  funct = 0x20;
  imm = 0;
  addr = 0;
  control = record reset { reg_dest = true; alu_op = 2; reg_write = true };
  rob_index = some 5;
  load_index = none;
  store_index = none;
  rs_ready = true;
  rt_ready = true;
  branch_taken = false;
}

abbrev pub entry : ℕ → ℕ → ℕ → ℕ → RobEntry
entry seq arch new old = record {
  seq = seq;
  dest_arch_reg = arch;
  dest_phys_reg = new;
  old_phys_reg = old;
  load_index = none;
  store_index = none;
  completed = true;
}

abbrev pub load_entry : LoadEntry
load_entry = record {
  seq = 9;
  pc = 0;
  rob_index = some 0;
  addr = 16;
  addr_ready = true;
  completed = false;
  dest_phys_reg = 40;
  byte = false;
  halfword = false;
  issued = false;
}

abbrev pub store_entry : ℕ → ℕ → StoreEntry
store_entry seq data_word = record {
  seq = seq;
  pc = 4;
  rob_index = some 0;
  addr = 16;
  addr_ready = true;
  src = 3;
  src_ready = true;
  data_word = data_word;
  byte = false;
  halfword = false;
  issued = false;
  completed = true;
}

-- Two stores to one address, the second in the place 0, and a load of it.
abbrev pub two_stores : LoadStoreQueue
two_stores = record {
  lq = λ i. load_entry;
  lq_size = 1;
  lq_head = 0;
  lq_tail = 1;
  sq = λ i. if i == 63 then store_entry 5 11 else store_entry 6 22;
  sq_size = 2;
  sq_head = 63;
  sq_tail = 1;
}

abbrev pub slot_of : ℕ → IfId
slot_of word = record { pc = 0; instruction = word; in_use = true; branch_taken = false }

abbrev pub garbage : Garbage
garbage = record {
  if_id = λ i. slot_of add_word;
  id_rn = λ i. decode_slot (slot_of add_word);
  rob = λ i. entry 3 1 2 4;
  load = λ i. load_entry;
  store = λ i. store_entry 1 1;
  units = λ i. record {
    ready = false;
    instr = blank_instr;
    has_result = true;
    result_instr = blank_instr;
    result = 0;
  };
  i_mshr = λ i. record {
    block_addr = 64;
    valid = true;
    countdown = 3;
    fill_pending = true;
    targets = [];
  };
  d_mshr = λ i. record {
    block_addr = 64;
    valid = true;
    countdown = 3;
    fill_pending = true;
    targets = [];
  };
}

-- Two completed instructions, the second in the place 0, that write two registers.
abbrev pub two_entries : ReorderBuffer
two_entries = record {
  buffer = λ i. if i == 63 then entry 4 8 32 8 else entry 6 9 33 9;
  size = 2;
  head = 63;
  tail = 1;
}

abbrev pub renamed_file : PhysicalRegisterFile
renamed_file = record PhysicalRegisterFile.init {
  regmap = update (update (λ i. i) 8 32) 9 33;
  rename_pool = count_up 34 62;
}

pub two_entries-IsValid : IsValid two_entries
two_entries-IsValid = ground arith

pub two_entries-IsAscending : IsAscending (contents two_entries)
two_entries-IsAscending = ground arith

pub two_entries-AreSound : AreSound two_entries renamed_file
unfolding PhysicalRegisterFile.init
two_entries-AreSound = record {
  valid = two_entries-IsValid;
  sound = assign_enter 9 33 (ground arith) (assign_enter 8 32 (ground arith) init-IsSound);
}

pub two_stores-IsValid : Bounds.IsValid two_stores
two_stores-IsValid = ground arith
