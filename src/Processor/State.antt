-- ===== src/Processor/State.antt =====
-- The state of `Processor` (processor.h): the single-cycle and the five-stage processor share the
-- memory and the register file; the out-of-order core stands beside them.
use superscalar_oooprocessor.Base.{ℕ, Bool, false}
use superscalar_oooprocessor.Control.{Control, reset}
use superscalar_oooprocessor.Memory.{Memory}
use superscalar_oooprocessor.Registers.{Registers}
use superscalar_oooprocessor.Registers
use superscalar_oooprocessor.ProcessorOoo.State.{Core}

pub record IfId : Type 0 where
  pub pc : ℕ
  pub instruction : ℕ

-- The field `stall` of the source is never used.
pub record IdEx : Type 0 where
  pub pc : ℕ
  pub read_data_1 : ℕ
  pub read_data_2 : ℕ
  pub imm : ℕ
  pub rt : ℕ
  pub rd : ℕ
  pub rs : ℕ
  pub opcode : ℕ
  pub funct : ℕ
  pub shamt : ℕ
  pub addr : ℕ
  pub control : Control

-- `branch_target` and `rs` of the source are never used.
pub record ExMem : Type 0 where
  pub alu_zero : Bool
  pub alu_out : ℕ
  pub write_data_mem : ℕ
  pub write_reg : ℕ
  pub addr : ℕ
  pub branch_reg : ℕ
  pub rt : ℕ
  pub rd : ℕ
  pub control : Control

pub record MemWb : Type 0 where
  pub read_data_mem : ℕ
  pub alu_out : ℕ
  pub write_reg : ℕ
  pub rt : ℕ
  pub rd : ℕ
  pub control : Control

-- `flush_pipeline` is false between two cycles and local to `execute_stage`; `cache_hit` is never used.
pub record Pipeline : Type 0 where
  pub memory : Memory
  pub regfile : Registers
  pub if_id : IfId
  pub id_ex : IdEx
  pub ex_mem : ExMem
  pub mem_wb : MemWb
  pub mem_wb_prev : MemWb
  pub load_use_stall : Bool
  pub memory_stall : Bool
  pub pc_history : ℕ → ℕ

pub record Processor : Type 0 where
  pub opt_level : ℕ
  pub ooo : Core
  pub in_order : Pipeline

-- `{}`
abbrev pub empty_if_id : IfId
empty_if_id = record { pc = 0; instruction = 0 }

abbrev pub empty_id_ex : IdEx
empty_id_ex = record {
  pc = 0;
  read_data_1 = 0;
  read_data_2 = 0;
  imm = 0;
  rt = 0;
  rd = 0;
  rs = 0;
  opcode = 0;
  funct = 0;
  shamt = 0;
  addr = 0;
  control = reset;
}

abbrev pub empty_ex_mem : ExMem
empty_ex_mem = record {
  alu_zero = false;
  alu_out = 0;
  write_data_mem = 0;
  write_reg = 0;
  addr = 0;
  branch_reg = 0;
  rt = 0;
  rd = 0;
  control = reset;
}

abbrev pub empty_mem_wb : MemWb
empty_mem_wb = record {
  read_data_mem = 0;
  alu_out = 0;
  write_reg = 0;
  rt = 0;
  rd = 0;
  control = reset;
}

-- The constructor, over a memory.
unfoldable pub start : Memory → Pipeline
start m = record {
  memory = m;
  regfile = Registers.init;
  if_id = empty_if_id;
  id_ex = empty_id_ex;
  ex_mem = empty_ex_mem;
  mem_wb = empty_mem_wb;
  mem_wb_prev = empty_mem_wb;
  load_use_stall = false;
  memory_stall = false;
  pc_history = λ i. 0;
}
