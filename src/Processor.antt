-- ===== src/Processor.antt =====
-- `Processor` (processor.h, processor.cpp): the processor of the chosen optimisation level.
pub mod State
pub mod Isa
pub mod SingleCycle
pub mod Pipeline
pub mod Encoding
pub mod Outcome
pub mod Steps
pub mod Refines
pub mod Programs
pub mod Jumps
pub mod Manual
pub mod Hazards
pub mod Forwarding
use superscalar_oooprocessor.Base.{ℕ, Option, none, some, ◌==◌, if◌then◌else◌}
use superscalar_oooprocessor.MemoryOoo.{load_word}
use superscalar_oooprocessor.NonBlockingCache
use superscalar_oooprocessor.ProcessorOoo
use superscalar_oooprocessor.ProcessorOoo.Start.{Garbage}
use State.{Processor}
use SingleCycle.{single_cycle_processor_advance}
use Pipeline.{pipelined_processor_advance}

-- `Processor::advance`; `none` is undefined behaviour of the out-of-order core.
unfoldable pub advance : Processor → Option Processor
advance p =
    let q = p.in_order in
    let (memory', regfile') = single_cycle_processor_advance q.memory q.regfile in
    if p.opt_level == 0
    then some (record p { in_order = record q { memory = memory'; regfile = regfile' } })
    else if p.opt_level == 1
    then some (record p { in_order = pipelined_processor_advance q })
    else if p.opt_level == 2
    then elim (ProcessorOoo.out_of_order_advance p.ooo) [
      | none ↦ none
      | some c ↦ some (record p { ooo = c })
    ]
    else some p

-- `Processor::getPC`
unfoldable pub get_pc : Processor → ℕ
get_pc p =
    if p.opt_level == 2
    then ProcessorOoo.get_pc p.ooo
    else if p.opt_level == 0
    then p.in_order.regfile.pc
    else p.in_order.pc_history 0

-- `Processor::initialize`. The control signals that it resets are decoded anew before each use; `g`
-- has the fields of the MSHRs that stay as they are.
unfoldable pub initialize : Garbage → ℕ → Processor → Processor
initialize g level p =
    let penalty = p.ooo.memory.l1.miss_penalty in
    record p {
      opt_level = level;
      ooo =
          if level == 2
          then record p.ooo {
            i_nbc = NonBlockingCache.initialize g.i_mshr penalty;
            d_nbc = NonBlockingCache.initialize g.d_mshr penalty;
          }
          else p.ooo;
    }

-- `setEndPC`
unfoldable pub set_end_pc : Processor → ℕ → Processor
set_end_pc p end_pc = record p { ooo = record p.ooo { end_pc = end_pc } }

-- `loadWordOOO`
unfoldable pub load_word_ooo : Processor → ℕ → ℕ → Processor
load_word_ooo p address word = record p {
  ooo = record p.ooo { memory = load_word p.ooo.memory address word };
}

-- `setOOOOptLevel`
unfoldable pub set_ooo_opt_level : Processor → ℕ → Processor
set_ooo_opt_level p level = record p {
  ooo = record p.ooo { memory = record p.ooo.memory { opt_level = level } };
}
