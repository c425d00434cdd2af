-- ===== src/ProcessorOoo.antt =====
-- `ProcessorOOO::out_of_order_advance` and `getPC` (processorOOO.cpp, processorOOO.h): one cycle of
-- the out-of-order core, its stages in the order of the source. Printing is left out.
pub mod State
pub mod Fetch
pub mod Decode
pub mod Rename
pub mod Dispatch
pub mod Execute
pub mod Retire
pub mod Compaction
pub mod Start
pub mod Safety
use superscalar_oooprocessor.Base.{
  ℕ, zero, suc, ◌-◌, Bool, true, false, not, ◌||◌, Option, none, some, ltb, if◌then◌else◌,
}
use superscalar_oooprocessor.Config.{pipeline_width, u32_mod}
use superscalar_oooprocessor.ReorderBuffer
use superscalar_oooprocessor.FunctionalUnits
use superscalar_oooprocessor.LoadStoreQueue.{sq_empty}
use State.{Core}
use Fetch.{fetch_stage}
use Decode.{decode_stage}
use Rename.{rename_stage}
use Dispatch.{dispatch_stage}
use Execute.{execute_stage}
use Retire.{memory_stage, writeback_stage, commit_stage}

-- A stage that may meet undefined behaviour or an exception yields an option.
infixl 5 ◌>>=◌
abbrev pub ◌>>=◌ : Option Core → (Core → Option Core) → Option Core
none >>= f = none
some c >>= f = f c

-- `out_of_order_advance`
unfoldable pub out_of_order_advance : Core → Option Core
out_of_order_advance c = do
  c1 ← writeback_stage (commit_stage c)
  c2 ← memory_stage c1
  c3 ← execute_stage c2
  c4 ← dispatch_stage c3
  c5 ← rename_stage c4
  some (fetch_stage (decode_stage c5))

-- `n` rounds of the loop of `main`, at the optimisation level 2.
unfoldable pub run : ℕ → Core → Option Core
unfolding out_of_order_advance
run zero c = some c
run (suc n) c = elim (out_of_order_advance c) [ none ↦ none | some c' ↦ run n c' ]

-- The loop of `getPC` over the slots from `i` on.
unfoldable pub pipeline_in_use : Core → ℕ → ℕ → Bool
pipeline_in_use c zero i = false
pipeline_in_use c (suc n) i =
    if (c.if_id_buffer i).in_use || (c.id_rn_buffer i).in_use
    then true
    else pipeline_in_use c n (suc i)

-- `getPC`: 0 until the program is over and the pipeline is drained.
unfoldable pub get_pc : Core → ℕ
get_pc c =
    if ltb c.prf.pc c.end_pc
    then 0
    else if not (ReorderBuffer.empty c.rob)
        || (not (FunctionalUnits.empty c.fu) || not (sq_empty c.lsq))
    then 0
    else if pipeline_in_use c pipeline_width 0
    then 0
    else u32_mod - 1
