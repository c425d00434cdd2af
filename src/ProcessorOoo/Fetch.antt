-- ===== src/ProcessorOoo/Fetch.antt =====
-- `ProcessorOOO::fetch_stage` (processorOOO.cpp).
use superscalar_oooprocessor.Base.{
  ℕ, zero, suc, ◌+◌, ◌-◌, ◌%◌, true, false, leb, if◌then◌else◌, update,
}
use superscalar_oooprocessor.Config.{pipeline_width, u32_mod}
use superscalar_oooprocessor.MemoryOoo.{access, reading}
use superscalar_oooprocessor.BranchPredictor.{is_branch, predict}
use superscalar_oooprocessor.ProcessorOoo.State.{Core, IfId, compact_if_id}

abbrev pub set_pc : Core → ℕ → Core
set_pc c pc = record c { prf = record c.prf { pc = pc } }

-- The loop over the slots from `i` on. A predicted branch ends it, and so do the end of the program
-- and a miss.
unfoldable pub fetch_from : ℕ → ℕ → Core → Core
fetch_from zero i c = c
fetch_from (suc n) i c =
    let pc = c.prf.pc in
    let (hit, inst, memory') = access c.memory pc 0 reading in
    let touched = record c { memory = memory' } in
    let known = is_branch c.bp pc in
    let guess = predict c.bp pc in
    let next = (pc + 4) % u32_mod in
    let slot : IfId = record {
      pc = pc;
      instruction = inst;
      in_use = true;
      branch_taken = if known then guess.taken else false;
    } in
    let filled = record touched { if_id_buffer = update c.if_id_buffer i slot } in
    let rest = fetch_from n (suc i) (set_pc filled next) in
    if leb c.end_pc pc
    then c
    else if hit
    then (if known then set_pc filled (if guess.taken then guess.target else next) else rest)
    else touched

unfoldable pub fetch_stage : Core → Core
unfolding compact_if_id fetch_from
fetch_stage c =
    let (wfid, buf) = compact_if_id c.if_id_buffer in
    fetch_from (pipeline_width - wfid) wfid (record c { if_id_buffer = buf })
