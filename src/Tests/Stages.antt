-- ===== src/Tests/Stages.antt =====
-- The theorems about the stages of the out-of-order core at concrete states.
use superscalar_oooprocessor.Base.{ℕ, ◌||◌, ◌==◌}
use superscalar_oooprocessor.ProcessorOoo.{run, out_of_order_advance}
use superscalar_oooprocessor.ProcessorOoo.Start.{start}
use superscalar_oooprocessor.ProcessorOoo.Rename.{rename_stage}
use superscalar_oooprocessor.ProcessorOoo.Dispatch.{dispatch_stage}
use superscalar_oooprocessor.ProcessorOoo.Execute.{execute_stage}
use superscalar_oooprocessor.ProcessorOoo.Compaction.{Holds, fetched, compact_if_id_lem}
use superscalar_oooprocessor.ProcessorOoo.State.{IfId, compact_if_id}
use superscalar_oooprocessor.ProcessorOoo.Safety.Invariant.{Succeeds}
use superscalar_oooprocessor.ProcessorOoo.Safety.Rename.{rename_stage-Succeeds}
use superscalar_oooprocessor.ProcessorOoo.Safety.Dispatch.{dispatch_stage-Succeeds}
use superscalar_oooprocessor.ProcessorOoo.Safety.Execute.{execute_stage-Succeeds}
use superscalar_oooprocessor.ProcessorOoo.Safety.Run.{run-start, out_of_order_advance-Succeeds}
use superscalar_oooprocessor.Tests.Data.{program, garbage, slot_of}
use superscalar_oooprocessor.Tests.Running.{running, running-IsSafe}

-- Instructions in the slots 1 and 5 only.
abbrev holes : ℕ → IfId
holes i = record (slot_of i) { in_use = i == 1 || (i == 5) }

run-start_example : Succeeds (run 3 (start garbage program 8))
run-start_example = run-start 3 garbage program 8

out_of_order_advance-Succeeds_example : Succeeds (out_of_order_advance running)
out_of_order_advance-Succeeds_example = out_of_order_advance-Succeeds running running-IsSafe

rename_stage-Succeeds_example : Succeeds (rename_stage running)
rename_stage-Succeeds_example = rename_stage-Succeeds running running-IsSafe

dispatch_stage-Succeeds_example : Succeeds (dispatch_stage running)
dispatch_stage-Succeeds_example = dispatch_stage-Succeeds running running-IsSafe

execute_stage-Succeeds_example : Succeeds (execute_stage running)
execute_stage-Succeeds_example = execute_stage-Succeeds running running-IsSafe

compact_if_id_lem_example :
    Holds (λ (s : IfId). s.in_use) 8 (fetched holes) (compact_if_id holes).0 (compact_if_id holes).1
compact_if_id_lem_example = compact_if_id_lem holes
