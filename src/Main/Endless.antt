-- ===== src/Main/Endless.antt =====
-- The loop of `main` at the levels that the help text offers and `advance` does not know: 3 and 4.
use superscalar_oooprocessor.Base.{ℕ, zero, suc, ◌+◌, ◌<◌, ◌≡◌, refl, some, List, arith}
use superscalar_oooprocessor.Processor.{advance, get_pc}
use superscalar_oooprocessor.Processor.State.{Processor}
use superscalar_oooprocessor.Main.Loader.{ElfFormat}
use superscalar_oooprocessor.Main.CommandLine.{
  Setup, Argument, Unset, setup, take_options, ready, running, main_loop,
}
use superscalar_oooprocessor.Main.Options.{take_options-IsReady}

advance-high : (p : Processor) → 2 < p.opt_level → advance p ≡ some p
unfolding advance
advance-high p h = ground arith

get_pc-high : (p : Processor) → 2 < p.opt_level → p.in_order.pc_history 0 ≡ 0 → get_pc p ≡ 0
unfolding get_pc
get_pc-high p h e = ground arith

main_loop-high :
    (n end_pc num_cycles : ℕ) (p : Processor)
    → 2 < p.opt_level
    → p.in_order.pc_history 0 ≡ 0
    → main_loop n end_pc num_cycles p ≡ running p
unfolding main_loop
main_loop-high zero end_pc num_cycles p h e = refl
main_loop-high (suc n) end_pc num_cycles p h e =
    ground
      (arith, get_pc-high p h e, advance-high p h, main_loop-high n end_pc (num_cycles + 1) p h e)

-- If the last level among the options is 3 or 4, the loop of `main` never ends and never fails: after any
-- number of rounds it still runs, with the processor as it was before the first one.
pub take_options-endless :
    (f : ElfFormat) (u : Unset) (arguments : List Argument) (s : Setup)
    → take_options f u.arrays (setup u) arguments ≡ some s
    → 2 < s.opt_level
    → (n : ℕ) → main_loop n s.end_pc 0 (ready s) ≡ running (ready s)
take_options-endless f u arguments s e h n =
    let r = take_options-IsReady f u arguments s e in
    main_loop-high n s.end_pc 0 (ready s) (ground arith) r.history
