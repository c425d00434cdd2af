-- ===== src/Main/CommandLine.antt =====
-- `main` of main.cpp: the options and the loop over the cycles.
use superscalar_oooprocessor.Base.{
  ℕ, zero, suc, ◌+◌, ◌-◌, Bool, true, false, ◌&&◌, Option, none, some, List, [], ◌∷◌, ◌==◌, leb,
  if◌then◌else◌,
}
use superscalar_oooprocessor.Cache.{CacheLine}
use superscalar_oooprocessor.MemoryOoo
use superscalar_oooprocessor.Memory.{set_opt_level}
use superscalar_oooprocessor.Memory
use superscalar_oooprocessor.ProcessorOoo.Start.{Garbage}
use superscalar_oooprocessor.ProcessorOoo.Start.{start}
use superscalar_oooprocessor.Processor.{advance, get_pc, initialize, set_end_pc, set_ooo_opt_level}
use superscalar_oooprocessor.Processor.State.{Processor}
use superscalar_oooprocessor.Processor.State
use superscalar_oooprocessor.Config.{u32_mod}
use superscalar_oooprocessor.Main.Loader.{ElfFormat, load}

-- The locals of `main`.
pub record Setup : Type 0 where
  pub processor : Processor
  pub end_pc : ℕ
  pub opt_level : ℕ
  pub initialized : Bool

-- What the declarations leave without a value: the lines of the caches, the arrays of the core, and
-- `opt_level` of the processor.
pub record Unset : Type 0 where
  pub line : CacheLine
  pub l1_lines : ℕ → CacheLine
  pub l2_lines : ℕ → CacheLine
  pub arrays : Garbage
  pub level : ℕ

-- The locals of `main` before the options: a memory, a processor over it, and no program. The
-- non-blocking caches of the core are those that `initialize` builds.
unfoldable pub setup : Unset → Setup
setup u = record {
  processor = record {
    opt_level = u.level;
    ooo = start u.arrays (MemoryOoo.init u.line) (u32_mod - 1);
    in_order = State.start (Memory.init u.line u.l1_lines u.l2_lines);
  };
  end_pc = 0;
  opt_level = 0;
  initialized = false;
}

-- A result of `getopt_long`: the character, and the file that `optarg` names.
pub record Argument : Type 0 where
  pub option : ℕ
  pub file : Option (List ℕ)

-- One round of the `switch`; `none` is the exit after the help text.
unfoldable pub take_option : ElfFormat → Garbage → Setup → Argument → Option Setup
take_option f g s a =
    let (loaded_pc, loaded) = load f a.file s.processor in
    let level = a.option - 48 in
    if a.option == b'b'
    then some (record s { processor = loaded; end_pc = loaded_pc })
    else if a.option == b'O'
    then some s
    else if leb 48 a.option && leb a.option 52
    then some (record s {
      processor = initialize g level s.processor;
      opt_level = level;
      initialized = true;
    })
    else none

unfoldable pub take_options : ElfFormat → Garbage → Setup → List Argument → Option Setup
take_options f g s [] = if s.initialized then some s else none
take_options f g s (a ∷ arguments) = elim (take_option f g s a) [
  | none ↦ none
  | some s' ↦ take_options f g s' arguments
]

-- The calls between the options and the loop.
unfoldable pub ready : Setup → Processor
ready s =
    let p = s.processor in
    let leveled : Processor = record p {
      in_order = record p.in_order { memory = set_opt_level p.in_order.memory s.opt_level };
    } in
    set_end_pc (set_ooo_opt_level leveled s.opt_level) s.end_pc

-- The loop after a number of rounds: it is over, after so many cycles, it goes on, or the
-- out-of-order core met undefined behaviour.
pub data Progress : Type 0 where
  finished : ℕ → Processor → Progress
  running : Processor → Progress
  undefined : Progress

-- `while (processor.getPC() <= end_pc)`, for at most so many rounds.
unfoldable pub main_loop : ℕ → ℕ → ℕ → Processor → Progress
main_loop zero end_pc num_cycles p = running p
main_loop (suc n) end_pc num_cycles p = elim (leb (get_pc p) end_pc) [
  | false ↦ finished num_cycles p
  | true ↦ elim (advance p) [ none ↦ undefined | some p' ↦ main_loop n end_pc (num_cycles + 1) p' ]
]
