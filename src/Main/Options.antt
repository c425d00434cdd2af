-- ===== src/Main/Options.antt =====
-- What the options leave when `main` reaches its loop.
use superscalar_oooprocessor.Base.{
  ℕ, ◌-◌, ◌≤◌, ◌≡◌, refl, sym, ap, subst, ◌∙◌, true, ◌&&◌, Option, none, some, List, [], ◌∷◌, ◌==◌,
  leb, arith, if-cases, if-both,
}
use superscalar_oooprocessor.Memory.{set_opt_level}
use superscalar_oooprocessor.Memory
use superscalar_oooprocessor.MemoryOoo
use superscalar_oooprocessor.PhysicalRegisterFile
use superscalar_oooprocessor.Registers
use superscalar_oooprocessor.ProcessorOoo.State.{Core}
use superscalar_oooprocessor.ProcessorOoo.Start.{Garbage}
use superscalar_oooprocessor.ProcessorOoo.Start.{start}
use superscalar_oooprocessor.Processor.{initialize, set_end_pc, set_ooo_opt_level}
use superscalar_oooprocessor.Processor.State.{Processor}
use superscalar_oooprocessor.Processor.State
use superscalar_oooprocessor.Main.Loader.{ElfFormat}
use superscalar_oooprocessor.Main.CommandLine.{
  Setup, Argument, Unset, setup, take_option, take_options, ready,
}
use superscalar_oooprocessor.Main.Mirror.{IsMirror, AreAlike, IsMirror-alike, load-IsMirror}

-- Between two options.
pub record IsConsistent (s : Setup) : Type 0 where
  pub alike : AreAlike s.processor
  pub history : s.processor.in_order.pc_history 0 ≡ 0
  pub start_pc : s.processor.in_order.regfile.pc ≡ 0
  pub core_pc : s.processor.ooo.prf.pc ≡ 0
  pub level : s.initialized ≡ true → s.processor.opt_level ≡ s.opt_level
  pub in_range : s.opt_level ≤ 4

-- At the start of the loop: the processor and both memories work at the level of the last option,
-- both memories hold the same words, the program counters are 0, and the core knows the end.
pub record IsReady (s : Setup) (p : Processor) : Type 0 where
  pub chosen : p.opt_level ≡ s.opt_level
  pub in_range : s.opt_level ≤ 4
  pub in_order_level : p.in_order.memory.opt_level ≡ s.opt_level
  pub core_level : p.ooo.memory.opt_level ≡ s.opt_level
  pub same_words : p.in_order.memory.mem ≡ p.ooo.memory.mem
  pub history : p.in_order.pc_history 0 ≡ 0
  pub start_pc : p.in_order.regfile.pc ≡ 0
  pub core_pc : p.ooo.prf.pc ≡ 0
  pub core_end : p.ooo.end_pc ≡ s.end_pc

setup-IsConsistent : (u : Unset) → IsConsistent (setup u)
unfolding setup Memory.init MemoryOoo.init PhysicalRegisterFile.init Registers.init start
    State.start
setup-IsConsistent u = record {
  alike = record {
    bypassed = refl;
    mirrored = refl;
    level = refl;
    history = refl;
    start_pc = refl;
    registers = refl;
  };
  history = refl;
  start_pc = refl;
  core_pc = refl;
  level = λ h. absurd (ground (arith, h));
  in_range = omega arith;
}

loaded-IsConsistent :
    (s : Setup) (p : Processor) (end_pc : ℕ)
    → IsMirror s.processor p
    → IsConsistent s
    → IsConsistent (record s { processor = p; end_pc = end_pc })
loaded-IsConsistent s p end_pc m h = record {
  alike = IsMirror-alike s.processor p m;
  history = ap (λ (f : ℕ → ℕ). f 0) m.history ∙ h.history;
  start_pc = m.start_pc ∙ h.start_pc;
  core_pc = ap (λ (r : PhysicalRegisterFile.PhysicalRegisterFile). r.pc) m.registers ∙ h.core_pc;
  level = λ i. m.level ∙ h.level i;
  in_range = h.in_range;
}

-- `initialize` builds new non-blocking caches only.
initialize-core :
    (g : Garbage) (level : ℕ) (p : Processor)
    → ((initialize g level p).ooo.memory ≡ p.ooo.memory)
      × ((initialize g level p).ooo.prf ≡ p.ooo.prf)
unfolding initialize
initialize-core g level p =
    if-both (λ (c : Core). (c.memory ≡ p.ooo.memory) × (c.prf ≡ p.ooo.prf)) (level == 2)
      (refl, refl) (refl, refl)

initialize-IsConsistent :
    (g : Garbage) (s : Setup) (level : ℕ)
    → level ≤ 4
    → IsConsistent s
    → IsConsistent (record s {
      processor = initialize g level s.processor;
      opt_level = level;
      initialized = true;
    })
unfolding initialize
initialize-IsConsistent g s level l h =
    let (memory, prf) = initialize-core g level s.processor in
    record {
      alike = record {
        bypassed = h.alike.bypassed;
        mirrored = h.alike.mirrored ∙ sym (ap (λ (m : MemoryOoo.MemoryOoo). m.mem) memory);
        level = refl;
        history = refl;
        start_pc = refl;
        registers = refl;
      };
      history = h.history;
      start_pc = h.start_pc;
      core_pc = ap (λ (r : PhysicalRegisterFile.PhysicalRegisterFile). r.pc) prf ∙ h.core_pc;
      level = λ i. refl;
      in_range = l;
    }

-- What holds of the result of a step that may end the program.
abbrev pub IfReached : (Setup → Type 0) → Option Setup → Type 0
IfReached P none = Unit
IfReached P (some s) = P s

take_option-IsConsistent :
    (f : ElfFormat) (g : Garbage) (s : Setup) (a : Argument)
    → IsConsistent s
    → IfReached IsConsistent (take_option f g s a)
unfolding take_option
take_option-IsConsistent f g s a h =
    let level = a.option - 48 in
    let Q : Option Setup → Type 0 = IfReached IsConsistent in
    if-both Q (a.option == b'b')
      (loaded-IsConsistent s _ _ (load-IsMirror f a.file s.processor h.alike) h)
      (if-both Q (a.option == b'O') h (
        if-cases Q (leb 48 a.option && leb a.option 52)
          (λ e. initialize-IsConsistent g s level (ground (arith, e)) h) (λ e. tt)))

take_options-IsConsistent :
    (f : ElfFormat) (g : Garbage) (s : Setup) (arguments : List Argument)
    → IsConsistent s
    → IfReached (λ t. IsConsistent t × (t.initialized ≡ true)) (take_options f g s arguments)
unfolding take_options
take_options-IsConsistent f g s [] h =
    if-cases (IfReached (λ t. IsConsistent t × (t.initialized ≡ true))) s.initialized (λ e. (h, e))
      (λ e. tt)
take_options-IsConsistent f g s (a ∷ arguments) h =
    go (take_option f g s a) (take_option-IsConsistent f g s a h)
      (λ t k. take_options-IsConsistent f g t arguments k)
  where
    go :
        (o : Option Setup)
        → IfReached IsConsistent o
        → ((t : Setup)
            → IsConsistent t
            → IfReached
                (λ t. IsConsistent t × (t.initialized ≡ true))
                (take_options f g t arguments))
        → IfReached
            (λ t. IsConsistent t × (t.initialized ≡ true))
            (elim o as (λ _. Option Setup) [
              | none ↦ none
              | some s' ↦ take_options f g s' arguments
            ])
    go none k ih = tt
    go (some t) k ih = ih t k

ready-IsReady : (s : Setup) → IsConsistent s → s.initialized ≡ true → IsReady s (ready s)
unfolding ready set_end_pc set_ooo_opt_level set_opt_level
ready-IsReady s h i = record {
  chosen = h.level i;
  in_range = h.in_range;
  in_order_level = refl;
  core_level = refl;
  same_words = h.alike.mirrored;
  history = h.history;
  start_pc = h.start_pc;
  core_pc = h.core_pc;
  core_end = refl;
}

-- Whatever the options and the files are, and whatever the variables held that are never set: when
-- `main` reaches its loop, the processor and both memories work at the level of the last option,
-- which is 4 at most, both memories hold the same words, the program counters of both register files and
-- the last one that the five stages recorded are 0, and the core has `end_pc`.
pub take_options-IsReady :
    (f : ElfFormat) (u : Unset) (arguments : List Argument) (s : Setup)
    → take_options f u.arrays (setup u) arguments ≡ some s
    → IsReady s (ready s)
take_options-IsReady f u arguments s e =
    let reached : IsConsistent s × (s.initialized ≡ true) =
      subst (IfReached (λ t. IsConsistent t × (t.initialized ≡ true))) e
        (take_options-IsConsistent f u.arrays (setup u) arguments (setup-IsConsistent u)) in
    ready-IsReady s reached.0 reached.1
