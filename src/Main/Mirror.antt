-- ===== src/Main/Mirror.antt =====
-- The loader keeps the two memories alike, and touches nothing else.
use superscalar_oooprocessor.Base.{
  ℕ, zero, suc, ◌+◌, ◌/◌, ◌%◌, ◌≡◌, refl, ap, ◌∙◌, Bool, false, not, ◌&&◌, ◌||◌, Option, none, some,
  List, ◌==◌, bit_and, length, take, drop, update, if-both,
}
use superscalar_oooprocessor.Config.{u32_mod}
use superscalar_oooprocessor.MemoryOoo.{load_word}
use superscalar_oooprocessor.Memory.{access}
use superscalar_oooprocessor.Processor.{load_word_ooo}
use superscalar_oooprocessor.Processor.State.{Processor}
use superscalar_oooprocessor.Main.Loader.{
  ElfFormat, elf_magic, starts_with, next_word, store_word, load_words, rounds_of, load_sections,
  load,
}

-- What a load keeps: the level of the processor, the program counters, the registers of the core,
-- and that the memory of the in-order processors is at level 0 with the words of the other memory.
pub record IsMirror (p q : Processor) : Type 0 where
  pub bypassed : q.in_order.memory.opt_level ≡ 0
  pub mirrored : q.in_order.memory.mem ≡ q.ooo.memory.mem
  pub level : q.opt_level ≡ p.opt_level
  pub history : q.in_order.pc_history ≡ p.in_order.pc_history
  pub start_pc : q.in_order.regfile.pc ≡ p.in_order.regfile.pc
  pub registers : q.ooo.prf ≡ p.ooo.prf

IsMirror-trans : (p q r : Processor) → IsMirror p q → IsMirror q r → IsMirror p r
IsMirror-trans p q r h k = record {
  bypassed = k.bypassed;
  mirrored = k.mirrored;
  level = k.level ∙ h.level;
  history = k.history ∙ h.history;
  start_pc = k.start_pc ∙ h.start_pc;
  registers = k.registers ∙ h.registers;
}

-- The memories start alike.
abbrev pub AreAlike : Processor → Type 0
AreAlike p = IsMirror p p

pub store_word-mem :
    (p : Processor) (address word : ℕ)
    → p.in_order.memory.opt_level ≡ 0
    → (store_word p address word).in_order.memory
      ≡ record p.in_order.memory { mem = update p.in_order.memory.mem (address / 4) word }
unfolding store_word access load_word_ooo
store_word-mem p address word h = simp h refl

store_word-IsMirror :
    (p : Processor) (address word : ℕ) → AreAlike p → IsMirror p (store_word p address word)
unfolding store_word load_word_ooo load_word
store_word-IsMirror p address word h =
    let stored = store_word-mem p address word h.bypassed in
    record {
      bypassed = ap (λ m. m.opt_level) stored ∙ h.bypassed;
      mirrored =
          ap (λ m. m.mem) stored ∙ ap (λ (f : ℕ → ℕ). update f (address / 4) word) h.mirrored;
      level = refl;
      history = refl;
      start_pc = refl;
      registers = refl;
    }

pub IsMirror-alike : (p q : Processor) → IsMirror p q → AreAlike q
IsMirror-alike p q h = record {
  bypassed = h.bypassed;
  mirrored = h.mirrored;
  level = refl;
  history = refl;
  start_pc = refl;
  registers = refl;
}

load_words-IsMirror :
    (n : ℕ) (bytes : List ℕ) (address : ℕ) (p : Processor)
    → AreAlike p
    → IsMirror p (load_words n bytes address p).1
unfolding load_words
load_words-IsMirror zero bytes address p h = h
load_words-IsMirror (suc n) bytes address p h = go (next_word bytes) (λ word rest.
    load_words-IsMirror n rest ((address + 4) % u32_mod) (store_word p address word)
      (IsMirror-alike p (store_word p address word) (store_word-IsMirror p address word h)))
  where
    go :
        (o : Option (ℕ × List ℕ))
        → ((word : ℕ) (rest : List ℕ)
            → IsMirror
                (store_word p address word)
                (load_words n rest ((address + 4) % u32_mod) (store_word p address word)).1)
        → IsMirror p
            (elim o as (λ _. Bool × Processor) [
              | none ↦ (false, p)
              | some (word, rest) ↦
                  load_words n rest ((address + 4) % u32_mod) (store_word p address word)
            ]).1
    go none ih = h
    go (some (word, rest)) ih =
        IsMirror-trans p (store_word p address word) _ (store_word-IsMirror p address word h)
          (ih word rest)

load_sections-IsMirror :
    (f : ElfFormat) (file : List ℕ) (n : ℕ) (bytes : List ℕ) (p : Processor)
    → AreAlike p
    → IsMirror p (load_sections f file n bytes p).1
unfolding load_sections
load_sections-IsMirror f file zero bytes p h = h
load_sections-IsMirror f file (suc n) bytes p h =
    let shdr = take f.shdr_size bytes in
    let P : ℕ × Processor → Type 0 = λ r. IsMirror p r.1 in
    if-both P (not (length shdr == f.shdr_size)) h (
      if-both P (not (bit_and (f.sh_flags shdr) f.shf_execinstr == 0) && (f.sh_addr shdr == 0))
        (load_words-IsMirror (rounds_of (f.sh_size shdr)) (drop (f.sh_offset shdr) file)
          (f.sh_addr shdr) p h)
        (load_sections-IsMirror f file n (drop f.shdr_size bytes) p h))

-- Whatever the file holds, complete or not: `load` keeps the two memories alike, and changes nothing of the
-- processor but them.
pub load-IsMirror :
    (f : ElfFormat) (file : Option (List ℕ)) (p : Processor)
    → AreAlike p
    → IsMirror p (load f file p).1
unfolding load
load-IsMirror f none p h = h
load-IsMirror f (some file) p h =
    let ehdr = take f.ehdr_size file in
    if-both (λ (r : ℕ × Processor). IsMirror p r.1)
      (not (length ehdr == f.ehdr_size) || not (starts_with elf_magic (f.e_ident ehdr))) h
      (load_sections-IsMirror f file (f.e_shnum ehdr) (drop (f.e_shoff ehdr) file) p h)
