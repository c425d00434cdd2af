-- ===== src/Main/Text.antt =====
-- Words, their bytes in an ELF file, and what `load` makes of them.
use superscalar_oooprocessor.Base.{
  ℕ, zero, suc, ◌+◌, ◌*◌, ◌/◌, ◌%◌, ◌^◌, ◌≤◌, ◌<◌, ◌≡◌, refl, sym, ap, ◌∙◌, Bool, true, false, not,
  ◌&&◌, none, some, List, [], ◌∷◌, ◌++◌, ◌==◌, if◌then◌else◌, bit_and, length, take, drop,
  get_elem?, update, ◌⊎◌, inl, inr, arith,
}
use superscalar_oooprocessor.Config.{u32_mod}
use superscalar_oooprocessor.MemoryOoo.{load_word}
use superscalar_oooprocessor.Processor.{load_word_ooo}
use superscalar_oooprocessor.Processor.State.{Processor}
use superscalar_oooprocessor.Main.Loader.{
  ElfFormat, elf_magic, starts_with, next_word, store_word, load_words, rounds_of, load_sections,
  load,
}
use superscalar_oooprocessor.Main.Mirror.{AreAlike, load-IsMirror}

-- The bytes of words, least significant first.
abbrev pub encode_words : List ℕ → List ℕ
encode_words [] = []
encode_words (w ∷ ws) =
    w % 2 ^ 8 ∷ (w / 2 ^ 8 % 2 ^ 8 ∷ (w / 2 ^ 16 % 2 ^ 8 ∷ (w / 2 ^ 24 ∷ encode_words ws)))

-- A memory with words put over it from a place on.
abbrev overlay : List ℕ → ℕ → (ℕ → ℕ) → ℕ → ℕ
overlay [] k mem = mem
overlay (w ∷ ws) k mem = overlay ws (suc k) (update mem k w)

overlay-below : (ws : List ℕ) (k : ℕ) (mem : ℕ → ℕ) (i : ℕ) → i < k → overlay ws k mem i ≡ mem i
overlay-below [] k mem i h = refl
overlay-below (w ∷ ws) k mem i h =
    overlay-below ws (suc k) (update mem k w) i (omega arith) ∙ ground arith

overlay-beyond :
    (ws : List ℕ) (k : ℕ) (mem : ℕ → ℕ) (i : ℕ) → k + length ws ≤ i → overlay ws k mem i ≡ mem i
overlay-beyond [] k mem i h = refl
overlay-beyond (w ∷ ws) k mem i h =
    overlay-beyond ws (suc k) (update mem k w) i (omega arith) ∙ ground arith

overlay-get_elem? :
    (ws : List ℕ) (k : ℕ) (mem : ℕ → ℕ) (i : ℕ) {w : ℕ}
    → get_elem? ws i ≡ some w
    → overlay ws k mem (k + i) ≡ w
overlay-get_elem? [] k mem i e = absurd (cc)
overlay-get_elem? (v ∷ ws) k mem zero e =
    overlay-below ws (suc k) (update mem k v) (k + zero) (omega arith) ∙ ground arith
overlay-get_elem? (v ∷ ws) k mem (suc i) e =
    ap (overlay ws (suc k) (update mem k v)) (omega arith)
    ∙ overlay-get_elem? ws (suc k) (update mem k v) i e

next_word-encode_words :
    (w : ℕ) (ws rest : List ℕ)
    → next_word (encode_words (w ∷ ws) ++ rest) ≡ some (w, encode_words ws ++ rest)
unfolding next_word
next_word-encode_words w ws rest = ap (λ (v : ℕ). some (v, encode_words ws ++ rest)) (omega arith)

store_word-core :
    (p : Processor) (k w : ℕ)
    → (store_word p (4 * k) w).ooo.memory.mem ≡ update p.ooo.memory.mem k w
unfolding store_word load_word_ooo load_word
store_word-core p k w = ap (λ i. update p.ooo.memory.mem i w) (omega arith)

-- All the words are there, and they go one after the other.
load_words-encode_words :
    (ws rest : List ℕ) (k : ℕ) (p : Processor)
    → k + length ws < 2 ^ 29
    → (let (complete, p') = load_words (length ws) (encode_words ws ++ rest) (4 * k) p in
        (complete ≡ true) × (p'.ooo.memory.mem ≡ overlay ws k p.ooo.memory.mem))
unfolding load_words
load_words-encode_words [] rest k p b = (refl, refl)
load_words-encode_words (w ∷ ws) rest k p b =
    let p' = store_word p (4 * k) w in
    let (complete, words) = load_words-encode_words ws rest (suc k) p' (omega arith) in
    let address : (4 * k + 4) % u32_mod ≡ 4 * suc k = omega arith in
    rw (next_word-encode_words w ws rest, load_words)
      (rw address (complete, words ∙ ap (overlay ws (suc k)) (store_word-core p k w)))

-- `sh_flags & SHF_EXECINSTR && sh_addr == 0`
abbrev pub is_text : ElfFormat → List ℕ → Bool
is_text f shdr = not (bit_and (f.sh_flags shdr) f.shf_execinstr == 0) && (f.sh_addr shdr == 0)

-- Among `n` section headers from `bytes` on, all complete up to it, `shdr` is the first of a text
-- section at address 0.
pub data HasText (f : ElfFormat) (shdr : List ℕ) : ℕ → List ℕ → Type 0 where
  here :
      {n : ℕ} {bytes : List ℕ}
      → take f.shdr_size bytes ≡ shdr
      → length shdr ≡ f.shdr_size
      → is_text f shdr ≡ true
      → HasText f shdr (suc n) bytes
  later :
      {n : ℕ} {bytes : List ℕ}
      → length (take f.shdr_size bytes) ≡ f.shdr_size
      → is_text f (take f.shdr_size bytes) ≡ false
      → HasText f shdr n (drop f.shdr_size bytes)
      → HasText f shdr (suc n) bytes

-- What `load` makes of the section that it takes.
abbrev taken : ElfFormat → List ℕ → List ℕ → Processor → ℕ × Processor
taken f file shdr p =
    let (complete, p') =
      load_words (rounds_of (f.sh_size shdr)) (drop (f.sh_offset shdr) file) (f.sh_addr shdr) p in
    ((if complete then f.sh_size shdr else 0), p')

load_sections-HasText :
    (f : ElfFormat) (file shdr : List ℕ) (n : ℕ) (bytes : List ℕ) (p : Processor)
    → HasText f shdr n bytes
    → load_sections f file n bytes p ≡ taken f file shdr p
unfolding load_sections
load_sections-HasText f file shdr zero bytes p h = elim h [ ]
load_sections-HasText f file shdr (suc n) bytes p (here e l t) = rw e (rw t (ground (arith, l)))
load_sections-HasText f file shdr (suc n) bytes p (later l t h) =
    rw t (ground (arith, l, load_sections-HasText f file shdr n (drop f.shdr_size bytes) p h))

-- The file is an ELF file with a text section at address 0, whose header is `shdr`.
pub record IsExecutable (f : ElfFormat) (file shdr : List ℕ) : Type 0 where
  pub whole_header : length (take f.ehdr_size file) ≡ f.ehdr_size
  pub magic : starts_with elf_magic (f.e_ident (take f.ehdr_size file)) ≡ true
  pub text :
      HasText f shdr
        (f.e_shnum (take f.ehdr_size file))
        (drop (f.e_shoff (take f.ehdr_size file)) file)
  pub text_address : f.sh_addr shdr ≡ 0

load-taken :
    (f : ElfFormat) (file shdr : List ℕ) (p : Processor)
    → IsExecutable f file shdr
    → load f (some file) p ≡ taken f file shdr p
unfolding load
load-taken f file shdr p h =
    let ehdr = take f.ehdr_size file in
    rw h.magic (
      ground (
        arith,
        h.whole_header,
        load_sections-HasText f file shdr (f.e_shnum ehdr) (drop (f.e_shoff ehdr) file) p h.text,
      ))

-- The program `ws` stands at the start of the memory `mem'`, and the rest is as in `mem`.
pub record HoldsProgram (ws : List ℕ) (mem mem' : ℕ → ℕ) : Type 0 where
  pub program : (i w : ℕ) → get_elem? ws i ≡ some w → mem' i ≡ w
  pub others : (i : ℕ) → length ws ≤ i → mem' i ≡ mem i

overlay-HoldsProgram :
    (ws : List ℕ) (mem mem' : ℕ → ℕ) → mem' ≡ overlay ws 0 mem → HoldsProgram ws mem mem'
overlay-HoldsProgram ws mem mem' e = record {
  program = λ i w at.
      ap (λ (g : ℕ → ℕ). g i) e
      ∙ (ap (overlay ws 0 mem) (omega arith) ∙ overlay-get_elem? ws 0 mem i at);
  others = λ i h. ap (λ (g : ℕ → ℕ). g i) e ∙ overlay-beyond ws 0 mem i (omega arith);
}

taken-encode_words :
    (f : ElfFormat) (file shdr ws rest : List ℕ) (p : Processor)
    → f.sh_addr shdr ≡ 0
    → f.sh_size shdr ≡ 4 * length ws
    → 4 * length ws < 2 ^ 31
    → drop (f.sh_offset shdr) file ≡ encode_words ws ++ rest
    → ((taken f file shdr p).0 ≡ 4 * length ws)
      × ((taken f file shdr p).1.ooo.memory.mem ≡ overlay ws 0 p.ooo.memory.mem)
taken-encode_words f file shdr ws rest p address size bound there =
    let rounds : rounds_of (f.sh_size shdr) ≡ length ws = ground (arith, size, bound) in
    let (complete, words) = load_words-encode_words ws rest 0 p (omega arith) in
    rw rounds (rw there (rw address (rw complete (size, words))))

-- The memories being alike, as the constructors leave them: that of the in-order processors at level 0
-- and both with the same words. An ELF file whose text section, at address 0, consists of words in
-- little-endian order, no more of them than the 2 ^ 21 that each memory has room for, is then loaded
-- by `load`: the end of the program is its length in bytes, both memories hold the words from the
-- start on, and no other word of them changes.
pub load-encode_words :
    (f : ElfFormat) (file shdr ws rest : List ℕ) (p : Processor)
    → AreAlike p
    → IsExecutable f file shdr
    → f.sh_size shdr ≡ 4 * length ws
    → length ws ≤ 2 ^ 21
    → drop (f.sh_offset shdr) file ≡ encode_words ws ++ rest
    → (let (end_pc, p') = load f (some file) p in
        (end_pc ≡ 4 * length ws)
        × HoldsProgram ws p.in_order.memory.mem p'.in_order.memory.mem
        × HoldsProgram ws p.ooo.memory.mem p'.ooo.memory.mem)
load-encode_words f file shdr ws rest p alike h size bound there =
    let mirror = load-IsMirror f (some file) p alike in
    let whole = load-taken f file shdr p h in
    let (ends, words) =
      taken-encode_words f file shdr ws rest p h.text_address size (omega arith) there in
    let core : (load f (some file) p).1.ooo.memory.mem ≡ overlay ws 0 p.ooo.memory.mem =
      ap (λ (r : ℕ × Processor). r.1.ooo.memory.mem) whole ∙ words in
    (
      ap (λ (r : ℕ × Processor). r.0) whole ∙ ends,
      overlay-HoldsProgram ws p.in_order.memory.mem _
          (mirror.mirrored ∙ (core ∙ ap (overlay ws 0) (sym alike.mirrored))),
      overlay-HoldsProgram ws p.ooo.memory.mem _ core,
    )

-- The length of a file decides about a word.
length-next_word :
    (bytes : List ℕ) (n : ℕ)
    → length bytes < 4 * suc n
    → (next_word bytes ≡ none)
      ⊎ ((w : ℕ) × (rest : List ℕ) × (next_word bytes ≡ some (w, rest)) × (length rest < 4 * n))
unfolding next_word
length-next_word (b0 ∷ (b1 ∷ (b2 ∷ (b3 ∷ bytes)))) n h = inr (_, bytes, refl, omega arith)
length-next_word (b0 ∷ (b1 ∷ (b2 ∷ []))) n h = inl refl
length-next_word (b0 ∷ (b1 ∷ [])) n h = inl refl
length-next_word (b0 ∷ []) n h = inl refl
length-next_word [] n h = inl refl

load_words-truncated :
    (n : ℕ) (bytes : List ℕ) (address : ℕ) (p : Processor)
    → length bytes < 4 * n
    → (load_words n bytes address p).0 ≡ false
unfolding load_words
load_words-truncated zero bytes address p h = absurd (omega arith)
load_words-truncated (suc n) bytes address p h = elim (length-next_word bytes n h) [
  | inl e ↦ rw (e, load_words) refl
  | inr (w, rest, e, l) ↦
      rw (e, load_words)
        (load_words-truncated n rest ((address + 4) % u32_mod) (store_word p address w) l)
]

-- Where an ELF file ends before its text section at address 0 does, which is to have less than 2 ^ 31
-- bytes, `load` returns 0.
pub load-truncated :
    (f : ElfFormat) (file shdr : List ℕ) (p : Processor)
    → IsExecutable f file shdr
    → f.sh_size shdr < 2 ^ 31
    → length (drop (f.sh_offset shdr) file) < f.sh_size shdr
    → (load f (some file) p).0 ≡ 0
load-truncated f file shdr p h bound short =
    ap (λ (r : ℕ × Processor). r.0) (load-taken f file shdr p h)
    ∙ rw
        (load_words-truncated (rounds_of (f.sh_size shdr)) (drop (f.sh_offset shdr) file)
          (f.sh_addr shdr) p (ground (arith, bound, short)))
        refl
