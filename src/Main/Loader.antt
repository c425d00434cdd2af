-- ===== src/Main/Loader.antt =====
-- `load` of main.cpp: the text section of an ELF file is put into both memories.
use superscalar_oooprocessor.Base.{
  ℕ, zero, suc, ◌+◌, ◌*◌, ◌/◌, ◌%◌, ◌^◌, Bool, true, false, not, ◌&&◌, ◌||◌, Option, none, some,
  List, [], ◌∷◌, ◌==◌, ltb, if◌then◌else◌, bit_and, length, take, drop,
}
use superscalar_oooprocessor.Config.{u32_mod}
use superscalar_oooprocessor.MemoryOoo.{writing}
use superscalar_oooprocessor.Memory.{access}
use superscalar_oooprocessor.Processor.{load_word_ooo}
use superscalar_oooprocessor.Processor.State.{Processor}

-- What elf.h declares: the sizes of `Elf32_Ehdr` and `Elf32_Shdr`, their fields as functions of
-- their bytes, and `SHF_EXECINSTR`.
pub record ElfFormat : Type 0 where
  pub ehdr_size : ℕ
  pub shdr_size : ℕ
  pub e_ident : List ℕ → List ℕ
  pub e_shoff : List ℕ → ℕ
  pub e_shnum : List ℕ → ℕ
  pub sh_flags : List ℕ → ℕ
  pub sh_addr : List ℕ → ℕ
  pub sh_offset : List ℕ → ℕ
  pub sh_size : List ℕ → ℕ
  pub shf_execinstr : ℕ

-- `memcmp(a, b, n)` is 0 exactly if `n` bytes agree.
abbrev pub starts_with : List ℕ → List ℕ → Bool
starts_with [] bytes = true
starts_with (x ∷ xs) [] = false
starts_with (x ∷ xs) (b ∷ bytes) = (x == b) && starts_with xs bytes

-- `"\177ELF\1\1\1"`
abbrev pub elf_magic : List ℕ
elf_magic = 127 ∷ 69 ∷ 76 ∷ 70 ∷ 1 ∷ 1 ∷ 1 ∷ []

-- Four bytes of the file as a word of a little-endian machine, and the rest; `none` if there are fewer.
unfoldable pub next_word : List ℕ → Option (ℕ × List ℕ)
next_word (b0 ∷ (b1 ∷ (b2 ∷ (b3 ∷ bytes)))) =
    some (b0 + b1 * 2 ^ 8 + b2 * 2 ^ 16 + b3 * 2 ^ 24, bytes)
next_word (b0 ∷ (b1 ∷ (b2 ∷ []))) = none
next_word (b0 ∷ (b1 ∷ [])) = none
next_word (b0 ∷ []) = none
next_word [] = none

-- One word into the memory of the in-order processors and into that of the out-of-order core. Each
-- memory has 2 ^ 21 words in the source, which writes beyond them without a test; here it has no end.
unfoldable pub store_word : Processor → ℕ → ℕ → Processor
store_word p address word =
    let (_, _, memory') = access p.in_order.memory address 0 (writing word) in
    load_word_ooo (record p { in_order = record p.in_order { memory = memory' } }) address word

-- The inner loop (`fread` of four bytes at a time), for `n` more words: whether every word was there.
unfoldable pub load_words : ℕ → List ℕ → ℕ → Processor → Bool × Processor
load_words zero bytes address p = (true, p)
load_words (suc n) bytes address p = elim (next_word bytes) [
  | none ↦ (false, p)
  | some (word, rest) ↦ load_words n rest ((address + 4) % u32_mod) (store_word p address word)
]

-- The number of rounds of `for (j = 0; j < (int)sh_size; j += 4)`.
abbrev pub rounds_of : ℕ → ℕ
rounds_of sh_size = if ltb sh_size (2 ^ 31) then (sh_size + 3) / 4 else 0

-- The outer loop, with `n` more section headers from `bytes` on: `end_pc`, and the processor.
unfoldable pub load_sections : ElfFormat → List ℕ → ℕ → List ℕ → Processor → ℕ × Processor
load_sections f file zero bytes p = (0, p)
load_sections f file (suc n) bytes p =
    let shdr = take f.shdr_size bytes in
    let rest = load_sections f file n (drop f.shdr_size bytes) p in
    let (complete, p') =
      load_words (rounds_of (f.sh_size shdr)) (drop (f.sh_offset shdr) file) (f.sh_addr shdr) p in
    if not (length shdr == f.shdr_size)
    then (0, p)
    else if not (bit_and (f.sh_flags shdr) f.shf_execinstr == 0) && (f.sh_addr shdr == 0)
    then ((if complete then f.sh_size shdr else 0), p')
    else rest

-- `load`, where `fread` of `n` bytes is `take` and `fseek` is `drop`; `none` is a file that cannot be opened. The second `fopen` of the same file is taken to
-- succeed as the first did.
unfoldable pub load : ElfFormat → Option (List ℕ) → Processor → ℕ × Processor
load f none p = (0, p)
load f (some file) p =
    let ehdr = take f.ehdr_size file in
    if not (length ehdr == f.ehdr_size) || not (starts_with elf_magic (f.e_ident ehdr))
    then (0, p)
    else load_sections f file (f.e_shnum ehdr) (drop (f.e_shoff ehdr) file) p
