-- ===== src/Tests/Loading.antt =====
-- `main` and the loader at a small program.
use superscalar_oooprocessor.Base.{
  ℕ, ◌+◌, ◌*◌, ◌^◌, ◌≡◌, refl, arith, true, none, some, List, [], ◌∷◌, ◌++◌, get_elem?, take,
  length,
}
use superscalar_oooprocessor.Memory
use superscalar_oooprocessor.MemoryOoo
use superscalar_oooprocessor.ProcessorOoo.Start.{start}
use superscalar_oooprocessor.Processor.{initialize}
use superscalar_oooprocessor.Processor.State.{Processor}
use superscalar_oooprocessor.Processor.State
use superscalar_oooprocessor.Main.Loader.{ElfFormat, load, load_sections, load_words, next_word}
use superscalar_oooprocessor.Main.CommandLine.{
  Setup, Argument, Unset, running, setup, take_option, take_options, ready, main_loop,
}
use superscalar_oooprocessor.Main.Mirror.{AreAlike}
use superscalar_oooprocessor.Main.Options.{IsReady, take_options-IsReady}
use superscalar_oooprocessor.Main.Endless.{take_options-endless}
use superscalar_oooprocessor.Main.Text.{
  encode_words, here, later, HoldsProgram, load-encode_words, load-truncated,
}
use superscalar_oooprocessor.Tests.Data.{blank_line, garbage}

abbrev byte_at : List ℕ → ℕ → ℕ
byte_at bytes i = elim (get_elem? bytes i) [ none ↦ 0 | some b ↦ b ]

abbrev half_at : List ℕ → ℕ → ℕ
half_at bytes i = byte_at bytes i + byte_at bytes (i + 1) * 2 ^ 8

abbrev word_at : List ℕ → ℕ → ℕ
word_at bytes i = half_at bytes i + half_at bytes (i + 2) * 2 ^ 16

-- The layout of 32-bit ELF.
abbrev elf32 : ElfFormat
elf32 = record {
  ehdr_size = 52;
  shdr_size = 40;
  e_ident = λ bytes. take 16 bytes;
  e_shoff = λ bytes. word_at bytes 32;
  e_shnum = λ bytes. half_at bytes 48;
  sh_flags = λ bytes. word_at bytes 8;
  sh_addr = λ bytes. word_at bytes 12;
  sh_offset = λ bytes. word_at bytes 16;
  sh_size = λ bytes. word_at bytes 20;
  shf_execinstr = 4;
}

abbrev elf_header : List ℕ
elf_header =
    127 ∷ 69 ∷ 76 ∷ 70 ∷ 1 ∷ 1 ∷ 1 ∷ 0 ∷ 0 ∷ 0 ∷ 0 ∷ 0 ∷ 0 ∷ 0 ∷ 0 ∷ 0 ∷ 0 ∷ 0 ∷ 0 ∷ 0 ∷ 0 ∷ 0 ∷ 0
    ∷ 0 ∷ 0 ∷ 0 ∷ 0 ∷ 0 ∷ 0 ∷ 0 ∷ 0 ∷ 0 ∷ 52 ∷ 0 ∷ 0 ∷ 0 ∷ 0 ∷ 0 ∷ 0 ∷ 0 ∷ 0 ∷ 0 ∷ 0 ∷ 0 ∷ 0 ∷ 0 ∷ 0
    ∷ 0 ∷ 2 ∷ 0 ∷ 0 ∷ 0 ∷ []

abbrev null_section : List ℕ
null_section =
    0 ∷ 0 ∷ 0 ∷ 0 ∷ 0 ∷ 0 ∷ 0 ∷ 0 ∷ 0 ∷ 0 ∷ 0 ∷ 0 ∷ 0 ∷ 0 ∷ 0 ∷ 0 ∷ 0 ∷ 0 ∷ 0 ∷ 0 ∷ 0 ∷ 0 ∷ 0 ∷ 0
    ∷ 0 ∷ 0 ∷ 0 ∷ 0 ∷ 0 ∷ 0 ∷ 0 ∷ 0 ∷ 0 ∷ 0 ∷ 0 ∷ 0 ∷ 0 ∷ 0 ∷ 0 ∷ 0 ∷ []

abbrev text_section : List ℕ
text_section =
    0 ∷ 0 ∷ 0 ∷ 0 ∷ 0 ∷ 0 ∷ 0 ∷ 0 ∷ 6 ∷ 0 ∷ 0 ∷ 0 ∷ 0 ∷ 0 ∷ 0 ∷ 0 ∷ 132 ∷ 0 ∷ 0 ∷ 0 ∷ 8 ∷ 0 ∷ 0 ∷ 0
    ∷ 0 ∷ 0 ∷ 0 ∷ 0 ∷ 0 ∷ 0 ∷ 0 ∷ 0 ∷ 0 ∷ 0 ∷ 0 ∷ 0 ∷ 0 ∷ 0 ∷ 0 ∷ 0 ∷ []

-- `addiu $8, $0, 5` and `addu $9, $8, $8`
abbrev two_words : List ℕ
two_words = 0x24080005 ∷ 0x01084821 ∷ []

abbrev executable : List ℕ
executable = elf_header ++ (null_section ++ (text_section ++ encode_words two_words))

-- The last byte is missing.
abbrev truncated : List ℕ
truncated = take 139 executable

abbrev unset : Unset
unset = record {
  line = blank_line;
  l1_lines = λ i. blank_line;
  l2_lines = λ i. blank_line;
  arrays = garbage;
  level = 7;
}

abbrev fresh : Processor
fresh = record {
  opt_level = 0;
  ooo = start garbage (MemoryOoo.init blank_line) 0;
  in_order = State.start (Memory.init blank_line (λ i. blank_line) (λ i. blank_line));
}

fresh-AreAlike : AreAlike fresh
unfolding Memory.init MemoryOoo.init start State.start
fresh-AreAlike = record {
  bypassed = refl;
  mirrored = refl;
  level = refl;
  history = refl;
  start_pc = refl;
  registers = refl;
}

load-encode_words_example :
    let (end_pc, p') = load elf32 (some executable) fresh in
    (end_pc ≡ 4 * length two_words)
    × HoldsProgram two_words fresh.in_order.memory.mem p'.in_order.memory.mem
    × HoldsProgram two_words fresh.ooo.memory.mem p'.ooo.memory.mem
load-encode_words_example =
    load-encode_words elf32 executable text_section two_words [] fresh fresh-AreAlike
      (record {
        whole_header = refl;
        magic = refl;
        text = later refl refl (here refl refl refl);
        text_address = refl;
      })
      refl (omega arith) refl

load-truncated_example : (load elf32 (some truncated) fresh).0 ≡ 0
load-truncated_example =
    load-truncated elf32 truncated text_section fresh
      (record {
        whole_header = refl;
        magic = refl;
        text = later refl refl (here refl refl refl);
        text_address = refl;
      })
      (omega arith) (omega arith)

abbrev load_it : Argument
load_it = record { option = b'b'; file = some executable }

abbrev level_2 : Argument
level_2 = record { option = b'2'; file = none }

abbrev level_3 : Argument
level_3 = record { option = b'3'; file = none }

abbrev at_level_2 : Setup
at_level_2 = record (setup unset) {
  processor = initialize garbage 2 (load elf32 (some executable) (setup unset).processor).1;
  end_pc = 8;
  opt_level = 2;
  initialized = true;
}

abbrev at_level_3 : Setup
at_level_3 = record (setup unset) {
  processor = initialize garbage 3 (load elf32 (some executable) (setup unset).processor).1;
  end_pc = 8;
  opt_level = 3;
  initialized = true;
}

take_options-IsReady_example : IsReady at_level_2 (ready at_level_2)
unfolding take_options take_option setup load load_sections load_words next_word
take_options-IsReady_example =
    take_options-IsReady elf32 unset (load_it ∷ (level_2 ∷ [])) at_level_2 refl

take_options-endless_example :
    main_loop 1000 at_level_3.end_pc 0 (ready at_level_3) ≡ running (ready at_level_3)
unfolding take_options take_option setup load load_sections load_words next_word
take_options-endless_example =
    take_options-endless elf32 unset (load_it ∷ (level_3 ∷ [])) at_level_3 refl (omega arith) 1000
