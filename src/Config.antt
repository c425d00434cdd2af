-- ===== src/Config.antt =====
-- config.h and the widths of the machine integers. The sizes are the ones that the source fixes.
use superscalar_oooprocessor.Base.{ℕ, ◌^◌}

abbrev pub num_physical_registers : ℕ
num_physical_registers = 96

abbrev pub num_architectural_registers : ℕ
num_architectural_registers = 32

abbrev pub reorder_buffer_size : ℕ
reorder_buffer_size = 64

abbrev pub pipeline_width : ℕ
pipeline_width = 8

abbrev pub instruction_queue_size : ℕ
instruction_queue_size = 32

abbrev pub num_alus : ℕ
num_alus = 8

abbrev pub num_mshrs : ℕ
num_mshrs = 16

abbrev pub load_queue_size : ℕ
load_queue_size = 64

abbrev pub store_queue_size : ℕ
store_queue_size = 64

abbrev pub btb_bits : ℕ
btb_bits = 8

-- CACHE_LINE_SIZE of memory.h, in bytes.
abbrev pub cache_line_size : ℕ
cache_line_size = 64

-- The ranges of `uint32_t` and `uint64_t`.
abbrev pub u32_mod : ℕ
u32_mod = 2 ^ 32

abbrev pub u64_mod : ℕ
u64_mod = 2 ^ 64
