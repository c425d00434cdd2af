-- ===== src/MemoryOoo.antt =====
-- `MemoryOOO` of memory_ooo.h and memory_ooo.cpp: the backing memory behind two cache levels, which
-- an access walks one level at a time.
pub mod Progress
pub mod Unique
pub mod Flat
pub mod Refines
pub mod Runs
pub mod Fetched
pub mod Lost
pub mod Shelves
pub mod Fills
pub mod Stores
pub mod Walks
pub mod Coherence
pub mod Evictions
use superscalar_oooprocessor.Base.{
  ℕ, ◌+◌, ◌-◌, ◌/◌, Bool, true, false, not, ◌&&◌, Option, none, some, ltb, leb, ◌==◌, if◌then◌else◌,
  update,
}
use superscalar_oooprocessor.Cache.{CacheLine, CacheLevel, block_of}
use superscalar_oooprocessor.Cache

-- `mem` is a function of the word index. `indeterminate` is what a local `CacheLine` holds that the
-- source declares without an initialiser: any value.
pub record MemoryOoo : Type 0 where
  pub mem : ℕ → ℕ
  pub l1 : CacheLevel
  pub l2 : CacheLevel
  pub opt_level : ℕ
  pub indeterminate : CacheLine

-- The constructor of a level: no line is valid.
unfoldable pub init_level : CacheLine → ℕ → ℕ → ℕ → CacheLevel
init_level blank size assoc penalty = record {
  line = λ i. record blank { valid = false };
  size = size;
  assoc = assoc;
  miss_penalty = penalty;
}

unfoldable pub init : CacheLine → MemoryOoo
unfolding init_level
init blank = record {
  mem = λ i. 0;
  l1 = init_level blank 32768 8 12;
  l2 = init_level blank 262144 8 59;
  opt_level = 0;
  indeterminate = blank;
}

unfoldable pub load_word : MemoryOoo → ℕ → ℕ → MemoryOoo
load_word m address word = record m { mem = update m.mem (address / 4) word }

-- `none` on a miss. The hit changes the replacement bits.
unfoldable pub probe_l1 : MemoryOoo → ℕ → Option ℕ × MemoryOoo
probe_l1 m address =
    if m.opt_level == 0
    then (some (m.mem (address / 4)), m)
    else (let (hit, l1') = Cache.read m.l1 address in (hit, record m { l1 = l1' }))

-- What an access is asked to do: the flags `mem_read` and `mem_write` with their data.
pub record Request : Type 0 where
  pub write_data : ℕ
  pub mem_read : Bool
  pub mem_write : Bool

-- `(mem_read && level.read(...)) || (mem_write && level.write(...))`: whether it hit, `read_data`
-- afterwards, and the level.
unfoldable pub try_level : CacheLevel → ℕ → ℕ → Request → Bool × ℕ × CacheLevel
try_level c address read_data q = elim q.mem_read [
  | true ↦
      let (hit, c') = Cache.read c address in
      elim hit [
        | some word ↦ (true, word, c')
        | none ↦
            (let (wrote, c'') = Cache.write c' address q.write_data in
              if q.mem_write then (wrote, read_data, c'') else (false, read_data, c'))
      ]
  | false ↦
      (let (wrote, c') = Cache.write c address q.write_data in
        if q.mem_write then (wrote, read_data, c') else (false, read_data, c))
]

-- The words of the block that a line holds, from the memory and back to it.
abbrev pub fetch_words : (ℕ → ℕ) → ℕ → ℕ → ℕ
fetch_words mem address i = mem (block_of address / 4 + i)

abbrev pub store_words : (ℕ → ℕ) → ℕ → (ℕ → ℕ) → ℕ → ℕ
store_words mem address words k =
    let base = block_of address / 4 in
    if leb base k && ltb k (base + 16) then words (k - base) else mem k

-- The second branch of `access`: the line goes from L2 to L1.
unfoldable pub fill_l1 : MemoryOoo → ℕ → MemoryOoo
fill_l1 m address =
    let (out, l1') = Cache.replace m.l1 address (Cache.read_line m.indeterminate m.l2 address) in
    let evicted : CacheLine = elim out [ none ↦ m.indeterminate | some e ↦ e ] in
    record m {
      l1 = l1';
      l2 = if evicted.valid && evicted.dirty then Cache.write_back_line m.l2 evicted else m.l2;
    }

-- The third branch: the line goes from the memory to L2, and what leaves L2 leaves L1 too.
unfoldable pub fill_l2 : MemoryOoo → ℕ → MemoryOoo
fill_l2 m address =
    let (out, l2') =
      Cache.replace m.l2 address (record m.indeterminate { words = fetch_words m.mem address }) in
    elim out [
      | none ↦ record m { l2 = l2' }
      | some evicted ↦
          if evicted.valid
          then record m {
            l2 = l2';
            l1 = Cache.invalidate_line m.l1 evicted.address;
            mem = if evicted.dirty then store_words m.mem evicted.address evicted.words else m.mem;
          }
          else record m { l2 = l2' }
    ]

-- `MemoryOOO::access`: whether it is done, `read_data` afterwards, and the memory.
unfoldable pub access : MemoryOoo → ℕ → ℕ → Request → Bool × ℕ × MemoryOoo
access m address read_data q =
    if m.opt_level == 0
    then (
      true,
      (if q.mem_read then m.mem (address / 4) else read_data),
      (if q.mem_write then record m { mem = update m.mem (address / 4) q.write_data } else m),
    )
    else if not q.mem_read && not q.mem_write
    then (true, read_data, m)
    else (let (hit1, data1, l1') = try_level m.l1 address read_data q in
        let (hit2, data2, l2') = try_level m.l2 address data1 q in
        let missed = record m { l1 = l1' } in
        if hit1
        then (true, data1, missed)
        else if hit2
        then (false, data2, fill_l1 (record missed { l2 = l2' }) address)
        else (false, data2, fill_l2 (record missed { l2 = l2' }) address))

-- The two kinds of access that the source makes.
abbrev pub reading : Request
reading = record { write_data = 0; mem_read = true; mem_write = false }

abbrev pub writing : ℕ → Request
writing data_word = record { write_data = data_word; mem_read = false; mem_write = true }
