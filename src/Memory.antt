-- ===== src/Memory.antt =====
-- `Memory` of memory.h and memory.cpp: the backing memory behind the two stalling cache levels.
pub mod Nearer
pub mod Waiting
pub mod Order
use superscalar_oooprocessor.Base.{
  ℕ, ◌/◌, Bool, true, false, not, ◌&&◌, none, some, ◌==◌, if◌then◌else◌, update,
}
use superscalar_oooprocessor.Cache.{CacheLine, CacheLevel}
use superscalar_oooprocessor.MemoryOoo.{Request, fetch_words, store_words}
use superscalar_oooprocessor.StallCache.{StallCache}
use superscalar_oooprocessor.StallCache

-- `mem` is a function of the word index. `indeterminate` is what a local `CacheLine` holds that the
-- source declares without an initialiser: any value.
pub record Memory : Type 0 where
  pub mem : ℕ → ℕ
  pub l1 : StallCache
  pub l2 : StallCache
  pub opt_level : ℕ
  pub indeterminate : CacheLine

unfoldable pub init : CacheLine → (ℕ → CacheLine) → (ℕ → CacheLine) → Memory
init indeterminate blank1 blank2 = record {
  mem = λ i. 0;
  l1 = StallCache.init blank1 32768 8 12;
  l2 = StallCache.init blank2 262144 8 59;
  opt_level = 0;
  indeterminate = indeterminate;
}

-- `(mem_read && level.read(...)) || (mem_write && level.write(...))`: whether it hit, `read_data`
-- afterwards, and the level.
unfoldable pub try_level : StallCache → ℕ → ℕ → Request → Bool × ℕ × StallCache
try_level c address read_data q =
    let (got, c1) = StallCache.read c address in
    let (wrote, c2) = StallCache.write c address q.write_data in
    let (wrote_too, c3) = StallCache.write c1 address q.write_data in
    if q.mem_read
    then elim got [
      | some word ↦ (true, word, c1)
      | none ↦ if q.mem_write then (wrote_too, read_data, c3) else (false, read_data, c1)
    ]
    else if q.mem_write
    then (wrote, read_data, c2)
    else (false, read_data, c)

-- The level of a stalling cache changes, its countdown does not.
abbrev pub set_level : StallCache → CacheLevel → StallCache
set_level c level = record c { level = level }

-- The second branch of `access`: the line goes from L2 to L1. The source reads `evictedLine` without
-- a value where `replace` evicts nothing, a new variable in each call; here it is the same one in all
-- calls, of any value.
unfoldable pub fill_l1 : Memory → ℕ → Memory
fill_l1 m address =
    let (out, l1') =
      StallCache.replace m.l1.level address
        (StallCache.read_line m.indeterminate m.l2.level address) in
    let evicted : CacheLine = elim out [ none ↦ m.indeterminate | some e ↦ e ] in
    record m {
      l1 = set_level m.l1 l1';
      l2 =
          if evicted.valid && evicted.dirty
          then set_level m.l2 (StallCache.write_back_line m.l2.level evicted)
          else m.l2;
    }

-- The third branch: the line goes from the memory to L2, and what leaves L2 leaves L1 too.
unfoldable pub fill_l2 : Memory → ℕ → Memory
fill_l2 m address =
    let (out, l2') =
      StallCache.replace m.l2.level address
        (record m.indeterminate { words = fetch_words m.mem address }) in
    let filled = record m { l2 = set_level m.l2 l2' } in
    elim out [
      | none ↦ filled
      | some evicted ↦
          if evicted.valid
          then record filled {
            l1 = set_level m.l1 (StallCache.invalidate_line m.l1.level evicted.address);
            mem = if evicted.dirty then store_words m.mem evicted.address evicted.words else m.mem;
          }
          else filled
    ]

-- `Memory::access`: whether it is done, `read_data` afterwards, and the memory.
unfoldable pub access : Memory → ℕ → ℕ → Request → Bool × ℕ × Memory
access m address read_data q =
    let (hit1, data1, l1') = try_level m.l1 address read_data q in
    let (hit2, data2, l2') = try_level m.l2 address data1 q in
    let missed = record m { l1 = l1'; l2 = l2' } in
    if m.opt_level == 0
    then (
      true,
      (if q.mem_read then m.mem (address / 4) else read_data),
      (if q.mem_write then record m { mem = update m.mem (address / 4) q.write_data } else m),
    )
    else if not q.mem_read && not q.mem_write
    then (true, read_data, m)
    else if hit1
    then (true, data1, record m { l1 = l1' })
    else if hit2
    then (false, data2, fill_l1 missed address)
    else (false, data2, fill_l2 missed address)

unfoldable pub set_opt_level : Memory → ℕ → Memory
set_opt_level m level = record m { opt_level = level }
