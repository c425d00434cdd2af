-- ===== src/StallCache.antt =====
-- `Cache` of memory.h and memory.cpp: one level of the cache of the in-order processors. A miss starts
-- a countdown, during which every access misses. The loops over the ways of a set are those of the
-- module Cache, which the source writes twice.
pub mod Ranks
pub mod Victims
pub mod Replaced
pub mod Edited
pub mod Reads
use superscalar_oooprocessor.Base.{
  ℕ, zero, suc, ◌+◌, ◌-◌, ◌*◌, ◌/◌, ◌^◌, Bool, true, false, not, ◌||◌, Option, none, some, ◌==◌,
  if◌then◌else◌, update,
}
use superscalar_oooprocessor.Cache.{
  CacheLine, CacheLevel, log2, num_sets, get_offset, get_index, way_of, find_way,
  update_replacement_bits, write_back_ways, invalidate_ways,
}

-- `missCountdown` beside the fields that `NBCacheLevel` has too.
pub record StallCache : Type 0 where
  pub level : CacheLevel
  pub miss_countdown : ℕ

-- The constructor: no line is valid.
unfoldable pub init : (ℕ → CacheLine) → ℕ → ℕ → ℕ → StallCache
init blank size assoc penalty = record {
  level = record {
    line = λ i. record (blank i) { valid = false };
    size = size;
    assoc = assoc;
    miss_penalty = penalty;
  };
  miss_countdown = 0;
}

-- `getTag`
unfoldable pub get_tag : CacheLevel → ℕ → ℕ
get_tag c address = address / 2 ^ (6 + log2 (num_sets c))

-- The loop of `isHit`, and the same of `readLine` and `replace`.
unfoldable pub lookup : CacheLevel → ℕ → Option ℕ
lookup c address = find_way c (get_index c address) (get_tag c address) c.assoc 0

-- `Cache::isHit`: the place of the line on a hit.
unfoldable pub is_hit : CacheLevel → ℕ → Option ℕ × CacheLevel
is_hit c address = elim (lookup c address) [
  | none ↦ (none, c)
  | some w ↦
      (some (get_index c address * c.assoc + w), update_replacement_bits c (get_index c address) w)
]

-- A miss that is found starts the countdown.
abbrev pub start_miss : StallCache → CacheLevel → StallCache
start_miss c level = record { level = level; miss_countdown = level.miss_penalty - 1 }

-- `Cache::read`: `none` on a miss.
unfoldable pub read : StallCache → ℕ → Option ℕ × StallCache
read c address =
    let (loc, level') = is_hit c.level address in
    if c.miss_countdown == 0
    then elim loc [
      | none ↦ (none, start_miss c level')
      | some l ↦
          (some ((level'.line l).words (get_offset address / 4)), record c { level = level' })
    ]
    else (none, record c { miss_countdown = c.miss_countdown - 1 })

-- `Cache::write`: whether it hit.
unfoldable pub write : StallCache → ℕ → ℕ → Bool × StallCache
write c address write_data =
    let (loc, level') = is_hit c.level address in
    if c.miss_countdown == 0
    then elim loc [
      | none ↦ (false, start_miss c level')
      | some l ↦ (
        true,
        record c {
          level = record level' {
            line = update level'.line l (record (level'.line l) {
              words = update (level'.line l).words (get_offset address / 4) write_data;
              dirty = true;
            });
          };
        },
      )
    ]
    else (false, record c { miss_countdown = c.miss_countdown - 1 })

-- `Cache::readLine`; `c` in the source is a local whose other fields are indeterminate.
unfoldable pub read_line : CacheLine → CacheLevel → ℕ → CacheLine
read_line indeterminate c address = elim (lookup c address) [
  | none ↦ record indeterminate { valid = false }
  | some w ↦ way_of c (get_index c address) w
]

-- `Cache::writeBackLine`
unfoldable pub write_back_line : CacheLevel → CacheLine → CacheLevel
write_back_line c evicted = record c {
  line =
      write_back_ways evicted c.line (get_index c evicted.address * c.assoc)
        (get_tag c evicted.address) c.assoc 0;
}

-- The second loop of `replace`: the first way from `w` on that is free or least recently used.
unfoldable pub find_slot : CacheLevel → ℕ → ℕ → ℕ → Option ℕ
find_slot c idx zero w = none
find_slot c idx (suc n) w =
    if not (way_of c idx w).valid || ((way_of c idx w).repl_bits == 0)
    then some w
    else find_slot c idx n (suc w)

-- `Cache::replace`: the evicted line, if a line was put in. The dirty bit of the line stays as it came.
unfoldable pub replace : CacheLevel → ℕ → CacheLine → Option CacheLine × CacheLevel
replace c address new_line =
    let idx = get_index c address in
    let filled = record new_line {
      address = address;
      tag = get_tag c address;
      valid = true;
      repl_bits = 0;
    } in
    elim (lookup c address) [
      | some w ↦ (none, c)
      | none ↦ elim (find_slot c idx c.assoc 0) [
        | none ↦ (none, c)
        | some w ↦
            (some (way_of c idx w), record c { line = update c.line (idx * c.assoc + w) filled })
      ]
    ]

-- `Cache::invalidateLine`
unfoldable pub invalidate_line : CacheLevel → ℕ → CacheLevel
invalidate_line c address = record c {
  line = invalidate_ways c.line (get_index c address * c.assoc) (get_tag c address) c.assoc 0;
}
