-- ===== src/Cache.antt =====
-- `CacheLine` of memory.h and `NBCacheLevel` of memory_ooo.h and memory_ooo.cpp: one level of the
-- write-back cache of the out-of-order core. `line` is a function of the index, since the number of
-- lines never changes.
pub mod Hits
pub mod Fills
pub mod Edits
pub mod Unique
pub mod Contents
pub mod Touched
pub mod Accesses
pub mod Sweeps
pub mod Moves
pub mod Swaps
use superscalar_oooprocessor.Base.{
  ℕ, zero, suc, ◌+◌, ◌-◌, ◌*◌, ◌/◌, ◌%◌, ◌^◌, Bool, true, false, not, ◌&&◌, Option, none, some, ltb,
  ◌==◌, if◌then◌else◌, update,
}
use superscalar_oooprocessor.Config.{cache_line_size}

-- `data` is indexed by the word, 0 to 15.
pub record CacheLine : Type 0 where
  pub words : ℕ → ℕ
  pub address : ℕ
  pub tag : ℕ
  pub valid : Bool
  pub dirty : Bool
  pub repl_bits : ℕ

pub record CacheLevel : Type 0 where
  pub line : ℕ → CacheLine
  pub size : ℕ
  pub assoc : ℕ
  pub miss_penalty : ℕ

-- `(int)log2(n)`; the fuel is `n` itself.
log2_fuel : ℕ → ℕ → ℕ
log2_fuel zero n = 0
log2_fuel (suc f) n = let rest = log2_fuel f (n / 2) in if ltb n 2 then 0 else rest + 1

unfoldable pub log2 : ℕ → ℕ
unfolding log2_fuel
log2 n = log2_fuel n n

abbrev pub get_offset : ℕ → ℕ
get_offset address = address % cache_line_size

abbrev pub num_sets : CacheLevel → ℕ
num_sets c = c.size / (cache_line_size * c.assoc)

-- The source masks with `num_sets - 1`; the number of sets is a power of two (64 and 512).
unfoldable pub get_index : CacheLevel → ℕ → ℕ
get_index c address = address / 2 ^ 6 % num_sets c

unfoldable pub get_tag : CacheLevel → ℕ → ℕ
get_tag c address = address / 2 ^ log2 (c.size / c.assoc)

-- `address & ~63`
abbrev pub block_of : ℕ → ℕ
block_of address = address - address % cache_line_size

-- The line of a way of the set `idx`.
abbrev pub way_of : CacheLevel → ℕ → ℕ → CacheLine
way_of c idx w = c.line (idx * c.assoc + w)

-- `line[...].valid && line[...].tag == tag`
abbrev pub matches : CacheLevel → ℕ → ℕ → ℕ → Bool
matches c idx tag w = (way_of c idx w).valid && ((way_of c idx w).tag == tag)

-- The loop that `isHit`, `readLine` and `replace` share: the first matching way from `w` on.
unfoldable pub find_way : CacheLevel → ℕ → ℕ → ℕ → ℕ → Option ℕ
find_way c idx tag zero w = none
find_way c idx tag (suc n) w = if matches c idx tag w then some w else find_way c idx tag n (suc w)

-- The loop of `updateReplacementBits` over the ways from `w` on.
unfoldable pub age_ways : (ℕ → CacheLine) → ℕ → ℕ → ℕ → ℕ → ℕ → CacheLine
age_ways line base cur_repl zero w = line
age_ways line base cur_repl (suc n) w =
    let l = line (base + w) in
    age_ways
      (if l.valid && ltb cur_repl l.repl_bits
        then update line (base + w) (record l { repl_bits = l.repl_bits - 1 })
        else line)
      base cur_repl n (suc w)

-- `NBCacheLevel::updateReplacementBits`
unfoldable pub update_replacement_bits : CacheLevel → ℕ → ℕ → CacheLevel
update_replacement_bits c idx way =
    let base = idx * c.assoc in
    let aged = age_ways c.line base (c.line (base + way)).repl_bits c.assoc 0 in
    record c {
      line = update aged (base + way) (record (aged (base + way)) { repl_bits = c.assoc - 1 });
    }

-- `NBCacheLevel::isHit`: the place of the line on a hit.
unfoldable pub is_hit : CacheLevel → ℕ → Option ℕ × CacheLevel
is_hit c address =
    let idx = get_index c address in
    elim (find_way c idx (get_tag c address) c.assoc 0) [
      | none ↦ (none, c)
      | some w ↦ (some (idx * c.assoc + w), update_replacement_bits c idx w)
    ]

-- `NBCacheLevel::read`: `none` on a miss.
unfoldable pub read : CacheLevel → ℕ → Option ℕ × CacheLevel
read c address =
    let (loc, c') = is_hit c address in
    elim loc [
      | none ↦ (none, c')
      | some l ↦ (some ((c'.line l).words (get_offset address / 4)), c')
    ]

-- `NBCacheLevel::write`: whether it hit.
unfoldable pub write : CacheLevel → ℕ → ℕ → Bool × CacheLevel
write c address write_data =
    let (loc, c') = is_hit c address in
    elim loc [
      | none ↦ (false, c')
      | some l ↦ (
        true,
        record c' {
          line = update c'.line l (record (c'.line l) {
            words = update (c'.line l).words (get_offset address / 4) write_data;
            dirty = true;
          });
        },
      )
    ]

-- `NBCacheLevel::readLine`; `c` in the source is a local whose other fields are indeterminate.
unfoldable pub read_line : CacheLine → CacheLevel → ℕ → CacheLine
read_line indeterminate c address =
    let idx = get_index c address in
    elim (find_way c idx (get_tag c address) c.assoc 0) [
      | none ↦ record indeterminate { valid = false }
      | some w ↦ way_of c idx w
    ]

-- The loop of `writeBackLine` over the ways from `w` on. It copies the 16 words.
unfoldable pub write_back_ways : CacheLine → (ℕ → CacheLine) → ℕ → ℕ → ℕ → ℕ → ℕ → CacheLine
write_back_ways evicted line base tag zero w = line
write_back_ways evicted line base tag (suc n) w =
    let l = line (base + w) in
    write_back_ways evicted
      (if l.valid && (l.tag == tag)
        then update line (base + w) (record l { words = evicted.words; dirty = true })
        else line)
      base tag n (suc w)

-- `NBCacheLevel::writeBackLine`
unfoldable pub write_back_line : CacheLevel → CacheLine → CacheLevel
write_back_line c evicted = record c {
  line =
      write_back_ways evicted c.line (get_index c evicted.address * c.assoc)
        (get_tag c evicted.address) c.assoc 0;
}

-- The victim loop of `replace` over the ways from `w` on, with the victim so far.
unfoldable pub find_victim : CacheLevel → ℕ → ℕ → ℕ → ℕ → ℕ
find_victim c idx zero w victim = victim
find_victim c idx (suc n) w victim =
    let rest =
      find_victim c idx n (suc w)
        (if ltb (way_of c idx w).repl_bits (way_of c idx victim).repl_bits then w else victim) in
    if not (way_of c idx w).valid then w else rest

-- `NBCacheLevel::replace`: the evicted line, unless the line was there already.
unfoldable pub replace : CacheLevel → ℕ → CacheLine → Option CacheLine × CacheLevel
replace c address new_line =
    let idx = get_index c address in
    let tag = get_tag c address in
    let filled = record new_line {
      address = address;
      tag = tag;
      valid = true;
      dirty = false;
      repl_bits = c.assoc - 1;
    } in
    let victim = find_victim c idx c.assoc 0 0 in
    elim (find_way c idx tag c.assoc 0) [
      | some w ↦ (none, c)
      | none ↦ (
        some (way_of c idx victim),
        update_replacement_bits (record c { line = update c.line (idx * c.assoc + victim) filled })
            idx victim,
      )
    ]

-- The loop of `invalidateLine` over the ways from `w` on.
unfoldable pub invalidate_ways : (ℕ → CacheLine) → ℕ → ℕ → ℕ → ℕ → ℕ → CacheLine
invalidate_ways line base tag zero w = line
invalidate_ways line base tag (suc n) w =
    let l = line (base + w) in
    invalidate_ways
      (if l.valid && (l.tag == tag)
        then update line (base + w) (record l { valid = false })
        else line)
      base tag n (suc w)

-- `NBCacheLevel::invalidateLine`
unfoldable pub invalidate_line : CacheLevel → ℕ → CacheLevel
invalidate_line c address = record c {
  line = invalidate_ways c.line (get_index c address * c.assoc) (get_tag c address) c.assoc 0;
}
