-- ===== src/MemoryOoo/Unique.antt =====
-- Every access of `MemoryOOO` keeps the tags of each set apart.
use superscalar_oooprocessor.Base.{
  ℕ, ◌<◌, sym, subst, Bool, true, false, not, ◌&&◌, Option, none, some, ◌==◌, if◌then◌else◌, List,
  [], ◌∷◌, arith, if-both,
}
use superscalar_oooprocessor.Cache.{CacheLine, CacheLevel}
use superscalar_oooprocessor.Cache
use superscalar_oooprocessor.Cache.Fills.{replace-assoc}
use superscalar_oooprocessor.Cache.Unique.{
  IsUnique, read-IsUnique, write-IsUnique, replace-IsUnique, write_back_line-IsUnique,
  invalidate_line-IsUnique, read-ways, write-ways,
}
use superscalar_oooprocessor.MemoryOoo.{
  MemoryOoo, Request, init, init_level, try_level, fill_l1, fill_l2, fetch_words, access,
}
use superscalar_oooprocessor.MemoryOoo.Progress.{option-both}

-- A level with ways in which no set holds a block twice.
pub record IsSound (c : CacheLevel) : Type 0 where
  pub ways : 0 < c.assoc
  pub unique : IsUnique c

pub record AreUnique (m : MemoryOoo) : Type 0 where
  pub l1_sound : IsSound m.l1
  pub l2_sound : IsSound m.l2

read-IsSound : (c : CacheLevel) (address : ℕ) → IsSound c → IsSound (Cache.read c address).1
read-IsSound c address h = record {
  ways = subst (λ k. 0 < k) (sym (read-ways c address)) h.ways;
  unique = read-IsUnique c address h.unique;
}

write-IsSound :
    (c : CacheLevel) (address value : ℕ) → IsSound c → IsSound (Cache.write c address value).1
write-IsSound c address value h = record {
  ways = subst (λ k. 0 < k) (sym (write-ways c address value)) h.ways;
  unique = write-IsUnique c address value h.unique;
}

replace-IsSound :
    (c : CacheLevel) (address : ℕ) (line : CacheLine)
    → IsSound c
    → IsSound (Cache.replace c address line).1
replace-IsSound c address line h = record {
  ways = subst (λ k. 0 < k) (sym (replace-assoc c address line)) h.ways;
  unique = replace-IsUnique c address line h.ways h.unique;
}

-- What `try_level` does for a reader, from what `read` yields.
tried-IsSound :
    (o : Option ℕ) (c : CacheLevel) (address read_data : ℕ) (q : Request)
    → IsSound c
    → IsSound
        (elim o as (λ _. Bool × ℕ × CacheLevel) [
          | some word ↦ (true, word, c)
          | none ↦
              (let (wrote, c') = Cache.write c address q.write_data in
                if q.mem_write then (wrote, read_data, c') else (false, read_data, c))
        ]).2
tried-IsSound (some word) c address read_data q h = h
tried-IsSound none c address read_data q h =
    if-both (λ (o : Bool × ℕ × CacheLevel). IsSound o.2) q.mem_write
      (write-IsSound c address q.write_data h) h

try_level-IsSound :
    (c : CacheLevel) (address read_data write_data : ℕ) (mem_read mem_write : Bool)
    → IsSound c
    → (let q : Request = record {
      write_data = write_data;
      mem_read = mem_read;
      mem_write = mem_write;
    } in
        IsSound (try_level c address read_data q).2)
unfolding try_level
try_level-IsSound c address read_data write_data true mem_write h =
    tried-IsSound (Cache.read c address).0 (Cache.read c address).1 address read_data
      (record { write_data = write_data; mem_read = true; mem_write = mem_write })
      (read-IsSound c address h)
try_level-IsSound c address read_data write_data false mem_write h =
    if-both (λ (o : Bool × ℕ × CacheLevel). IsSound o.2) mem_write
      (write-IsSound c address write_data h) h

fill_l1-AreUnique : (m : MemoryOoo) (address : ℕ) → AreUnique m → AreUnique (fill_l1 m address)
unfolding fill_l1 Cache.write_back_line
fill_l1-AreUnique m address h =
    let line = Cache.read_line m.indeterminate m.l2 address in
    let (out, l1') = Cache.replace m.l1 address line in
    let evicted : CacheLine = elim out [ none ↦ m.indeterminate | some e ↦ e ] in
    record {
      l1_sound = replace-IsSound m.l1 address line h.l1_sound;
      l2_sound =
          if-both IsSound (evicted.valid && evicted.dirty)
            (record {
              ways = h.l2_sound.ways;
              unique = write_back_line-IsUnique m.l2 evicted h.l2_sound.unique;
            })
            h.l2_sound;
    }

fill_l2-AreUnique : (m : MemoryOoo) (address : ℕ) → AreUnique m → AreUnique (fill_l2 m address)
unfolding fill_l2 Cache.invalidate_line
fill_l2-AreUnique m address h =
    let line : CacheLine = record m.indeterminate { words = fetch_words m.mem address } in
    let put = replace-IsSound m.l2 address line h.l2_sound in
    option-both AreUnique (Cache.replace m.l2 address line).0
      (record { l1_sound = h.l1_sound; l2_sound = put })
      (λ evicted.
        if-both AreUnique evicted.valid
          (record {
            l1_sound = record {
              ways = h.l1_sound.ways;
              unique = invalidate_line-IsUnique m.l1 evicted.address h.l1_sound.unique;
            };
            l2_sound = put;
          })
          (record { l1_sound = h.l1_sound; l2_sound = put }))

access-AreUnique :
    (m : MemoryOoo) (address read_data : ℕ) (q : Request)
    → AreUnique m
    → AreUnique (access m address read_data q).2
unfolding access
access-AreUnique m address read_data q h =
    let (hit1, data1, l1') = try_level m.l1 address read_data q in
    let (hit2, data2, l2') = try_level m.l2 address data1 q in
    let first =
      try_level-IsSound m.l1 address read_data q.write_data q.mem_read q.mem_write h.l1_sound in
    let second =
      try_level-IsSound m.l2 address data1 q.write_data q.mem_read q.mem_write h.l2_sound in
    let missed : MemoryOoo = record m { l1 = l1'; l2 = l2' } in
    let both : AreUnique missed = record { l1_sound = first; l2_sound = second } in
    let P : Bool × ℕ × MemoryOoo → Type 0 = λ o. AreUnique o.2 in
    if-both P (m.opt_level == 0)
      (if-both AreUnique q.mem_write (record { l1_sound = h.l1_sound; l2_sound = h.l2_sound }) h)
      (if-both P (not q.mem_read && not q.mem_write) h (
        if-both P hit1 (record { l1_sound = first; l2_sound = h.l2_sound })
          (if-both P hit2 (fill_l1-AreUnique missed address both)
            (fill_l2-AreUnique missed address both))))

-- The constructor's memory, with any words in it and any level of optimisation.
abbrev pub loaded : CacheLine → (ℕ → ℕ) → ℕ → MemoryOoo
loaded blank mem level = record (init blank) { mem = mem; opt_level = level }

loaded-AreUnique :
    (blank : CacheLine) (mem : ℕ → ℕ) (level : ℕ) → AreUnique (loaded blank mem level)
unfolding init init_level
loaded-AreUnique blank mem level = record {
  l1_sound = record {
    ways = omega arith;
    unique = λ idx tag v w _ _ m _. absurd (ground (arith, m));
  };
  l2_sound = record {
    ways = omega arith;
    unique = λ idx tag v w _ _ m _. absurd (ground (arith, m));
  };
}

-- Calls of `access`: the address, `read_data` before the call, and the flags with their data.
abbrev pub after_accesses : List (ℕ × ℕ × Request) → MemoryOoo → MemoryOoo
after_accesses [] m = m
after_accesses ((address, read_data, q) ∷ calls) m =
    after_accesses calls (access m address read_data q).2

accesses-AreUnique :
    (calls : List (ℕ × ℕ × Request)) (m : MemoryOoo)
    → AreUnique m
    → AreUnique (after_accesses calls m)
accesses-AreUnique [] m h = h
accesses-AreUnique ((address, read_data, q) ∷ calls) m h =
    accesses-AreUnique calls (access m address read_data q).2
      (access-AreUnique m address read_data q h)

-- From the constructor's memory of the out-of-order core, with any words loaded, at any level and
-- whatever the uninitialised lines hold, and after any accesses: in both caches no set has two valid
-- lines of one tag.
pub after_accesses-AreUnique :
    (blank : CacheLine) (mem : ℕ → ℕ) (level : ℕ) (calls : List (ℕ × ℕ × Request))
    → AreUnique (after_accesses calls (loaded blank mem level))
after_accesses-AreUnique blank mem level calls =
    accesses-AreUnique calls (loaded blank mem level) (loaded-AreUnique blank mem level)
