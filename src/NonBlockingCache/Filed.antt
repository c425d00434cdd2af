-- ===== src/NonBlockingCache/Filed.antt =====
-- The targets of the non-blocking cache stand at the entries of their blocks (memory_ooo.cpp).
use superscalar_oooprocessor.Base.{
  ℕ, zero, suc, ◌-◌, ◌/◌, ◌%◌, ◌≡◌, Bool, true, false, not, ◌&&◌, Option, none, some, List, [], ◌∷◌,
  ◌==◌, ltb, map, keep, All, All-append, All-keep, set, All-set, if-both, if-cases, arith,
}
use superscalar_oooprocessor.Cache.{block_of}
use superscalar_oooprocessor.MemoryOoo.{MemoryOoo}
use superscalar_oooprocessor.NonBlockingCache.{
  MshrTarget, MshrEntry, CacheResponse, NonBlockingCache, free_mshrs, initialize, join_mshr,
  find_open_mshr, allocate_mshr, squash_mshr, squash, drive_fill, fill_mshr, check_mshr,
  check_mshrs, check_ready,
}
use superscalar_oooprocessor.NonBlockingCache.Words.{InBlock}

-- The targets of an entry lie in its block.
abbrev pub IsFiled : MshrEntry → Type 0
IsFiled m = All (InBlock m.block_addr) m.targets

abbrev pub AreFiled : NonBlockingCache → Type 0
AreFiled c = All IsFiled c.mshrs

free_mshrs-IsFiled : (n : ℕ) (entries : ℕ → MshrEntry) → All IsFiled (free_mshrs n entries)
free_mshrs-IsFiled zero entries = tt
free_mshrs-IsFiled (suc n) entries = (tt, free_mshrs-IsFiled n entries)

-- What holds of the result of a loop that may find nothing.
abbrev IfFound : Option (List MshrEntry) → Type 0
IfFound none = Unit
IfFound (some ms) = All IsFiled ms

join_mshr-IsFiled :
    (ms : List MshrEntry) (t : MshrTarget)
    → All IsFiled ms
    → IfFound (join_mshr ms (block_of t.addr) t)
unfolding join_mshr
join_mshr-IsFiled [] t h = tt
join_mshr-IsFiled (m ∷ ms) t (first, rest) =
    if-cases IfFound (m.valid && (m.block_addr == block_of t.addr))
      (λ e. (
        All-append (InBlock m.block_addr) m.targets (t ∷ []) first
            (inside m.block_addr (ground (arith, e)), tt),
        rest,
      ))
      (λ _. behind (join_mshr ms (block_of t.addr) t) (join_mshr-IsFiled ms t rest))
  where
    inside : (b : ℕ) → b ≡ t.addr - t.addr % 64 → t.addr / 64 ≡ b / 64
    inside b e = omega (arith, e)

    behind :
        (o : Option (List MshrEntry))
        → IfFound o
        → IfFound
            (elim o as (λ _. Option (List MshrEntry)) [ none ↦ none | some ms' ↦ some (m ∷ ms') ])
    behind none k = tt
    behind (some ms') k = (first, k)

-- A new entry for the target, at the place that was found.
abbrev opened : NonBlockingCache → MshrTarget → Option ℕ → Bool × NonBlockingCache
opened c t o = elim o [
  | none ↦ (false, c)
  | some index ↦ (
    true,
    record c {
      mshrs = set c.mshrs index (record {
        block_addr = block_of t.addr;
        valid = true;
        countdown = c.miss_penalty - 1;
        fill_pending = false;
        targets = t ∷ [];
      });
    },
  )
]

opened-AreFiled :
    (c : NonBlockingCache) (t : MshrTarget) (o : Option ℕ) → AreFiled c → AreFiled (opened c t o).1
opened-AreFiled c t none h = h
opened-AreFiled c t (some index) h = All-set IsFiled c.mshrs index _ h (omega arith, tt)

allocate_mshr-AreFiled :
    (c : NonBlockingCache) (addr : ℕ) (rob_index : Option ℕ) (reg seq : ℕ)
    → AreFiled c
    → AreFiled (allocate_mshr c addr rob_index reg seq).1
unfolding allocate_mshr
allocate_mshr-AreFiled c addr rob_index reg seq h =
    let t : MshrTarget = record { rob_index = rob_index; reg = reg; addr = addr; seq = seq } in
    go t (join_mshr c.mshrs (block_of addr) t) (join_mshr-IsFiled c.mshrs t h)
  where
    go :
        (t : MshrTarget) (o : Option (List MshrEntry))
        → IfFound o
        → AreFiled
            (elim o as (λ _. Bool × NonBlockingCache) [
              | some ms ↦ (true, record c { mshrs = ms })
              | none ↦ opened c t (find_open_mshr c.mshrs)
            ]).1
    go t (some ms) k = k
    go t none k = opened-AreFiled c t (find_open_mshr c.mshrs) h

squash_mshr-IsFiled : (seq : ℕ) (m : MshrEntry) → IsFiled m → IsFiled (squash_mshr seq m)
squash_mshr-IsFiled seq m h = if-both IsFiled (not m.valid) h (
    go (keep (λ t. not (ltb seq t.seq)) m.targets)
      (All-keep (InBlock m.block_addr) (λ t. not (ltb seq t.seq)) m.targets h))
  where
    go :
        (ts : List MshrTarget)
        → All (InBlock m.block_addr) ts
        → IsFiled (elim ts as (λ _. MshrEntry) [
          | [] ↦ record m { targets = []; valid = false; fill_pending = false }
          | t ∷ ts' ↦ record m { targets = t ∷ ts' }
        ])
    go [] k = tt
    go (t ∷ ts) k = k

squash_mshrs-IsFiled :
    (seq : ℕ) (ms : List MshrEntry) → All IsFiled ms → All IsFiled (map (squash_mshr seq) ms)
squash_mshrs-IsFiled seq [] h = tt
squash_mshrs-IsFiled seq (m ∷ ms) h =
    (squash_mshr-IsFiled seq m h.0, squash_mshrs-IsFiled seq ms h.1)

check_mshr-IsFiled : (mem : MemoryOoo) (m : MshrEntry) → IsFiled m → IsFiled (check_mshr mem m).1
unfolding check_mshr fill_mshr
check_mshr-IsFiled mem m h =
    let P : List CacheResponse × MshrEntry × MemoryOoo → Type 0 = λ r. IsFiled r.1 in
    if-both P (not m.valid) h (
      if-both P (not m.fill_pending && ltb 0 m.countdown) h
        (if-both P (drive_fill 4 mem m.block_addr).0 tt h))

check_mshrs-IsFiled :
    (mem : MemoryOoo) (ms : List MshrEntry) → All IsFiled ms → All IsFiled (check_mshrs mem ms).1
unfolding check_mshrs
check_mshrs-IsFiled mem [] h = tt
check_mshrs-IsFiled mem (m ∷ ms) h =
    (check_mshr-IsFiled mem m h.0, check_mshrs-IsFiled (check_mshr mem m).2 ms h.1)

-- A call of an operation, with its arguments.
pub data Event : Type 0 where
  allocate : ℕ → Option ℕ → ℕ → ℕ → Event
  squashed : ℕ → Event
  check : MemoryOoo → Event

unfoldable pub after_events : List Event → NonBlockingCache → NonBlockingCache
after_events [] c = c
after_events (allocate addr rob_index reg seq ∷ events) c =
    after_events events (allocate_mshr c addr rob_index reg seq).1
after_events (squashed seq ∷ events) c = after_events events (squash c seq)
after_events (check mem ∷ events) c = after_events events (check_ready c mem).0

events-AreFiled :
    (events : List Event) (c : NonBlockingCache) → AreFiled c → AreFiled (after_events events c)
unfolding after_events squash check_ready
events-AreFiled [] c h = h
events-AreFiled (allocate addr rob_index reg seq ∷ events) c h =
    events-AreFiled events (allocate_mshr c addr rob_index reg seq).1
      (allocate_mshr-AreFiled c addr rob_index reg seq h)
events-AreFiled (squashed seq ∷ events) c h =
    events-AreFiled events (squash c seq) (squash_mshrs-IsFiled seq c.mshrs h)
events-AreFiled (check mem ∷ events) c h =
    events-AreFiled events (check_ready c mem).0 (check_mshrs-IsFiled mem c.mshrs h)

-- From what `initialize` leaves, and after any calls of the operations, over any memories: every target stands
-- at an entry of its block.
pub after_events-AreFiled :
    (entries : ℕ → MshrEntry) (penalty : ℕ) (events : List Event)
    → AreFiled (after_events events (initialize entries penalty))
unfolding initialize
after_events-AreFiled entries penalty events =
    events-AreFiled events (initialize entries penalty) (free_mshrs-IsFiled 16 entries)
