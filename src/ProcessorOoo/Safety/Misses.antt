-- ===== src/ProcessorOoo/Safety/Misses.antt =====
-- The non-blocking cache keeps the places of the instructions that wait for it.
use superscalar_oooprocessor.Base.{
  ℕ, false, not, ◌&&◌, Option, none, some, List, [], ◌∷◌, ltb, ◌==◌, Option-cases, subst, inl, inr,
  All, All-append, All-keep, All-set, All_map, if-both, keep,
}
use superscalar_oooprocessor.Cache.{block_of}
use superscalar_oooprocessor.MemoryOoo.{MemoryOoo, access, reading}
use superscalar_oooprocessor.NonBlockingCache.{
  MshrTarget, MshrEntry, CacheResponse, NonBlockingCache, join_mshr, find_open_mshr, allocate_mshr,
  squash_mshr, squash, drive_fill, answer_targets, fill_mshr, check_mshr, check_mshrs, check_ready,
}
use superscalar_oooprocessor.Config.{reorder_buffer_size}
use superscalar_oooprocessor.ProcessorOoo.Safety.Invariant.{
  IsPlace, TargetIsPlaced, MshrIsPlaced, ResponseIsPlaced,
}

-- Both fields of a cache that name instructions.
pub record AreMissesPlaced (c : NonBlockingCache) : Type 0 where
  pub missing : All MshrIsPlaced c.mshrs
  pub answered : All ResponseIsPlaced c.ready_responses

JoinIsPlaced : Option (List MshrEntry) → Type 0
JoinIsPlaced none = Unit
JoinIsPlaced (some ms) = All MshrIsPlaced ms

later-placed :
    (m : MshrEntry) (o : Option (List MshrEntry))
    → MshrIsPlaced m
    → JoinIsPlaced o
    → JoinIsPlaced (elim o [ none ↦ none | some ms ↦ some (m ∷ ms) ])
unfolding JoinIsPlaced
later-placed m none h hs = tt
later-placed m (some ms) h hs = (h, hs)

join-placed :
    (ms : List MshrEntry) (block : ℕ) (t : MshrTarget)
    → All MshrIsPlaced ms
    → TargetIsPlaced t
    → JoinIsPlaced (join_mshr ms block t)
unfolding join_mshr JoinIsPlaced
join-placed [] block t h ht = tt
join-placed (m ∷ ms) block t h ht =
    if-both JoinIsPlaced (m.valid && (m.block_addr == block))
      (All-append TargetIsPlaced m.targets (t ∷ []) h.0 (ht, tt), h.1)
      (later-placed m (join_mshr ms block t) h.0 (join-placed ms block t h.1 ht))

-- A new miss is recorded with the place of its load.
pub allocate-placed :
    (c : NonBlockingCache) (addr : ℕ) (rob_index : Option ℕ) (reg seq : ℕ)
    → AreMissesPlaced c
    → IsPlace reorder_buffer_size rob_index
    → AreMissesPlaced (allocate_mshr c addr rob_index reg seq).1
unfolding allocate_mshr JoinIsPlaced
allocate-placed c addr rob_index reg seq h p = elim (Option-cases joined) [
  | inr (ms, e) ↦
      rw (e, allocate_mshr)
        (record {
          missing = subst JoinIsPlaced e (join-placed c.mshrs (block_of addr) t h.missing p);
          answered = h.answered;
        })
  | inl e ↦ elim (Option-cases (find_open_mshr c.mshrs)) [
    | inl f ↦ rw (e, f, allocate_mshr) h
    | inr (i, f) ↦
        rw (e, f, allocate_mshr)
          (record {
            missing = All-set MshrIsPlaced c.mshrs i _ h.missing (p, tt);
            answered = h.answered;
          })
  ]
]
  where
    t : MshrTarget
    t = record { rob_index = rob_index; reg = reg; addr = addr; seq = seq }

    joined : Option (List MshrEntry)
    joined = join_mshr c.mshrs (block_of addr) t

squash_mshr-placed : (b : ℕ) (m : MshrEntry) → MshrIsPlaced m → MshrIsPlaced (squash_mshr b m)
squash_mshr-placed b m h = if-both MshrIsPlaced (not m.valid) h (
    left_over (keep (λ t. not (ltb b t.seq)) m.targets)
      (All-keep TargetIsPlaced (λ t. not (ltb b t.seq)) m.targets h))
  where
    left_over :
        (ts : List MshrTarget)
        → All TargetIsPlaced ts
        → MshrIsPlaced (elim ts [
          | [] ↦ record m { targets = []; valid = false; fill_pending = false }
          | t ∷ ts' ↦ record m { targets = t ∷ ts' }
        ])
    left_over [] h = tt
    left_over (t ∷ ts') h = h

pub squash-placed :
    (c : NonBlockingCache) (b : ℕ) → AreMissesPlaced c → AreMissesPlaced (squash c b)
unfolding squash
squash-placed c b h = record {
  missing =
      All_map MshrIsPlaced MshrIsPlaced (squash_mshr b) c.mshrs (squash_mshr-placed b) h.missing;
  answered = h.answered;
}

answer-placed :
    (mem : MemoryOoo) (ts : List MshrTarget)
    → All TargetIsPlaced ts
    → All ResponseIsPlaced (answer_targets mem ts).0
unfolding answer_targets
answer-placed mem [] h = tt
answer-placed mem (t ∷ ts) h = (h.0, answer-placed (access mem t.addr 0 reading).2 ts h.1)

check_mshr-placed :
    (mem : MemoryOoo) (m : MshrEntry)
    → MshrIsPlaced m
    → All ResponseIsPlaced (check_mshr mem m).0 × MshrIsPlaced (check_mshr mem m).1
unfolding check_mshr fill_mshr
check_mshr-placed mem m h =
    if-both Placed (not m.valid) (tt, h)
      (if-both Placed (not m.fill_pending && ltb 0 m.countdown) (tt, h)
        (if-both Placed (drive_fill 4 mem m.block_addr).0
          (answer-placed (drive_fill 4 mem m.block_addr).1 m.targets h, tt) (tt, h)))
  where
    Placed : List CacheResponse × MshrEntry × MemoryOoo → Type 0
    Placed o = All ResponseIsPlaced o.0 × MshrIsPlaced o.1

check_mshrs-placed :
    (mem : MemoryOoo) (ms : List MshrEntry)
    → All MshrIsPlaced ms
    → All ResponseIsPlaced (check_mshrs mem ms).0 × All MshrIsPlaced (check_mshrs mem ms).1
unfolding check_mshrs
check_mshrs-placed mem [] h = (tt, tt)
check_mshrs-placed mem (m ∷ ms) h =
    let first = check_mshr-placed mem m h.0 in
    let rest = check_mshrs-placed (check_mshr mem m).2 ms h.1 in
    (All-append ResponseIsPlaced (check_mshr mem m).0 _ first.0 rest.0, (first.1, rest.1))

pub check_ready-placed :
    (c : NonBlockingCache) (mem : MemoryOoo)
    → AreMissesPlaced c
    → AreMissesPlaced (check_ready c mem).0
unfolding check_ready
check_ready-placed c mem h =
    let after = check_mshrs-placed mem c.mshrs h.missing in
    record {
      missing = after.1;
      answered = All-append ResponseIsPlaced c.ready_responses _ h.answered after.0;
    }
