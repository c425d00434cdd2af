-- ===== src/NonBlockingCache.antt =====
-- `NonBlockingCache` of memory_ooo.h and memory_ooo.cpp: the miss status holding registers (MSHRs).
-- The source reaches the memory through a pointer that it shares with the processor, so the memory
-- is an argument and a result here.
pub mod Answers
pub mod Words
pub mod Filed
use superscalar_oooprocessor.Base.{
  ℕ, zero, suc, ◌-◌, Bool, true, false, not, ◌&&◌, Option, none, some, List, [], ◌∷◌, ◌++◌, ltb,
  ◌==◌, if◌then◌else◌, map, keep, set,
}
use superscalar_oooprocessor.Config.{num_mshrs}
use superscalar_oooprocessor.Cache.{block_of}
use superscalar_oooprocessor.MemoryOoo.{MemoryOoo, access, reading}

-- `MSHRTarget`
pub record MshrTarget : Type 0 where
  pub rob_index : Option ℕ
  pub reg : ℕ
  pub addr : ℕ
  pub seq : ℕ

-- `MSHREntry`
pub record MshrEntry : Type 0 where
  pub block_addr : ℕ
  pub valid : Bool
  pub countdown : ℕ
  pub fill_pending : Bool
  pub targets : List MshrTarget

pub record CacheResponse : Type 0 where
  pub rob_index : Option ℕ
  pub reg : ℕ
  pub data_word : ℕ

pub record NonBlockingCache : Type 0 where
  pub mshrs : List MshrEntry
  pub miss_penalty : ℕ
  pub ready_responses : List CacheResponse

abbrev pub free_mshrs : ℕ → (ℕ → MshrEntry) → List MshrEntry
free_mshrs zero entries = []
free_mshrs (suc n) entries =
    record (entries n) { valid = false; fill_pending = false; targets = [] } ∷ free_mshrs n entries

-- `initialize` of a new cache, which has no responses; it sets three fields of each entry.
unfoldable pub initialize : (ℕ → MshrEntry) → ℕ → NonBlockingCache
initialize entries penalty = record {
  mshrs = free_mshrs num_mshrs entries;
  miss_penalty = penalty;
  ready_responses = [];
}

-- The first loop of `allocateMSHR`: a target joins the first valid entry of its block.
unfoldable pub join_mshr : List MshrEntry → ℕ → MshrTarget → Option (List MshrEntry)
join_mshr [] block t = none
join_mshr (m ∷ ms) block t =
    let rest = join_mshr ms block t in
    let later : Option (List MshrEntry) = elim rest [ none ↦ none | some ms' ↦ some (m ∷ ms') ] in
    if m.valid && (m.block_addr == block)
    then some (record m { targets = m.targets ++ (t ∷ []) } ∷ ms)
    else later

-- The loop of `findOpenMSHR`, at index `i`.
unfoldable pub open_from : List MshrEntry → ℕ → Option ℕ
open_from [] i = none
open_from (m ∷ ms) i = if not m.valid then some i else open_from ms (suc i)

unfoldable pub find_open_mshr : List MshrEntry → Option ℕ
unfolding open_from
find_open_mshr ms = open_from ms 0

-- `allocateMSHR`; the entry taken starts at the countdown `miss_penalty - 1`.
unfoldable pub allocate_mshr : NonBlockingCache → ℕ → Option ℕ → ℕ → ℕ → Bool × NonBlockingCache
unfolding join_mshr find_open_mshr
allocate_mshr c addr rob_index reg seq =
    let block = block_of addr in
    let t : MshrTarget = record { rob_index = rob_index; reg = reg; addr = addr; seq = seq } in
    elim (join_mshr c.mshrs block t) [
      | some ms ↦ (true, record c { mshrs = ms })
      | none ↦ elim (find_open_mshr c.mshrs) [
        | none ↦ (false, c)
        | some index ↦ (
          true,
          record c {
            mshrs = set c.mshrs index (record {
              block_addr = block;
              valid = true;
              countdown = c.miss_penalty - 1;
              fill_pending = false;
              targets = t ∷ [];
            });
          },
        )
      ]
    ]

-- One round of the loop of `squash`.
abbrev pub squash_mshr : ℕ → MshrEntry → MshrEntry
squash_mshr branch_seq m =
    let left = keep (λ t. not (ltb branch_seq t.seq)) m.targets in
    if not m.valid then m else elim left [
      | [] ↦ record m { targets = []; valid = false; fill_pending = false }
      | t ∷ ts ↦ record m { targets = t ∷ ts }
    ]

unfoldable pub squash : NonBlockingCache → ℕ → NonBlockingCache
squash c branch_seq = record c { mshrs = map (squash_mshr branch_seq) c.mshrs }

-- `for (safety = 0; safety < n && !done; safety++) done = memory->access(...)`
unfoldable pub drive_fill : ℕ → MemoryOoo → ℕ → Bool × MemoryOoo
drive_fill zero m addr = (false, m)
drive_fill (suc n) m addr =
    let (done, _, m') = access m addr 0 reading in
    let rest = drive_fill n m' addr in if done then (true, m') else rest

-- The responses of the targets, in order; `word` starts at 0.
unfoldable pub answer_targets : MemoryOoo → List MshrTarget → List CacheResponse × MemoryOoo
answer_targets m [] = ([], m)
answer_targets m (t ∷ ts) =
    let (_, word, m') = access m t.addr 0 reading in
    let (rs, m'') = answer_targets m' ts in
    (record { rob_index = t.rob_index; reg = t.reg; data_word = word } ∷ rs, m'')

-- A fill whose latency has passed: the responses, the entry and the memory.
unfoldable pub fill_mshr : MemoryOoo → MshrEntry → List CacheResponse × MshrEntry × MemoryOoo
unfolding drive_fill answer_targets
fill_mshr mem m =
    let (done, mem') = drive_fill 4 mem m.block_addr in
    let (rs, mem'') = answer_targets mem' m.targets in
    if done
    then (rs, record m { valid = false; fill_pending = false; targets = [] }, mem'')
    else ([], record m { fill_pending = true }, mem')

-- One round of the loop of `checkReady`.
unfoldable pub check_mshr : MemoryOoo → MshrEntry → List CacheResponse × MshrEntry × MemoryOoo
unfolding fill_mshr
check_mshr mem m =
    if not m.valid
    then ([], m, mem)
    else if not m.fill_pending && ltb 0 m.countdown
    then ([], record m { countdown = m.countdown - 1 }, mem)
    else fill_mshr mem m

unfoldable pub check_mshrs :
    MemoryOoo → List MshrEntry → List CacheResponse × List MshrEntry × MemoryOoo
unfolding check_mshr
check_mshrs mem [] = ([], [], mem)
check_mshrs mem (m ∷ ms) =
    let (rs, m', mem') = check_mshr mem m in
    let (rs', ms', mem'') = check_mshrs mem' ms in (rs ++ rs', m' ∷ ms', mem'')

-- `checkReady`
unfoldable pub check_ready : NonBlockingCache → MemoryOoo → NonBlockingCache × MemoryOoo
unfolding check_mshrs
check_ready c mem =
    let (rs, ms, mem') = check_mshrs mem c.mshrs in
    (record c { mshrs = ms; ready_responses = c.ready_responses ++ rs }, mem')
