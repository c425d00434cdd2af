-- ===== src/OlderCache.antt =====
-- `NonBlockingCache` of non_blocking_cache.h and non_blocking_cache.cpp: the miss status holding
-- registers (MSHRs) over the memory of the in-order processors, which no processor uses. The source
-- reaches the memory through a pointer, so it is an argument and a result here.
pub mod Balance
use superscalar_oooprocessor.Base.{
  ℕ, zero, suc, Bool, true, false, not, ◌&&◌, Option, none, some, List, [], ◌∷◌, ◌++◌, ◌==◌,
  if◌then◌else◌, map, set,
}
use superscalar_oooprocessor.Config.{num_mshrs}
use superscalar_oooprocessor.MemoryOoo.{reading}
use superscalar_oooprocessor.Memory.{Memory, access}

-- The two `int`s are carried along.
pub record MshrTarget : Type 0 where
  pub rob_index : ℕ
  pub reg : ℕ

pub record MshrEntry : Type 0 where
  pub block_addr : ℕ
  pub valid : Bool
  pub targets : List MshrTarget

pub record CacheResponse : Type 0 where
  pub rob_index : ℕ
  pub reg : ℕ
  pub data_word : ℕ

pub record NonBlockingCache : Type 0 where
  pub mshrs : List MshrEntry
  pub ready_responses : List CacheResponse

-- `MSHRs.resize(n)` and the loop that clears `valid`; a new entry is zero.
unfoldable pub resize_free : ℕ → List MshrEntry → List MshrEntry
resize_free zero ms = []
resize_free (suc n) [] = record { block_addr = 0; valid = false; targets = [] } ∷ resize_free n []
resize_free (suc n) (m ∷ ms) = record m { valid = false } ∷ resize_free n ms

unfoldable pub initialize : NonBlockingCache → NonBlockingCache
initialize c = record c { mshrs = resize_free num_mshrs c.mshrs }

-- The first loop of `allocateMSHR`: a target joins the first valid entry of its block.
unfoldable pub join_mshr : List MshrEntry → ℕ → MshrTarget → Option (List MshrEntry)
join_mshr [] block t = none
join_mshr (m ∷ ms) block t =
    let rest = join_mshr ms block t in
    let later : Option (List MshrEntry) = elim rest [ none ↦ none | some ms' ↦ some (m ∷ ms') ] in
    if m.valid && (m.block_addr == block)
    then some (record m { targets = m.targets ++ (t ∷ []) } ∷ ms)
    else later

-- The loop of `findOpenMSHR`, at index `i`.
unfoldable pub open_from : List MshrEntry → ℕ → Option ℕ
open_from [] i = none
open_from (m ∷ ms) i = if not m.valid then some i else open_from ms (suc i)

unfoldable pub find_open_mshr : List MshrEntry → Option ℕ
find_open_mshr ms = open_from ms 0

-- `allocateMSHR`
unfoldable pub allocate_mshr : NonBlockingCache → ℕ → ℕ → ℕ → Bool × NonBlockingCache
allocate_mshr c block_addr rob_index reg =
    let t : MshrTarget = record { rob_index = rob_index; reg = reg } in
    elim (join_mshr c.mshrs block_addr t) [
      | some ms ↦ (true, record c { mshrs = ms })
      | none ↦ elim (find_open_mshr c.mshrs) [
        | none ↦ (false, c)
        | some index ↦ (
          true,
          record c {
            mshrs =
                set c.mshrs index
                  (record { block_addr = block_addr; valid = true; targets = t ∷ [] });
          },
        )
      ]
    ]

abbrev pub respond : ℕ → MshrTarget → CacheResponse
respond word t = record { rob_index = t.rob_index; reg = t.reg; data_word = word }

-- The loop of `checkReady`: the entries, the responses that are ready, and the memory.
unfoldable pub check_mshrs : List MshrEntry → Memory → List MshrEntry × List CacheResponse × Memory
check_mshrs [] memory = ([], [], memory)
check_mshrs (m ∷ ms) memory =
    let (ready, word, memory1) = access memory m.block_addr 0 reading in
    let (skipped, skipped_responses, memory2) = check_mshrs ms memory in
    let (tried, responses, memory3) = check_mshrs ms memory1 in
    if not m.valid
    then (m ∷ skipped, skipped_responses, memory2)
    else if ready
    then (record m { valid = false } ∷ tried, map (respond word) m.targets ++ responses, memory3)
    else (m ∷ tried, responses, memory3)

-- `checkReady`
unfoldable pub check_ready : NonBlockingCache → Memory → NonBlockingCache × Memory
check_ready c memory =
    let (mshrs', responses, memory') = check_mshrs c.mshrs memory in
    (record c { mshrs = mshrs'; ready_responses = c.ready_responses ++ responses }, memory')
