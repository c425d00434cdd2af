-- ===== src/OlderCache/Balance.antt =====
-- No target of the older non-blocking cache is lost or answered twice (non_blocking_cache.cpp).
use superscalar_oooprocessor.Base.{
  ℕ, zero, suc, ◌+◌, ◌≤◌, ◌≡◌, refl, subst, Bool, true, false, not, ◌&&◌, some, List, [], ◌∷◌, ◌++◌,
  ◌==◌, if◌then◌else◌, map, set, arith, Bool-cases, Option-cases, inl, inr, ◌-◌, if-cases, if-both,
}
use superscalar_oooprocessor.Config.{num_mshrs}
use superscalar_oooprocessor.MemoryOoo.{reading}
use superscalar_oooprocessor.Memory.{Memory, access}
use superscalar_oooprocessor.OlderCache.{
  MshrTarget, MshrEntry, CacheResponse, NonBlockingCache, resize_free, initialize, join_mshr,
  open_from, find_open_mshr, allocate_mshr, respond, check_mshrs, check_ready,
}

abbrev pub one_if : Bool → ℕ
one_if true = 1
one_if false = 0

-- A call from outside: `allocateMSHR` with its arguments, or `checkReady`.
pub data Event : Type 0 where
  request : ℕ → ℕ → ℕ → Event
  check : Event

-- The calls one after the other, with the targets that were accepted.
unfoldable pub run :
    List Event → NonBlockingCache → Memory → NonBlockingCache × Memory × List MshrTarget
run [] c memory = (c, memory, [])
run (request block_addr rob_index reg ∷ events) c memory =
    let (ok, c') = allocate_mshr c block_addr rob_index reg in
    let (c'', memory', accepted) = run events c' memory in
    let t : MshrTarget = record { rob_index = rob_index; reg = reg } in
    (c'', memory', (if ok then t ∷ accepted else accepted))
run (check ∷ events) c memory = let (c', memory') = check_ready c memory in run events c' memory'

-- How many targets, or responses, pass a test on the two numbers that they carry.
module _ (p : ℕ → ℕ → Bool) where
  abbrev pub targets_of : List MshrTarget → ℕ
  targets_of [] = 0
  targets_of (t ∷ ts) = one_if (p t.rob_index t.reg) + targets_of ts

  abbrev pub waiting : List MshrEntry → ℕ
  waiting [] = 0
  waiting (m ∷ ms) = (if m.valid then targets_of m.targets else 0) + waiting ms

  abbrev pub answered : List CacheResponse → ℕ
  answered [] = 0
  answered (r ∷ rs) = one_if (p r.rob_index r.reg) + answered rs

  targets_of-append :
      (ts us : List MshrTarget) → targets_of (ts ++ us) ≡ targets_of ts + targets_of us
  targets_of-append [] us = omega arith
  targets_of-append (t ∷ ts) us = omega (arith, targets_of-append ts us)

  answered-append : (rs qs : List CacheResponse) → answered (rs ++ qs) ≡ answered rs + answered qs
  answered-append [] qs = omega arith
  answered-append (r ∷ rs) qs = omega (arith, answered-append rs qs)

  answered-map :
      (word : ℕ) (ts : List MshrTarget) → answered (map (respond word) ts) ≡ targets_of ts
  answered-map word [] = refl
  answered-map word (t ∷ ts) = omega (arith, answered-map word ts)

  join_mshr-waiting :
      (ms : List MshrEntry) (block : ℕ) (t : MshrTarget) {ms' : List MshrEntry}
      → join_mshr ms block t ≡ some ms'
      → waiting ms' ≡ waiting ms + one_if (p t.rob_index t.reg)
  unfolding join_mshr
  join_mshr-waiting [] block t e = absurd (cc)
  join_mshr-waiting (m ∷ ms) block t {ms'} e =
      elim (Bool-cases (m.valid && (m.block_addr == block))) [
        | inl here ↦ ground (arith, e, here, targets_of-append m.targets (t ∷ []))
        | inr later ↦ elim (Option-cases (join_mshr ms block t)) [
          | inl stop ↦ absurd (ground (arith, e, later, stop))
          | inr (rest, found) ↦ ground (arith, e, later, found, join_mshr-waiting ms block t found)
        ]
      ]

  open_from-waiting :
      (ms : List MshrEntry) (i j : ℕ) (new : MshrEntry)
      → new.valid ≡ true
      → open_from ms i ≡ some j
      → (i ≤ j) × (waiting (set ms (j - i) new) ≡ waiting ms + targets_of new.targets)
  unfolding open_from
  open_from-waiting [] i j new v e = absurd (cc)
  open_from-waiting (m ∷ ms) i j new v e = elim (Bool-cases m.valid) [
    | inr free ↦
        let here : i ≡ j = ground (arith, e, free) in
        let first : j - i ≡ 0 = omega (arith, here) in
        (omega (arith, here), rw first (ground (arith, free, v)))
    | inl taken ↦
        let (l, ih) = open_from-waiting ms (suc i) j new v (ground (arith, e, taken)) in
        let further : j - i ≡ suc (j - suc i) = omega (arith, l) in
        (omega (arith, l), rw further (omega (arith, ih)))
  ]

  -- What is waiting and what comes out is what was waiting.
  check_mshrs-waiting :
      (ms : List MshrEntry) (memory : Memory)
      → (let (ms', responses, _) = check_mshrs ms memory in
          waiting ms' + answered responses ≡ waiting ms)
  unfolding check_mshrs
  check_mshrs-waiting [] memory = refl
  check_mshrs-waiting (m ∷ ms) memory =
      let (ready, word, memory1) = access memory m.block_addr 0 reading in
      let skipped = check_mshrs-waiting ms memory in
      let tried = check_mshrs-waiting ms memory1 in
      let P : List MshrEntry × List CacheResponse × Memory → Type 0 =
        λ r. waiting r.0 + answered r.1 ≡ waiting (m ∷ ms) in
      if-cases P (not m.valid) (λ v. ground (arith, v, skipped))
        (λ v.
          if-both P ready
            (ground (
              arith,
              v,
              tried,
              answered-append (map (respond word) m.targets) (check_mshrs ms memory1).1,
              answered-map word m.targets,
            ))
            (ground (arith, v, tried)))

  -- What is waiting and what was answered.
  abbrev pub known : NonBlockingCache → ℕ
  known c = waiting c.mshrs + answered c.ready_responses

  allocate_mshr-known :
      (c : NonBlockingCache) (block_addr rob_index reg : ℕ)
      → (let (ok, c') = allocate_mshr c block_addr rob_index reg in
          known c' ≡ known c + (if ok then one_if (p rob_index reg) else 0))
  unfolding allocate_mshr find_open_mshr
  allocate_mshr-known c block_addr rob_index reg =
      let t : MshrTarget = record { rob_index = rob_index; reg = reg } in
      elim (Option-cases (join_mshr c.mshrs block_addr t)) [
        | inr (ms, joined) ↦
            rw (joined, allocate_mshr)
              (omega (arith, join_mshr-waiting c.mshrs block_addr t joined))
        | inl alone ↦ elim (Option-cases (open_from c.mshrs 0)) [
          | inl full ↦ rw (alone, allocate_mshr) (rw (full, find_open_mshr) (omega arith))
          | inr (index, free) ↦
              let new : MshrEntry = record {
                block_addr = block_addr;
                valid = true;
                targets = t ∷ [];
              } in
              let whole : index - 0 ≡ index = omega arith in
              let more = (open_from-waiting c.mshrs 0 index new refl free).1 in
              let stored =
                subst (λ i. waiting (set c.mshrs i new) ≡ waiting c.mshrs + targets_of (t ∷ []))
                  whole more in
              rw (alone, allocate_mshr) (rw (free, find_open_mshr) (omega (arith, stored)))
        ]
      ]

  check_ready-known :
      (c : NonBlockingCache) (memory : Memory) → known (check_ready c memory).0 ≡ known c
  unfolding check_ready
  check_ready-known c memory = omega (
    arith,
    check_mshrs-waiting c.mshrs memory,
    answered-append c.ready_responses (check_mshrs c.mshrs memory).1,
  )

  run-known :
      (events : List Event) (c : NonBlockingCache) (memory : Memory)
      → (let (c', _, accepted) = run events c memory in known c' ≡ known c + targets_of accepted)
  unfolding run
  run-known [] c memory = omega arith
  run-known (request block_addr rob_index reg ∷ events) c memory =
      let c' = (allocate_mshr c block_addr rob_index reg).1 in
      ground (arith, allocate_mshr-known c block_addr rob_index reg, run-known events c' memory)
  run-known (check ∷ events) c memory =
      let (c', memory') = check_ready c memory in
      omega (arith, check_ready-known c memory, run-known events c' memory')

  resize_free-waiting : (n : ℕ) (ms : List MshrEntry) → waiting (resize_free n ms) ≡ 0
  unfolding resize_free
  resize_free-waiting zero ms = refl
  resize_free-waiting (suc n) [] = omega (arith, resize_free-waiting n [])
  resize_free-waiting (suc n) (m ∷ ms) = omega (arith, resize_free-waiting n ms)

-- After `initialize` and any calls of `allocateMSHR` and `checkReady`, over any memory: the targets that
-- pass a test and wait or were answered are as many as those that pass it and were accepted since
-- `initialize` or answered before, whatever the test. So each accepted target waits or was answered, once.
pub run-balanced :
    (p : ℕ → ℕ → Bool) (events : List Event) (c : NonBlockingCache) (memory : Memory)
    → (let (c', _, accepted) = run events (initialize c) memory in
        waiting p c'.mshrs + answered p c'.ready_responses
        ≡ answered p c.ready_responses + targets_of p accepted)
unfolding initialize
run-balanced p events c memory =
    omega (arith, run-known p events (initialize c) memory, resize_free-waiting p num_mshrs c.mshrs)
