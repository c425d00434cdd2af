-- ===== src/NonBlockingCache/Answers.antt =====
-- A miss that an MSHR waits for is answered: `checkReady` counts down, fills and responds.
use superscalar_oooprocessor.Base.{
  ℕ, zero, suc, ◌+◌, ◌≡◌, refl, sym, ap, ◌∙◌, subst, true, false, not, ◌&&◌, Option, List, [], ◌∷◌,
  ltb, map, arith, if-cases,
}
use superscalar_oooprocessor.MemoryOoo.{MemoryOoo, access, reading}
use superscalar_oooprocessor.MemoryOoo.Progress.{HasWays, drive_fill-done}
use superscalar_oooprocessor.NonBlockingCache.{
  MshrTarget, MshrEntry, CacheResponse, answer_targets, drive_fill, fill_mshr, check_mshr,
}

-- An entry after `n` rounds of `checkReady`, round `i` over the memory `mems i`.
abbrev pub rounds : (ℕ → MemoryOoo) → ℕ → MshrEntry → MshrEntry
rounds mems zero m = m
rounds mems (suc n) m = (check_mshr (mems n) (rounds mems n m)).1

-- Whom a response and a target are for.
abbrev pub response_for : CacheResponse → Option ℕ × ℕ
response_for r = (r.rob_index, r.reg)

abbrev pub target_for : MshrTarget → Option ℕ × ℕ
target_for t = (t.rob_index, t.reg)

answer_targets-for :
    (mem : MemoryOoo) (ts : List MshrTarget)
    → map response_for (answer_targets mem ts).0 ≡ map target_for ts
unfolding answer_targets
answer_targets-for mem [] = refl
answer_targets-for mem (t ∷ ts) =
    ap (λ rs. target_for t ∷ rs) (answer_targets-for (access mem t.addr 0 reading).2 ts)

-- An entry that waits, with `c` rounds left.
abbrev pub waiting : MshrEntry → ℕ → MshrEntry
waiting m c = record m { countdown = c }

check_mshr-waits :
    (mem : MemoryOoo) (c : ℕ) (m : MshrEntry)
    → m.valid ≡ true
    → m.fill_pending ≡ false
    → (check_mshr mem (waiting m (suc c))).1 ≡ waiting m c
unfolding check_mshr
check_mshr-waits mem c m v p =
    let P : List CacheResponse × MshrEntry × MemoryOoo → Type 0 = λ r. r.1 ≡ waiting m c in
    if-cases P (not m.valid) (λ e. absurd (ground (arith, e, v)))
      (λ _.
        if-cases P (not m.fill_pending && ltb 0 (suc c)) (λ _. ap (waiting m) (omega arith))
          (λ e. absurd (ground (arith, e, p))))

pub check_mshr-due :
    (mem : MemoryOoo) (m : MshrEntry)
    → m.valid ≡ true
    → check_mshr mem (waiting m 0) ≡ fill_mshr mem (waiting m 0)
unfolding check_mshr
check_mshr-due mem m v =
    let P : List CacheResponse × MshrEntry × MemoryOoo → Type 0 =
      λ r. r ≡ fill_mshr mem (waiting m 0) in
    if-cases P (not m.valid) (λ e. absurd (ground (arith, e, v)))
      (λ _.
        if-cases P (not m.fill_pending && ltb 0 0) (λ e. absurd (ground (arith, e))) (λ _. refl))

pub rounds-waiting :
    (mems : ℕ → MemoryOoo) (n c : ℕ) (m : MshrEntry)
    → m.valid ≡ true
    → m.fill_pending ≡ false
    → m.countdown ≡ n + c
    → rounds mems n m ≡ waiting m c
rounds-waiting mems zero c m v p e = ap (waiting m) (omega (arith, e))
rounds-waiting mems (suc n) c m v p e =
    let before = rounds-waiting mems n (suc c) m v p (omega (arith, e)) in
    ap (λ k. (check_mshr (mems n) k).1) before ∙ check_mshr-waits (mems n) c m v p

-- What a round answers, and what it leaves of the entry, once the countdown is over.
abbrev pub IsAnswered : MemoryOoo → MshrEntry → List MshrTarget → Type 0
IsAnswered mem m targets =
    let (rs, m', _) = check_mshr mem m in
    (map response_for rs ≡ map target_for targets) × (m'.valid ≡ false) × (m'.targets ≡ [])

fill_mshr-answers :
    (mem : MemoryOoo) (m : MshrEntry)
    → HasWays mem
    → let (rs, m', _) = fill_mshr mem m in
      (map response_for rs ≡ map target_for m.targets) × (m'.valid ≡ false) × (m'.targets ≡ [])
unfolding fill_mshr
fill_mshr-answers mem m h =
    rw (drive_fill-done 1 mem m.block_addr h)
      (answer_targets-for (drive_fill 4 mem m.block_addr).1 m.targets, refl, refl)

-- A valid MSHR that is not pending is answered: after as many rounds of `checkReady` as its countdown
-- says, whatever the memories in these rounds, the next one over a memory whose levels have ways
-- gives one response for each target, in order, and frees the entry.
pub rounds-IsAnswered :
    (mems : ℕ → MemoryOoo) (mem : MemoryOoo) (m : MshrEntry)
    → m.valid ≡ true
    → m.fill_pending ≡ false
    → HasWays mem
    → IsAnswered mem (rounds mems m.countdown m) m.targets
rounds-IsAnswered mems mem m v p h =
    subst (λ k. IsAnswered mem k m.targets)
      (sym (rounds-waiting mems m.countdown 0 m v p (omega arith)))
      (subst
        (λ (r : List CacheResponse × MshrEntry × MemoryOoo).
          (map response_for r.0 ≡ map target_for m.targets)
          × (r.1.valid ≡ false)
          × (r.1.targets ≡ []))
        (sym (check_mshr-due mem m v)) (fill_mshr-answers mem (waiting m 0) h))
