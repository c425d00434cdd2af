-- ===== src/MemoryOoo/Progress.antt =====
-- Repeating an access of `MemoryOOO` ends in a hit: each walk brings the line one level closer.
use superscalar_oooprocessor.Base.{
  ℕ, suc, ◌/◌, ◌<◌, ◌≡◌, refl, sym, ap, ◌∙◌, subst, Bool, true, false, Option, none, some, ◌==◌,
  Option-cases, inl, inr, ◌⊎◌, arith, if-both, if-cases,
}
use superscalar_oooprocessor.Cache.{CacheLine, CacheLevel}
use superscalar_oooprocessor.Cache
use superscalar_oooprocessor.Cache.Fills.{
  holds, replace-holds, replace-assoc, read-holds, read-keeps,
}
use superscalar_oooprocessor.NonBlockingCache.{drive_fill}
use superscalar_oooprocessor.MemoryOoo.{
  MemoryOoo, reading, try_level, fill_l1, fill_l2, fetch_words, access,
}

-- The levels have ways.
pub record HasWays (m : MemoryOoo) : Type 0 where
  pub l1_ways : 0 < m.l1.assoc
  pub l2_ways : 0 < m.l2.assoc

pub option-both :
    {A : Type 0} (P : MemoryOoo → Type 0) (o : Option A) {x : MemoryOoo} {f : A → MemoryOoo}
    → P x
    → ((a : A) → P (f a))
    → P (elim o [ none ↦ x | some a ↦ f a ])
option-both P none h k = h
option-both P (some a) h k = k a

-- Trying a level to read.
try_level-reading :
    (c : CacheLevel) (address read_data : ℕ)
    → ((try_level c address read_data reading).0 ≡ holds c address)
      × ((try_level c address read_data reading).2 ≡ (Cache.read c address).1)
unfolding try_level
try_level-reading c address read_data = elim (Option-cases (Cache.read c address).0) [
  | inl e ↦ rw (sym (read-holds c address)) (rw (e, try_level) (refl, refl))
  | inr (w, e) ↦ rw (sym (read-holds c address)) (rw (e, try_level) (refl, refl))
]

pub fill_l1-holds :
    (m : MemoryOoo) (address : ℕ) → 0 < m.l1.assoc → holds (fill_l1 m address).l1 address ≡ true
unfolding fill_l1
fill_l1-holds m address ways =
    replace-holds m.l1 address (Cache.read_line m.indeterminate m.l2 address) ways

pub fill_l2-holds :
    (m : MemoryOoo) (address : ℕ) → 0 < m.l2.assoc → holds (fill_l2 m address).l2 address ≡ true
unfolding fill_l2 Cache.invalidate_line
fill_l2-holds m address ways =
    let line : CacheLine = record m.indeterminate { words = fetch_words m.mem address } in
    let (out, l2') = Cache.replace m.l2 address line in
    let put = replace-holds m.l2 address line ways in
    option-both (λ (x : MemoryOoo). holds x.l2 address ≡ true) out put
      (λ evicted. if-both (λ (x : MemoryOoo). holds x.l2 address ≡ true) evicted.valid put put)

-- The state after both levels were tried.
abbrev tried : MemoryOoo → ℕ → ℕ → MemoryOoo
tried m address read_data =
    let (_, data1, l1') = try_level m.l1 address read_data reading in
    let (_, _, l2') = try_level m.l2 address data1 reading in record m { l1 = l1'; l2 = l2' }

-- A read is done, or it is not in L1 and moves the line.
access-cases :
    (P : Bool × ℕ × MemoryOoo → Type 0) (m : MemoryOoo) (address read_data : ℕ)
    → ((word : ℕ) (m' : MemoryOoo) → P (true, word, m'))
    → ((word : ℕ)
        → holds m.l2 address ≡ true
        → P (false, word, fill_l1 (tried m address read_data) address))
    → ((word : ℕ)
        → holds m.l2 address ≡ false
        → P (false, word, fill_l2 (tried m address read_data) address))
    → P (access m address read_data reading)
unfolding access
access-cases P m address read_data ready near far =
    let (hit1, data1, l1') = try_level m.l1 address read_data reading in
    let (hit2, data2, l2') = try_level m.l2 address data1 reading in
    if-both P (m.opt_level == 0) (ready (m.mem (address / 4)) m) (
      if-both P hit1 (ready data1 (record m { l1 = l1' })) (
        if-cases P hit2 (λ h. near data2 (sym (try_level-reading m.l2 address data1).0 ∙ h))
          (λ h. far data2 (sym (try_level-reading m.l2 address data1).0 ∙ h))))

access-hit :
    (m : MemoryOoo) (address read_data : ℕ)
    → holds m.l1 address ≡ true
    → (access m address read_data reading).0 ≡ true
unfolding access
access-hit m address read_data h =
    let (hit, data1, l1') = try_level m.l1 address read_data reading in
    if-both (λ (r : Bool × ℕ × MemoryOoo). r.0 ≡ true) (m.opt_level == 0) refl
      (if-cases (λ (r : Bool × ℕ × MemoryOoo). r.0 ≡ true) hit (λ _. refl)
        (λ e. ground (arith, e, h, (try_level-reading m.l1 address read_data).0)))

tried-ways :
    (m : MemoryOoo) (address read_data : ℕ) → HasWays m → HasWays (tried m address read_data)
tried-ways m address read_data h =
    let data1 = (try_level m.l1 address read_data reading).1 in
    let first = (try_level-reading m.l1 address read_data).1 in
    let second = (try_level-reading m.l2 address data1).1 in
    record {
      l1_ways =
          subst (λ k. 0 < k)
            (sym (ap (λ (c : CacheLevel). c.assoc) first ∙ (read-keeps m.l1 address).1)) h.l1_ways;
      l2_ways =
          subst (λ k. 0 < k)
            (sym (ap (λ (c : CacheLevel). c.assoc) second ∙ (read-keeps m.l2 address).1)) h.l2_ways;
    }

-- One of the levels holds the block.
abbrev Near : MemoryOoo → ℕ → Type 0
Near m address = HasWays m × ((holds m.l1 address ≡ true) ⊎ (holds m.l2 address ≡ true))

pub fill_l1-ways : (m : MemoryOoo) (address : ℕ) → HasWays m → HasWays (fill_l1 m address)
unfolding fill_l1 Cache.write_back_line
fill_l1-ways m address h = record {
  l1_ways = subst (λ k. 0 < k) (sym (replace-assoc m.l1 address _)) h.l1_ways;
  l2_ways = if-both (λ (c : CacheLevel). 0 < c.assoc) _ h.l2_ways h.l2_ways;
}

pub fill_l2-ways : (m : MemoryOoo) (address : ℕ) → HasWays m → HasWays (fill_l2 m address)
unfolding fill_l2 Cache.invalidate_line
fill_l2-ways m address h =
    let line : CacheLine = record m.indeterminate { words = fetch_words m.mem address } in
    let kept = subst (λ k. 0 < k) (sym (replace-assoc m.l2 address line)) h.l2_ways in
    option-both HasWays (Cache.replace m.l2 address line).0
      (record { l1_ways = h.l1_ways; l2_ways = kept })
      (λ evicted.
        if-both HasWays evicted.valid (record { l1_ways = h.l1_ways; l2_ways = kept })
          (record { l1_ways = h.l1_ways; l2_ways = kept }))

-- The first walk is done, or the block is in a level afterwards.
walk-Near :
    (m : MemoryOoo) (address read_data : ℕ)
    → HasWays m
    → ((access m address read_data reading).0 ≡ true)
      ⊎ Near (access m address read_data reading).2 address
walk-Near m address read_data h =
    let t = tried m address read_data in
    let ways = tried-ways m address read_data h in
    access-cases (λ r. (r.0 ≡ true) ⊎ Near r.2 address) m address read_data (λ _ _. inl refl)
      (λ _ _. inr (fill_l1-ways t address ways, inl (fill_l1-holds t address ways.l1_ways)))
      (λ _ _. inr (fill_l2-ways t address ways, inr (fill_l2-holds t address ways.l2_ways)))

-- The second one is done, or the block is in L1 afterwards.
walk-holds :
    (m : MemoryOoo) (address read_data : ℕ)
    → Near m address
    → ((access m address read_data reading).0 ≡ true)
      ⊎ (holds (access m address read_data reading).2.l1 address ≡ true)
walk-holds m address read_data (h, inl in_l1) = inl (access-hit m address read_data in_l1)
walk-holds m address read_data (h, inr in_l2) =
    let t = tried m address read_data in
    let ways = tried-ways m address read_data h in
    access-cases (λ r. (r.0 ≡ true) ⊎ (holds r.2.l1 address ≡ true)) m address read_data
      (λ _ _. inl refl) (λ _ _. inr (fill_l1-holds t address ways.l1_ways))
      (λ _ e. absurd (ground (arith, e, in_l2)))

drive_fill-next :
    (n : ℕ) (m : MemoryOoo) (address : ℕ)
    → ((access m address 0 reading).0 ≡ true)
      ⊎ ((drive_fill n (access m address 0 reading).2 address).0 ≡ true)
    → (drive_fill (suc n) m address).0 ≡ true
unfolding drive_fill
drive_fill-next n m address (inl e) = rw e refl
drive_fill-next n m address (inr e) =
    if-both (λ (r : Bool × MemoryOoo). r.0 ≡ true) (access m address 0 reading).0 refl e

-- Whatever the memory holds, three walks of a read are enough, so that the loop of `checkReady`,
-- which allows four, ends with the line in L1.
pub drive_fill-done :
    (n : ℕ) (m : MemoryOoo) (address : ℕ)
    → HasWays m
    → (drive_fill (suc (suc (suc n))) m address).0 ≡ true
drive_fill-done n m address h =
    drive_fill-next (suc (suc n)) m address (elim (walk-Near m address 0 h) [
      | inl e ↦ inl e
      | inr near ↦ inr (second (access m address 0 reading).2 near)
    ])
  where
    second : (m' : MemoryOoo) → Near m' address → (drive_fill (suc (suc n)) m' address).0 ≡ true
    second m' near = drive_fill-next (suc n) m' address (elim (walk-holds m' address 0 near) [
      | inl e ↦ inl e
      | inr held ↦ inr (
          drive_fill-next n (access m' address 0 reading).2 address
            (inl (access-hit (access m' address 0 reading).2 address 0 held)))
    ])
