-- ===== src/Memory/Nearer.antt =====
-- What a read of `Memory` that is not done leaves: the line is nearer.
use superscalar_oooprocessor.Base.{
  ℕ, ◌+◌, ◌/◌, ◌≡◌, refl, sym, ap, ap₂, subst, ◌∙◌, Bool, true, false, ◌&&◌, Option, none, some,
  ◌==◌, if◌then◌else◌, Option-cases, inl, inr, ◌⊎◌, arith, if-both, if-cases,
}
use superscalar_oooprocessor.Cache.{CacheLine, CacheLevel}
use superscalar_oooprocessor.Cache.Fills.{found}
use superscalar_oooprocessor.MemoryOoo.{reading, fetch_words, store_words}
use superscalar_oooprocessor.StallCache.{StallCache}
use superscalar_oooprocessor.StallCache
use superscalar_oooprocessor.StallCache.Replaced.{holds, replace-IsReplaced}
use superscalar_oooprocessor.StallCache.Edited.{
  invalidate_line-IsOrdered, alike-IsOrdered, alike-holds, write_back_line-IsAlike,
}
use superscalar_oooprocessor.StallCache.Reads.{IsTimed, IsRead, read-IsRead}
use superscalar_oooprocessor.Memory.{Memory, try_level, set_level, fill_l1, fill_l2, access}

-- Both levels are in order, with the penalties `p1` and `p2`.
pub record IsReady (m : Memory) (p1 p2 : ℕ) : Type 0 where
  pub l1_timed : IsTimed m.l1 p1
  pub l2_timed : IsTimed m.l2 p2

try_level-reading :
    (c : StallCache) (address read_data : ℕ)
    → ((try_level c address read_data reading).0 ≡ found (StallCache.read c address).0)
      × ((try_level c address read_data reading).2 ≡ (StallCache.read c address).1)
unfolding try_level
try_level-reading c address read_data = elim (Option-cases (StallCache.read c address).0) [
  | inl e ↦ rw (e, try_level) (refl, refl)
  | inr (w, e) ↦ rw (e, try_level) (refl, refl)
]

-- The state after both levels were read.
abbrev tried : Memory → ℕ → Memory
tried m address = record m {
  l1 = (StallCache.read m.l1 address).1;
  l2 = (StallCache.read m.l2 address).1;
}

-- What a read that is not done leaves.
pub record IsNearer (m : Memory) (address p1 p2 : ℕ) (m' : Memory) : Type 0 where
  pub ready : IsReady m' p1 p2
  pub l2_holds : holds m'.l2.level address ≡ true
  pub l1_waits : holds m.l1.level address ≡ true → m'.l1.miss_countdown + 1 ≡ m.l1.miss_countdown
  pub l1_stays :
      holds m.l2.level address ≡ true
      → holds m.l1.level address ≡ true
      → holds m'.l1.level address ≡ true
  pub l2_steps :
      holds m.l2.level address ≡ true
      → (holds m'.l1.level address ≡ true) ⊎ (m'.l2.miss_countdown + 1 ≡ m.l2.miss_countdown)

-- A read in its parts.
access-cases :
    (P : Bool × ℕ × Memory → Type 0) (m : Memory) (address read_data : ℕ)
    → ((word : ℕ) (m' : Memory) → P (true, word, m'))
    → ((word : ℕ)
        → found (StallCache.read m.l1 address).0 ≡ false
        → found (StallCache.read m.l2 address).0 ≡ true
        → P (false, word, fill_l1 (tried m address) address))
    → ((word : ℕ)
        → found (StallCache.read m.l1 address).0 ≡ false
        → found (StallCache.read m.l2 address).0 ≡ false
        → P (false, word, fill_l2 (tried m address) address))
    → P (access m address read_data reading)
unfolding access
access-cases P m address read_data ready near far =
    let (hit1, data1, l1') = try_level m.l1 address read_data reading in
    let (hit2, data2, l2') = try_level m.l2 address data1 reading in
    let (e1, s1) = try_level-reading m.l1 address read_data in
    let (e2, s2) = try_level-reading m.l2 address data1 in
    let same : tried m address ≡ record m { l1 = l1'; l2 = l2' } =
      ap₂ (λ (a b : StallCache). record m { l1 = a; l2 = b }) (sym s1) (sym s2) in
    if-both P (m.opt_level == 0) (ready (m.mem (address / 4)) m) (
      if-cases P hit1 (λ _. ready data1 (record m { l1 = l1' }))
        (λ n.
          if-cases P hit2
            (λ h.
              subst (λ t. P (false, data2, fill_l1 t address)) same
                (near data2 (sym e1 ∙ n) (sym e2 ∙ h)))
            (λ h.
              subst (λ t. P (false, data2, fill_l2 t address)) same
                (far data2 (sym e1 ∙ n) (sym e2 ∙ h)))))

-- What a read that misses in L1 leaves of the levels, before a line moves.
module _ (m : Memory) (address p1 p2 : ℕ) (ready : IsReady m p1 p2)
    (missed : found (StallCache.read m.l1 address).0 ≡ false) where
  l1_read : IsRead m.l1 address (StallCache.read m.l1 address)
  l1_read = read-IsRead m.l1 address

  l2_read : IsRead m.l2 address (StallCache.read m.l2 address)
  l2_read = read-IsRead m.l2 address

  tried-IsReady : IsReady (tried m address) p1 p2
  tried-IsReady = record {
    l1_timed = l1_read.timed p1 ready.l1_timed;
    l2_timed = l2_read.timed p2 ready.l2_timed;
  }

  tried-waits :
      holds m.l1.level address ≡ true
      → (tried m address).l1.miss_countdown + 1 ≡ m.l1.miss_countdown
  tried-waits held = l1_read.waits (ground (arith, held, missed, l1_read.hit))

  fill_l1-IsNearer :
      found (StallCache.read m.l2 address).0 ≡ true
      → IsNearer m address p1 p2 (fill_l1 (tried m address) address)
  unfolding fill_l1 StallCache.write_back_line
  fill_l1-IsNearer found_l2 =
      let t = tried m address in
      let line = StallCache.read_line m.indeterminate t.l2.level address in
      let (out, l1') = StallCache.replace t.l1.level address line in
      let timed = tried-IsReady in
      let put = replace-IsReplaced t.l1.level address line timed.l1_timed.ordered in
      let evicted : CacheLine = elim out [ none ↦ m.indeterminate | some e ↦ e ] in
      let back = write_back_line-IsAlike t.l2.level evicted in
      let held : holds t.l2.level address ≡ true =
        ground (arith, found_l2, l2_read.hit, l2_read.kept) in
      record {
        ready = record {
          l1_timed = record {
            ordered = put.ordered;
            penalised = put.penalty ∙ timed.l1_timed.penalised;
            countdown = timed.l1_timed.countdown;
          };
          l2_timed =
              if-both (λ (c : StallCache). IsTimed c p2) (evicted.valid && evicted.dirty)
                (record {
                  ordered =
                      alike-IsOrdered t.l2.level
                        (StallCache.write_back_line t.l2.level evicted).line back
                        timed.l2_timed.ordered;
                  penalised = timed.l2_timed.penalised;
                  countdown = timed.l2_timed.countdown;
                })
                timed.l2_timed;
        };
        l2_holds =
            if-both (λ (c : StallCache). holds c.level address ≡ true)
              (evicted.valid && evicted.dirty)
              (alike-holds t.l2.level (StallCache.write_back_line t.l2.level evicted).line address
                  back
                ∙ held)
              held;
        l1_waits = tried-waits;
        l1_stays = λ _ _. put.put_in;
        l2_steps = λ _. inl put.put_in;
      }

  -- The third branch of `access`, from what `replace` evicts.
  abbrev placed : CacheLevel → Option CacheLine → Memory
  placed l2' out =
      let t = tried m address in
      let filled : Memory = record t { l2 = set_level t.l2 l2' } in
      elim out [
        | none ↦ filled
        | some evicted ↦
            if evicted.valid
            then record filled {
              l1 = set_level t.l1 (StallCache.invalidate_line t.l1.level evicted.address);
              mem =
                  if evicted.dirty then store_words m.mem evicted.address evicted.words else m.mem;
            }
            else filled
      ]

  placed-IsNearer :
      (l2' : CacheLevel) (out : Option CacheLine)
      → found (StallCache.read m.l2 address).0 ≡ false
      → IsTimed (set_level (tried m address).l2 l2') p2
      → holds l2' address ≡ true
      → (holds m.l2.level address ≡ true → out ≡ none)
      → IsNearer m address p1 p2 (placed l2' out)
  unfolding StallCache.invalidate_line
  placed-IsNearer l2' none missed_l2 timed held there = record {
    ready = record { l1_timed = tried-IsReady.l1_timed; l2_timed = timed };
    l2_holds = held;
    l1_waits = tried-waits;
    l1_stays = λ _ h. l1_read.kept ∙ h;
    l2_steps = λ h. inr (l2_read.waits (ground (arith, h, missed_l2, l2_read.hit)));
  }
  placed-IsNearer l2' (some evicted) missed_l2 timed held there =
      if-both (IsNearer m address p1 p2) evicted.valid
        (record {
          ready = record {
            l1_timed = record {
              ordered =
                  invalidate_line-IsOrdered (tried m address).l1.level evicted.address
                    tried-IsReady.l1_timed.ordered;
              penalised = tried-IsReady.l1_timed.penalised;
              countdown = tried-IsReady.l1_timed.countdown;
            };
            l2_timed = timed;
          };
          l2_holds = held;
          l1_waits = tried-waits;
          l1_stays = λ h. absurd (ground (arith, there h));
          l2_steps = λ h. absurd (ground (arith, there h));
        })
        (record {
          ready = record { l1_timed = tried-IsReady.l1_timed; l2_timed = timed };
          l2_holds = held;
          l1_waits = tried-waits;
          l1_stays = λ h. absurd (ground (arith, there h));
          l2_steps = λ h. absurd (ground (arith, there h));
        })

  fill_l2-IsNearer :
      found (StallCache.read m.l2 address).0 ≡ false
      → IsNearer m address p1 p2 (fill_l2 (tried m address) address)
  unfolding fill_l2
  fill_l2-IsNearer missed_l2 =
      let t = tried m address in
      let line : CacheLine = record m.indeterminate { words = fetch_words m.mem address } in
      let (out, l2') = StallCache.replace t.l2.level address line in
      let timed = tried-IsReady.l2_timed in
      let put = replace-IsReplaced t.l2.level address line timed.ordered in
      placed-IsNearer l2' out missed_l2
        (record {
          ordered = put.ordered;
          penalised = put.penalty ∙ timed.penalised;
          countdown = timed.countdown;
        })
        put.put_in
        (λ h. ap (λ (o : Option CacheLine × CacheLevel). o.0) (put.there (l2_read.kept ∙ h)))

-- A read is done, or it leaves the memory nearer.
pub access-IsNearer :
    (m : Memory) (address p1 p2 : ℕ)
    → IsReady m p1 p2
    → ((access m address 0 reading).0 ≡ true)
      ⊎ IsNearer m address p1 p2 (access m address 0 reading).2
access-IsNearer m address p1 p2 ready =
    access-cases (λ r. (r.0 ≡ true) ⊎ IsNearer m address p1 p2 r.2) m address 0 (λ _ _. inl refl)
      (λ _ missed near. inr (fill_l1-IsNearer m address p1 p2 ready missed near))
      (λ _ missed far. inr (fill_l2-IsNearer m address p1 p2 ready missed far))
