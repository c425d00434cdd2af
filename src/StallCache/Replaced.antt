-- ===== src/StallCache/Replaced.antt =====
-- What `isHit`, `read` and `replace` of a stalling cache do to a ranked level.
use superscalar_oooprocessor.Base.{
  ℕ, zero, suc, ◌+◌, ◌*◌, ◌≤◌, ◌<◌, ◌≡◌, refl, sym, ap, subst, ◌∙◌, Bool, true, false, not, ◌&&◌,
  ◌||◌, Option, none, some, ◌==◌, update, update_self, Bool-cases, Option-cases, ==-true→eq, inl,
  inr, arith,
}
use superscalar_oooprocessor.Cache.{
  CacheLine, CacheLevel, get_index, way_of, find_way, update_replacement_bits,
}
use superscalar_oooprocessor.Cache.Fills.{found, find_way-found}
use superscalar_oooprocessor.Cache.Hits.{find_way-same, update_replacement_bits-same}
use superscalar_oooprocessor.StallCache.{get_tag, lookup, is_hit, find_slot, replace}
use superscalar_oooprocessor.StallCache.Ranks.{shrink-IsRanked, ranked-free}
use superscalar_oooprocessor.StallCache.Victims.{
  IsRankedLevel, update_replacement_bits-IsRankedLevel,
}

-- A way that may be replaced.
abbrev is_free : CacheLevel → ℕ → ℕ → Bool
is_free c idx w = not (way_of c idx w).valid || ((way_of c idx w).repl_bits == 0)

find_slot-none :
    (c : CacheLevel) (idx n w : ℕ)
    → find_slot c idx n w ≡ none
    → (k : ℕ) → w ≤ k
    → k < w + n
    → is_free c idx k ≡ false
unfolding find_slot
find_slot-none c idx zero w e k p q = absurd (omega arith)
find_slot-none c idx (suc n) w e k p q = elim (Bool-cases (w == k)) [
  | inl t ↦ subst (λ j. is_free c idx j ≡ false) (==-true→eq w k t) (ground (arith, e))
  | inr f ↦ find_slot-none c idx n (suc w) (ground (arith, e)) k (ground (arith, f)) (omega arith)
]

find_slot-lt : (c : CacheLevel) (idx n w v : ℕ) → find_slot c idx n w ≡ some v → v < w + n
unfolding find_slot
find_slot-lt c idx zero w v e = ground (arith, e)
find_slot-lt c idx (suc n) w v e = ground (arith, e, find_slot-lt c idx n (suc w) v)

find_way-matches :
    (c : CacheLevel) (idx tag n w v : ℕ)
    → find_way c idx tag n w ≡ some v
    → (v < w + n) × ((way_of c idx v).valid ≡ true)
unfolding find_way
find_way-matches c idx tag zero w v e = ground (arith, e)
find_way-matches c idx tag (suc n) w v e = ground (arith, e, find_way-matches c idx tag n (suc w) v)

-- The block of `address` is in the level.
abbrev pub holds : CacheLevel → ℕ → Bool
holds c address = found (lookup c address)

-- A level with ways whose sets are ranked.
pub record IsOrdered (c : CacheLevel) : Type 0 where
  pub ways : 0 < c.assoc
  pub ranked : IsRankedLevel c

-- What a look-up leaves, and whether it hit.
pub record IsLookedUp (c : CacheLevel) (address : ℕ) (o : Option ℕ × CacheLevel) : Type 0 where
  pub hit : found o.0 ≡ holds c address
  pub kept : holds o.1 address ≡ holds c address
  pub ordered : IsOrdered c → IsOrdered o.1
  pub penalty : o.1.miss_penalty ≡ c.miss_penalty

pub is_hit-IsLookedUp : (c : CacheLevel) (address : ℕ) → IsLookedUp c address (is_hit c address)
unfolding is_hit lookup update_replacement_bits get_index get_tag
is_hit-IsLookedUp c address = elim (Option-cases (lookup c address)) [
  | inl e ↦
      rw (e, is_hit)
        (record { hit = sym (ap found e); kept = refl; ordered = λ h. h; penalty = refl })
  | inr (w, e) ↦
      let idx = get_index c address in
      let tag = get_tag c address in
      let (in_set, valid) = find_way-matches c idx tag c.assoc 0 w e in
      rw (e, is_hit)
        (record {
          hit = sym (ap found e);
          kept = ap found (
              find_way-same c (update_replacement_bits c idx w).line
                (λ i. (update_replacement_bits-same c idx w i).block) idx tag c.assoc 0);
          ordered = λ h. record {
            ways = h.ways;
            ranked = update_replacement_bits-IsRankedLevel c idx w (omega arith) valid h.ranked;
          };
          penalty = refl;
        })
]

abbrev filled_line : CacheLevel → ℕ → CacheLine → CacheLine
filled_line c address line = record line {
  address = address;
  tag = get_tag c address;
  valid = true;
  repl_bits = 0;
}

-- The level after the block was put into the way `v`.
abbrev filled : CacheLevel → ℕ → CacheLine → ℕ → CacheLevel
filled c address line v = record c {
  line = update c.line (get_index c address * c.assoc + v) (filled_line c address line);
}

filled-IsOrdered :
    (c : CacheLevel) (address : ℕ) (line : CacheLine) (v : ℕ)
    → IsOrdered c
    → IsOrdered (filled c address line v)
filled-IsOrdered c address line v h =
    let place = get_index c address * c.assoc + v in
    let new = filled_line c address line in
    record {
      ways = h.ways;
      ranked = λ idx.
          shrink-IsRanked (way_of c idx) (λ w. update c.line place new (idx * c.assoc + w)) c.assoc
            (λ k w _ pos a. ground (arith, a, pos)) (h.ranked idx);
    }

filled-holds :
    (c : CacheLevel) (address : ℕ) (line : CacheLine) (v : ℕ)
    → v < c.assoc
    → holds (filled c address line v) address ≡ true
unfolding lookup get_index get_tag
filled-holds c address line v l =
    find_way-found (filled c address line v) (get_index c address) (get_tag c address) c.assoc 0 v
      (omega arith) (omega arith)
      (ap (λ (k : CacheLine). k.valid && (k.tag == get_tag c address))
          (update_self c.line (get_index c address * c.assoc + v) (filled_line c address line))
        ∙ same_tag (get_tag c address))
  where
    same_tag : (t : ℕ) → (t == t) ≡ true
    same_tag t = ground arith

-- `replace` keeps the order of a level, puts the block in, and changes nothing if it is there.
pub record IsReplaced (c : CacheLevel) (address : ℕ) (o : Option CacheLine × CacheLevel)
    : Type 0 where
  pub ordered : IsOrdered o.1
  pub put_in : holds o.1 address ≡ true
  pub penalty : o.1.miss_penalty ≡ c.miss_penalty
  pub there : holds c address ≡ true → o ≡ (none, c)

pub replace-IsReplaced :
    (c : CacheLevel) (address : ℕ) (line : CacheLine)
    → IsOrdered c
    → IsReplaced c address (replace c address line)
unfolding replace lookup
replace-IsReplaced c address line h = elim (Option-cases (lookup c address)) [
  | inr (w, e) ↦
      rw (e, replace)
        (record { ordered = h; put_in = ap found e; penalty = refl; there = λ _. refl })
  | inl e ↦ elim (Option-cases (find_slot c (get_index c address) c.assoc 0)) [
    | inr (v, slot) ↦
        rw (e, slot, replace)
          (record {
            ordered = filled-IsOrdered c address line v h;
            put_in =
                filled-holds c address line v
                  (omega (arith, find_slot-lt c (get_index c address) c.assoc 0 v slot));
            penalty = refl;
            there = λ held. absurd (ground (arith, held, ap found e));
          })
    | inl full ↦ absurd (
        ranked-free (way_of c (get_index c address)) c.assoc h.ways (h.ranked (get_index c address))
          (λ w l.
            find_slot-none c (get_index c address) c.assoc 0 full w (omega arith) (omega arith)))
  ]
]
