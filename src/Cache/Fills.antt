-- ===== src/Cache/Fills.antt =====
-- Which blocks a cache level holds, and that `replace` puts a block in (`NBCacheLevel` of
-- memory_ooo.cpp).
use superscalar_oooprocessor.Base.{
  ℕ, zero, suc, ◌+◌, ◌-◌, ◌*◌, ◌/◌, ◌≤◌, ◌<◌, ◌≡◌, ◌≢◌, refl, sym, ap, subst, ◌∙◌, Bool, true,
  false, not, ◌&&◌, Option, none, some, ltb, ◌==◌, if◌then◌else◌, update, update_self, Bool-cases,
  inl, inr, arith, if-both,
}
use superscalar_oooprocessor.Cache.{
  CacheLine, CacheLevel, get_offset, get_index, get_tag, way_of, matches, find_way, find_victim,
  update_replacement_bits, read, replace,
}
use superscalar_oooprocessor.Cache.Hits.{
  find_way-same, update_replacement_bits-same, is_hit-found, is_hit-missed, read_at,
}

-- `isHit` without its effect on the replacement bits.
abbrev pub found : Option ℕ → Bool
found o = elim o [ none ↦ false | some w ↦ true ]

abbrev pub holds : CacheLevel → ℕ → Bool
holds c address = found (find_way c (get_index c address) (get_tag c address) c.assoc 0)

-- A way that matches is found, or one before it.
pub find_way-found :
    (c : CacheLevel) (idx tag n w k : ℕ)
    → w ≤ k
    → k < w + n
    → matches c idx tag k ≡ true
    → found (find_way c idx tag n w) ≡ true
unfolding find_way
find_way-found c idx tag zero w k p q h = absurd (omega arith)
find_way-found c idx tag (suc n) w k p q h = elim (Bool-cases (matches c idx tag w)) [
  | inl e ↦ rw e refl
  | inr e ↦ rw e (
      find_way-found c idx tag n (suc w) k
        (later k w p (λ same. differ (subst (λ j. matches c idx tag j ≡ true) same h) e))
        (omega arith) h)
]
  where
    later : (k w : ℕ) → w ≤ k → k ≢ w → suc w ≤ k
    later k w p n = omega arith

    differ : {b : Bool} → b ≡ true → b ≡ false → ⊥
    differ e f = ground (arith, e, f)

-- The victim is a way of the set.
pub find_victim-lt :
    (c : CacheLevel) (idx n w victim : ℕ)
    → w + n ≤ c.assoc
    → victim < c.assoc
    → find_victim c idx n w victim < c.assoc
unfolding find_victim
find_victim-lt c idx zero w victim p q = q
find_victim-lt c idx (suc n) w victim p q =
    let smaller = ltb (way_of c idx w).repl_bits (way_of c idx victim).repl_bits in
    if-both (λ v. v < c.assoc) (not (way_of c idx w).valid) (omega arith)
      (find_victim-lt c idx n (suc w) (if smaller then w else victim) (omega arith)
        (if-both (λ v. v < c.assoc) smaller (omega arith) q))

-- The level after the block of `address` was put over the victim.
abbrev pub filled : CacheLevel → ℕ → CacheLine → CacheLevel
filled c address line =
    let idx = get_index c address in
    let victim = find_victim c idx c.assoc 0 0 in
    update_replacement_bits
      (record c {
        line = update c.line (idx * c.assoc + victim) (record line {
          address = address;
          tag = get_tag c address;
          valid = true;
          dirty = false;
          repl_bits = c.assoc - 1;
        });
      })
      idx victim

-- What `replace` does with the result of the look-up.
abbrev pub replaced : CacheLevel → ℕ → CacheLine → Option ℕ → Option CacheLine × CacheLevel
replaced c address line o =
    let idx = get_index c address in
    elim o [
      | some w ↦ (none, c)
      | none ↦ (some (way_of c idx (find_victim c idx c.assoc 0 0)), filled c address line)
    ]

abbrev pub looked_up : CacheLevel → ℕ → Option ℕ
looked_up c address = find_way c (get_index c address) (get_tag c address) c.assoc 0

filled-holds :
    (c : CacheLevel) (address : ℕ) (line : CacheLine)
    → 0 < c.assoc
    → holds (filled c address line) address ≡ true
unfolding update_replacement_bits get_index get_tag
filled-holds c address line ways =
    let idx = get_index c address in
    let tag = get_tag c address in
    let victim = find_victim c idx c.assoc 0 0 in
    let c' : CacheLevel = record c {
      line = update c.line (idx * c.assoc + victim) (record line {
        address = address;
        tag = tag;
        valid = true;
        dirty = false;
        repl_bits = c.assoc - 1;
      });
    } in
    let same =
      find_way-same c' (update_replacement_bits c' idx victim).line
        (λ i. (update_replacement_bits-same c' idx victim i).block) idx tag c.assoc 0 in
    ap found same
    ∙ find_way-found c' idx tag c.assoc 0 victim (omega arith)
        (omega (arith, find_victim-lt c idx c.assoc 0 0 (omega arith) ways))
        (ap (λ (l : CacheLine). l.valid && (l.tag == tag))
            (update_self c.line (idx * c.assoc + victim) _)
          ∙ same_tag tag)
  where
    same_tag : (t : ℕ) → (t == t) ≡ true
    same_tag t = ground arith

-- The level that `replace` leaves holds the block.
pub replace-holds :
    (c : CacheLevel) (address : ℕ) (line : CacheLine)
    → 0 < c.assoc
    → holds (replace c address line).1 address ≡ true
unfolding replace get_index get_tag update_replacement_bits
replace-holds c address line ways = go (looked_up c address) refl
  where
    go :
        (o : Option ℕ)
        → looked_up c address ≡ o
        → holds (replaced c address line o).1 address ≡ true
    go none e = filled-holds c address line ways
    go (some w) e = ap found e

-- A read hits exactly if the level holds the block.
pub read-holds : (c : CacheLevel) (address : ℕ) → found (read c address).0 ≡ holds c address
unfolding read
read-holds c address = go (looked_up c address) refl
  where
    word : ℕ
    word = get_offset address / 4

    go : (o : Option ℕ) → looked_up c address ≡ o → found (read c address).0 ≡ holds c address
    go none e = ap (λ r. found (read_at word r).0) (is_hit-missed c address e) ∙ ap found (sym e)
    go (some w) e =
        ap (λ r. found (read_at word r).0) (is_hit-found c address w e) ∙ ap found (sym e)

-- What a read leaves: the same blocks in the same ways.
pub read-keeps :
    (c : CacheLevel) (address : ℕ)
    → (holds (read c address).1 address ≡ holds c address) × ((read c address).1.assoc ≡ c.assoc)
unfolding read update_replacement_bits get_index get_tag
read-keeps c address = go (looked_up c address) refl
  where
    word : ℕ
    word = get_offset address / 4

    go :
        (o : Option ℕ)
        → looked_up c address ≡ o
        → (holds (read c address).1 address ≡ holds c address)
          × ((read c address).1.assoc ≡ c.assoc)
    go none e =
        let left = ap (λ r. (read_at word r).1) (is_hit-missed c address e) in
        (ap (λ d. holds d address) left, ap (λ d. d.assoc) left)
    go (some w) e =
        let left = ap (λ r. (read_at word r).1) (is_hit-found c address w e) in
        let same =
          find_way-same c (update_replacement_bits c (get_index c address) w).line
            (λ i. (update_replacement_bits-same c (get_index c address) w i).block)
            (get_index c address) (get_tag c address) c.assoc 0 in
        (
          ap (λ (d : CacheLevel). holds d address) left ∙ ap found same,
          ap (λ (d : CacheLevel). d.assoc) left,
        )

pub replace-assoc :
    (c : CacheLevel) (address : ℕ) (line : CacheLine) → (replace c address line).1.assoc ≡ c.assoc
unfolding replace get_index get_tag update_replacement_bits
replace-assoc c address line = go (looked_up c address)
  where
    go : (o : Option ℕ) → (replaced c address line o).1.assoc ≡ c.assoc
    go none = refl
    go (some w) = refl
