-- ===== src/Cache/Unique.antt =====
-- No two valid lines of a set have one tag (`NBCacheLevel` of memory_ooo.cpp).
use superscalar_oooprocessor.Base.{
  ℕ, ◌+◌, ◌-◌, ◌*◌, ◌/◌, ◌<◌, ◌≡◌, ◌≢◌, refl, sym, ap, subst, ◌∙◌, Bool, true, false, ◌&&◌, none,
  ◌==◌, update, update_self, update_ne, Bool-cases, Option-cases, ==-true→eq, inl, inr, arith,
}
use superscalar_oooprocessor.Cache.{
  CacheLine, CacheLevel, get_offset, get_index, get_tag, matches, find_victim,
  update_replacement_bits, read, write, replace, write_back_line, invalidate_line,
}
use superscalar_oooprocessor.Cache.Hits.{
  SameBlock, update_replacement_bits-same, is_hit-found, is_hit-missed, read_at, write-hit,
  write-miss, written, written-block,
}
use superscalar_oooprocessor.Cache.Fills.{
  looked_up, find_way-found, found, find_victim-lt, read-keeps,
}
use superscalar_oooprocessor.Cache.Edits.{
  place-outside, invalidate_ways-IsNoMore, write_back_ways-IsAlike,
}

-- In every set, at most one way matches a tag.
abbrev pub IsUnique : CacheLevel → Type 0
IsUnique c =
    (idx tag v w : ℕ)
    → v < c.assoc
    → w < c.assoc
    → matches c idx tag v ≡ true
    → matches c idx tag w ≡ true
    → v ≡ w

-- Lines that are no more valid than they were, with their tags, stay unique.
pub edited-IsUnique :
    (c : CacheLevel) (line : ℕ → CacheLine)
    → ((i : ℕ) → (line i).valid ≡ true → (c.line i).valid ≡ true)
    → ((i : ℕ) → (line i).tag ≡ (c.line i).tag)
    → IsUnique c
    → IsUnique (record c { line = line })
edited-IsUnique c line valid tags h idx tag v w lv lw mv mw =
    h idx tag v w lv lw (keep v mv) (keep w mw)
  where
    keep :
        (k : ℕ) → matches (record c { line = line }) idx tag k ≡ true → matches c idx tag k ≡ true
    keep k m = ground (arith, m, valid (idx * c.assoc + k), tags (idx * c.assoc + k))

same-IsUnique :
    (c : CacheLevel) (line : ℕ → CacheLine)
    → ((i : ℕ) → SameBlock (line i) (c.line i))
    → IsUnique c
    → IsUnique (record c { line = line })
same-IsUnique c line h = edited-IsUnique c line (λ i v. sym (h i).valid ∙ v) (λ i. (h i).tag)

pub used-IsUnique :
    (c : CacheLevel) (idx way : ℕ) → IsUnique c → IsUnique (update_replacement_bits c idx way)
unfolding update_replacement_bits
used-IsUnique c idx way =
    same-IsUnique c (update_replacement_bits c idx way).line
      (λ i. (update_replacement_bits-same c idx way i).block)

pub read-IsUnique : (c : CacheLevel) (address : ℕ) → IsUnique c → IsUnique (read c address).1
unfolding read
read-IsUnique c address h = elim (Option-cases (looked_up c address)) [
  | inl e ↦
      subst IsUnique
        (sym (ap (λ r. (read_at (get_offset address / 4) r).1) (is_hit-missed c address e))) h
  | inr (w, e) ↦
      subst IsUnique
        (sym (ap (λ r. (read_at (get_offset address / 4) r).1) (is_hit-found c address w e)))
        (used-IsUnique c (get_index c address) w h)
]

pub write-IsUnique :
    (c : CacheLevel) (address value : ℕ) → IsUnique c → IsUnique (write c address value).1
write-IsUnique c address value h = elim (Option-cases (looked_up c address)) [
  | inl e ↦ subst (λ (r : Bool × CacheLevel). IsUnique r.1) (sym (write-miss c address value e)) h
  | inr (w, e) ↦
      subst (λ (r : Bool × CacheLevel). IsUnique r.1) (sym (write-hit c address value w e))
        (same-IsUnique c (written c address value w) (written-block c address value w) h)
]

pub write_back_line-IsUnique :
    (c : CacheLevel) (evicted : CacheLine) → IsUnique c → IsUnique (write_back_line c evicted)
unfolding write_back_line
write_back_line-IsUnique c evicted = same-IsUnique c (write_back_line c evicted).line (λ i.
    (write_back_ways-IsAlike evicted c.line (get_index c evicted.address * c.assoc)
      (get_tag c evicted.address) c.assoc 0 i).block)

pub invalidate_line-IsUnique :
    (c : CacheLevel) (address : ℕ) → IsUnique c → IsUnique (invalidate_line c address)
unfolding invalidate_line
invalidate_line-IsUnique c address =
    let less =
      invalidate_ways-IsNoMore c.line (get_index c address * c.assoc) (get_tag c address) c.assoc
        0 in
    edited-IsUnique c (invalidate_line c address).line (λ i. (less i).validity) (λ i. (less i).tag)

abbrev pub placed : CacheLevel → ℕ → ℕ → CacheLine → CacheLevel
placed c address victim new = record c {
  line = update c.line (get_index c address * c.assoc + victim) new;
}

-- The block of `address` over the way `victim`, when no way matches it.
module _ (c : CacheLevel) (address victim : ℕ) (new : CacheLine) (in_set : victim < c.assoc)
    (its_tag : new.tag ≡ get_tag c address) (missed : looked_up c address ≡ none)
    (h : IsUnique c) where
  -- Another set.
  elsewhere :
      (idx tag k : ℕ)
      → idx ≢ get_index c address
      → k < c.assoc
      → matches (placed c address victim new) idx tag k ≡ true
      → matches c idx tag k ≡ true
  elsewhere idx tag k ne l m =
      let apart = place-outside (get_index c address) idx c.assoc k ne l in
      subst (λ (x : CacheLine). (x.valid && (x.tag == tag)) ≡ true)
        (update_ne c.line (get_index c address * c.assoc + victim) new (idx * c.assoc + k)
          (ground (arith, apart)))
        m

  -- Another way of the set.
  beside :
      (tag k : ℕ)
      → k ≢ victim
      → matches (placed c address victim new) (get_index c address) tag k ≡ true
      → matches c (get_index c address) tag k ≡ true
  beside tag k ne m =
      subst (λ (x : CacheLine). (x.valid && (x.tag == tag)) ≡ true)
        (update_ne c.line (get_index c address * c.assoc + victim) new
          (get_index c address * c.assoc + k) (λ same. ne (omega (arith, same))))
        m

  -- The way itself matches the tag of the address only.
  itself :
      (tag : ℕ)
      → matches (placed c address victim new) (get_index c address) tag victim ≡ true
      → tag ≡ get_tag c address
  itself tag m =
      let at =
        subst (λ (x : CacheLine). (x.valid && (x.tag == tag)) ≡ true)
          (update_self c.line (get_index c address * c.assoc + victim) new) m in
      ground (arith, at, its_tag)

  clash :
      (tag k : ℕ)
      → k < c.assoc
      → tag ≡ get_tag c address
      → matches c (get_index c address) tag k ≡ true
      → ⊥
  clash tag k l e m =
      let held =
        find_way-found c (get_index c address) (get_tag c address) c.assoc 0 k (omega arith)
          (omega arith) (subst (λ t. matches c (get_index c address) t k ≡ true) e m) in
      ground (arith, held, ap found missed)

  at_victim :
      (tag k : ℕ)
      → (k == victim) ≡ true
      → matches (placed c address victim new) (get_index c address) tag k ≡ true
      → matches (placed c address victim new) (get_index c address) tag victim ≡ true
  at_victim tag k e m =
      subst (λ j. matches (placed c address victim new) (get_index c address) tag j ≡ true)
        (==-true→eq k victim e) m

  within :
      (tag v w : ℕ)
      → v < c.assoc
      → w < c.assoc
      → matches (placed c address victim new) (get_index c address) tag v ≡ true
      → matches (placed c address victim new) (get_index c address) tag w ≡ true
      → v ≡ w
  within tag v w lv lw mv mw = elim (Bool-cases (v == victim)) [
    | inl ev ↦ elim (Bool-cases (w == victim)) [
      | inl ew ↦ ground (arith, ev, ew)
      | inr nw ↦ absurd (
          clash tag w lw (itself tag (at_victim tag v ev mv))
            (beside tag w (ground (arith, nw)) mw))
    ]
    | inr nv ↦ elim (Bool-cases (w == victim)) [
      | inl ew ↦ absurd (
          clash tag v lv (itself tag (at_victim tag w ew mw))
            (beside tag v (ground (arith, nv)) mv))
      | inr nw ↦
          h (get_index c address) tag v w lv lw (beside tag v (ground (arith, nv)) mv)
            (beside tag w (ground (arith, nw)) mw)
    ]
  ]

  pub placed-IsUnique : IsUnique (placed c address victim new)
  placed-IsUnique idx tag v w lv lw mv mw = elim (Bool-cases (idx == get_index c address)) [
    | inl e ↦
        let here = ==-true→eq idx (get_index c address) e in
        within tag v w lv lw
          (subst (λ j. matches (placed c address victim new) j tag v ≡ true) here mv)
          (subst (λ j. matches (placed c address victim new) j tag w ≡ true) here mw)
    | inr n ↦
        h idx tag v w lv lw (elsewhere idx tag v (ground (arith, n)) lv mv)
          (elsewhere idx tag w (ground (arith, n)) lw mw)
  ]

pub replace-IsUnique :
    (c : CacheLevel) (address : ℕ) (line : CacheLine)
    → 0 < c.assoc
    → IsUnique c
    → IsUnique (replace c address line).1
unfolding replace
replace-IsUnique c address line ways h = elim (Option-cases (looked_up c address)) [
  | inr (w, e) ↦ rw (e, replace) h
  | inl e ↦
      let idx = get_index c address in
      let victim = find_victim c idx c.assoc 0 0 in
      let new : CacheLine = record line {
        address = address;
        tag = get_tag c address;
        valid = true;
        dirty = false;
        repl_bits = c.assoc - 1;
      } in
      rw (e, replace)
        (used-IsUnique (placed c address victim new) idx victim (
          placed-IsUnique c address victim new (find_victim-lt c idx c.assoc 0 0 (omega arith) ways)
            refl e h))
]

pub read-ways : (c : CacheLevel) (address : ℕ) → (read c address).1.assoc ≡ c.assoc
read-ways c address = (read-keeps c address).1

pub write-ways : (c : CacheLevel) (address value : ℕ) → (write c address value).1.assoc ≡ c.assoc
write-ways c address value = elim (Option-cases (looked_up c address)) [
  | inl e ↦ ap (λ (r : Bool × CacheLevel). r.1.assoc) (write-miss c address value e)
  | inr (w, e) ↦ ap (λ (r : Bool × CacheLevel). r.1.assoc) (write-hit c address value w e)
]
