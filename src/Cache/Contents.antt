-- ===== src/Cache/Contents.antt =====
-- What a cache level holds of each block of memory, without the ways and the replacement bits
-- (`NBCacheLevel` of memory_ooo.cpp).
use native.Mathlib.Nat.{div-add-mod'}
use superscalar_oooprocessor.Base.{
  ℕ, zero, suc, ◌+◌, ◌*◌, ◌/◌, ◌%◌, ◌<◌, ◌≡◌, refl, sym, ap, ap₂, subst, ◌∙◌, Bool, true, false,
  Option, none, some, if◌then◌else◌, Bool-cases, Option-cases, inl, inr, arith,
}
use superscalar_oooprocessor.Cache.{
  CacheLine, CacheLevel, get_index, get_tag, num_sets, way_of, matches, find_way,
}
use superscalar_oooprocessor.Cache.Fills.{find_way-found, found, looked_up}
use superscalar_oooprocessor.Cache.Unique.{IsUnique}

-- A block in a level.
pub record Entry : Type 0 where
  pub words : ℕ → ℕ
  pub dirty : Bool
  pub address : ℕ

abbrev pub entry_of : CacheLine → Entry
entry_of l = record { words = l.words; dirty = l.dirty; address = l.address }

-- The way that a look-up of the block `b` finds, where a level has `sets` sets.
abbrev pub way_found : ℕ → CacheLevel → ℕ → Option ℕ
way_found sets c b = find_way c (b % sets) (b / sets) c.assoc 0

abbrev pub entry_at : CacheLevel → ℕ → Option ℕ → Option Entry
entry_at c idx none = none
entry_at c idx (some w) = some (entry_of (way_of c idx w))

abbrev pub entries : ℕ → CacheLevel → ℕ → Option Entry
entries sets c b = entry_at c (b % sets) (way_found sets c b)

-- A level of `sets` sets in which no set has a block twice, and each valid line says where it is from.
pub record IsLevel (sets : ℕ) (c : CacheLevel) : Type 0 where
  pub ways : 0 < c.assoc
  pub sets_eq : num_sets c ≡ sets
  pub tag_eq : (a : ℕ) → get_tag c a ≡ a / 64 / sets
  pub unique : IsUnique c
  pub addressed :
      (idx v : ℕ)
      → v < c.assoc
      → (way_of c idx v).valid ≡ true
      → idx < sets
      → ((way_of c idx v).address / 64 % sets ≡ idx)
        × ((way_of c idx v).address / 64 / sets ≡ (way_of c idx v).tag)

-- A look-up by address is a look-up of its block.
pub looked_up-way_found :
    (sets : ℕ) (c : CacheLevel) (a : ℕ) → IsLevel sets c → looked_up c a ≡ way_found sets c (a / 64)
unfolding get_index
looked_up-way_found sets c a h =
    ap₂ (λ i t. find_way c i t c.assoc 0) (ap (λ s. a / 64 % s) h.sets_eq) (h.tag_eq a)

-- The way found is one of those looked at, and it matches.
pub find_way-matches :
    (c : CacheLevel) (idx tag n w v : ℕ)
    → find_way c idx tag n w ≡ some v
    → (v < w + n) × (matches c idx tag v ≡ true)
unfolding find_way
find_way-matches c idx tag zero w v e = absurd (cc)
find_way-matches c idx tag (suc n) w v e = elim (Bool-cases (matches c idx tag w)) [
  | inl m ↦
      let here : w ≡ v = ground (arith, e, m) in
      (omega (arith, here), subst (λ k. matches c idx tag k ≡ true) here m)
  | inr m ↦
      let (l, m') = find_way-matches c idx tag n (suc w) v (ground (arith, e, m)) in
      (omega (arith, l), m')
]

-- Where two levels match in the same ways, they find the same one.
pub find_way-ext :
    (c d : CacheLevel) (idx tag n w : ℕ)
    → ((v : ℕ) → v < w + n → matches d idx tag v ≡ matches c idx tag v)
    → find_way d idx tag n w ≡ find_way c idx tag n w
unfolding find_way
find_way-ext c d idx tag zero w h = refl
find_way-ext c d idx tag (suc n) w h =
    let rest = find_way-ext c d idx tag n (suc w) (λ v l. h v (omega arith)) in
    ap₂ (λ (b : Bool) (o : Option ℕ). if b then some w else o) (h w (omega arith)) rest

-- Without a match nothing is found.
pub find_way-none :
    (c : CacheLevel) (idx tag n w : ℕ)
    → ((v : ℕ) → v < w + n → matches c idx tag v ≡ false)
    → find_way c idx tag n w ≡ none
unfolding find_way
find_way-none c idx tag zero w h = refl
find_way-none c idx tag (suc n) w h =
    ground (arith, h w (omega arith), find_way-none c idx tag n (suc w) (λ v l. h v (omega arith)))

-- The one way that matches is found.
pub find_way_unique :
    (c : CacheLevel) (idx tag v : ℕ)
    → IsUnique c
    → v < c.assoc
    → matches c idx tag v ≡ true
    → find_way c idx tag c.assoc 0 ≡ some v
find_way_unique c idx tag v u l m = elim (Option-cases (find_way c idx tag c.assoc 0)) [
  | inl e ↦ absurd (
      ground
        (arith, ap found e, find_way-found c idx tag c.assoc 0 v (omega arith) (omega arith) m))
  | inr (w, e) ↦
      let (lw, mw) = find_way-matches c idx tag c.assoc 0 w e in
      e ∙ ap some (u idx tag w v (omega (arith, lw)) l mw m)
]

-- What is not found does not match.
pub unmatched :
    (c : CacheLevel) (idx tag v : ℕ)
    → find_way c idx tag c.assoc 0 ≡ none
    → v < c.assoc
    → matches c idx tag v ≡ false
unmatched c idx tag v e l = elim (Bool-cases (matches c idx tag v)) [
  | inl m ↦ absurd (
      ground
        (arith, ap found e, find_way-found c idx tag c.assoc 0 v (omega arith) (omega arith) m))
  | inr m ↦ m
]

-- Two blocks with one set and one tag are one.
pub block_unique : (sets b k : ℕ) → b % sets ≡ k % sets → b / sets ≡ k / sets → b ≡ k
block_unique sets b k e f =
    sym (div-add-mod' b sets) ∙ (ap₂ (λ q r. q * sets + r) f e ∙ div-add-mod' k sets)
