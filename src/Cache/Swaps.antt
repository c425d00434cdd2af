-- ===== src/Cache/Swaps.antt =====
-- What `replace` of memory_ooo.cpp does to the entries of a level that does not hold the block.
use native.Mathlib.Nat.{mod-lt}
use superscalar_oooprocessor.Base.{
  ℕ, ◌+◌, ◌-◌, ◌*◌, ◌/◌, ◌%◌, ◌<◌, ◌≡◌, ◌≢◌, refl, sym, ap, ap₂, subst, ◌∙◌, true, false, ◌&&◌,
  none, some, ◌==◌, update_self, update_ne, Bool-cases, Option-cases, ==-true→eq, ne→==-false, inl,
  inr, arith,
}
use superscalar_oooprocessor.Cache.{
  CacheLine, CacheLevel, get_index, get_tag, way_of, matches, find_way, find_victim, replace,
  update_replacement_bits,
}
use superscalar_oooprocessor.Cache.Fills.{looked_up, find_victim-lt}
use superscalar_oooprocessor.Cache.Unique.{IsUnique, placed, placed-IsUnique}
use superscalar_oooprocessor.Cache.Contents.{
  entry_of, entry_at, entries, way_found, IsLevel, find_way-none, block_unique, find_way_unique,
  looked_up-way_found,
}
use superscalar_oooprocessor.Cache.Touched.{entries-same, entries-used, used-IsEdit, edited-IsLevel}
use superscalar_oooprocessor.Cache.Accesses.{place_unique}

-- After `replace` of the block of `a` by the words of `new`: the line `evicted` is out, and with it the
-- block that it held, if it was valid; every other block is as it was.
pub record IsSwapped (sets : ℕ) (c : CacheLevel) (a : ℕ) (words : ℕ → ℕ) (evicted : CacheLine)
    (d : CacheLevel) : Type 0 where
  pub level : IsLevel sets d
  pub here : entries sets d (a / 64) ≡ some (record { words = words; dirty = false; address = a })
  pub held : evicted.valid ≡ true → entries sets c (evicted.address / 64) ≡ some (entry_of evicted)
  pub gone : evicted.valid ≡ true → entries sets d (evicted.address / 64) ≡ none
  pub there :
      (b : ℕ)
      → b ≢ a / 64
      → (evicted.valid ≡ true → b ≢ evicted.address / 64)
      → entries sets d b ≡ entries sets c b

module _ (sets : ℕ) (c : CacheLevel) (a victim : ℕ) (new : CacheLine) (positive : 0 < sets)
    (h : IsLevel sets c) (missed : entries sets c (a / 64) ≡ none) (in_set : victim < c.assoc)
    (fresh : (new.valid ≡ true) × (new.tag ≡ get_tag c a) × (new.address ≡ a)) where
  abbrev evicted : CacheLine
  evicted = way_of c (get_index c a) victim

  row : get_index c a ≡ a / 64 % sets
  unfolding get_index
  row = ap (λ s. a / 64 % s) h.sets_eq

  not_found : way_found sets c (a / 64) ≡ none
  not_found = elim (Option-cases (way_found sets c (a / 64))) [
    | inl e ↦ e
    | inr (w, e) ↦ absurd (ground (arith, missed, ap (entry_at c (a / 64 % sets)) e))
  ]

  abbrev d : CacheLevel
  d = placed c a victim new

  abbrev spot : ℕ
  spot = get_index c a * c.assoc + victim

  d-IsUnique : IsUnique d
  d-IsUnique =
      placed-IsUnique c a victim new in_set fresh.1 (looked_up-way_found sets c a h ∙ not_found)
        h.unique

  d_at : d.line spot ≡ new
  d_at = update_self c.line spot new

  d_ne : (i : ℕ) → i ≢ spot → d.line i ≡ c.line i
  d_ne i ne = update_ne c.line spot new i ne

  new_tag : new.tag ≡ a / 64 / sets
  new_tag = fresh.1 ∙ h.tag_eq a

  d-IsLevel : IsLevel sets d
  unfolding get_tag
  d-IsLevel = record {
    ways = h.ways;
    sets_eq = h.sets_eq;
    tag_eq = h.tag_eq;
    unique = d-IsUnique;
    addressed = λ idx v l valid s. elim (Bool-cases (idx * c.assoc + v == spot)) [
      | inl e ↦
          let at = ==-true→eq (idx * c.assoc + v) spot e in
          let line : d.line (idx * c.assoc + v) ≡ new = ap d.line at ∙ d_at in
          let same = (place_unique c.assoc idx (get_index c a) v victim l in_set at).0 in
          (
            ap (λ (x : CacheLine). x.address / 64 % sets) line
                ∙ (ap (λ t. t / 64 % sets) fresh.2 ∙ sym (same ∙ row)),
            ap (λ (x : CacheLine). x.address / 64 / sets) line
                ∙ (ap (λ t. t / 64 / sets) fresh.2
                    ∙ (sym new_tag ∙ sym (ap (λ (x : CacheLine). x.tag) line))),
          )
      | inr e ↦
          let line = d_ne (idx * c.assoc + v) (ground (arith, e)) in
          let (its_row, its_tag) =
            h.addressed idx v l (sym (ap (λ (x : CacheLine). x.valid) line) ∙ valid) s in
          (
            ap (λ (x : CacheLine). x.address / 64 % sets) line ∙ its_row,
            ap (λ (x : CacheLine). x.address / 64 / sets) line
                ∙ (its_tag ∙ sym (ap (λ (x : CacheLine). x.tag) line)),
          )
    ];
  }

  -- The victim's own block, where it is valid.
  victim_block :
      evicted.valid ≡ true
      → (evicted.address / 64 % sets ≡ a / 64 % sets) × (evicted.address / 64 / sets ≡ evicted.tag)
  victim_block valid =
      let (its_row, its_tag) =
        h.addressed (get_index c a) victim in_set valid
          (subst (λ i. i < sets) (sym row) (mod-lt (a / 64) positive)) in
      (its_row ∙ row, its_tag)

  victim_held :
      evicted.valid ≡ true → entries sets c (evicted.address / 64) ≡ some (entry_of evicted)
  victim_held valid =
      let (its_row, its_tag) = victim_block valid in
      let at : evicted.address / 64 % sets ≡ get_index c a = its_row ∙ sym row in
      let found : find_way c (get_index c a) evicted.tag c.assoc 0 ≡ some victim =
        find_way_unique c (get_index c a) evicted.tag victim h.unique in_set
          (ground (arith, valid)) in
      ap₂ (λ i t. entry_at c i (find_way c i t c.assoc 0)) at its_tag
      ∙ ap (entry_at c (get_index c a)) found

  victim_apart : evicted.valid ≡ true → evicted.address / 64 ≢ a / 64
  victim_apart valid e =
      absurd (ground (arith, missed, ap (entries sets c) (sym e) ∙ victim_held valid))

  -- At the spot only the block of `a` matches.
  matches-d :
      (b v : ℕ)
      → b ≢ a / 64
      → b % sets * c.assoc + v ≡ spot
      → v < c.assoc
      → matches d (b % sets) (b / sets) v ≡ false
  matches-d b v ne at l =
      let same = (place_unique c.assoc (b % sets) (get_index c a) v victim l in_set at).0 in
      ap (λ (x : CacheLine). x.valid && (x.tag == b / sets)) (ap d.line at ∙ d_at)
      ∙ ground (
        arith,
        fresh.0,
        new_tag,
        ne→==-false (a / 64 / sets) (b / sets)
            (λ t. ne (block_unique sets b (a / 64) (same ∙ row) (sym t))),
      )

  -- The victim matches its own block only.
  matches-victim_block :
      (b v : ℕ)
      → (evicted.valid ≡ true → b ≢ evicted.address / 64)
      → b % sets * c.assoc + v ≡ spot
      → v < c.assoc
      → matches c (b % sets) (b / sets) v ≡ false
  matches-victim_block b v ne at l =
      let same = (place_unique c.assoc (b % sets) (get_index c a) v victim l in_set at).0 in
      ap (λ i. (c.line i).valid && ((c.line i).tag == b / sets)) at
      ∙ elim (Bool-cases evicted.valid) [
        | inr e ↦ ground (arith, e)
        | inl e ↦
            let (its_row, its_tag) = victim_block e in
            ground (
              arith,
              e,
              ne→==-false evicted.tag (b / sets) (λ t. ne e (
                  block_unique sets b (evicted.address / 64) (same ∙ (row ∙ sym its_row))
                    (sym t ∙ sym its_tag))),
            )
      ]

  d_there :
      (b : ℕ)
      → b ≢ a / 64
      → (evicted.valid ≡ true → b ≢ evicted.address / 64)
      → entries sets d b ≡ entries sets c b
  d_there b ne nv =
      entries-same sets c d.line b
        (λ v l. elim (Bool-cases (b % sets * c.assoc + v == spot)) [
          | inl e ↦
              let at = ==-true→eq (b % sets * c.assoc + v) spot e in
              matches-d b v ne at l ∙ sym (matches-victim_block b v nv at l)
          | inr e ↦
              ap (λ (x : CacheLine). x.valid && (x.tag == b / sets))
                (d_ne (b % sets * c.assoc + v) (ground (arith, e)))
        ])
        (λ v l m. elim (Bool-cases (b % sets * c.assoc + v == spot)) [
          | inl e ↦ absurd (
              ground (
                arith,
                m,
                matches-victim_block b v nv (==-true→eq (b % sets * c.assoc + v) spot e) l,
              ))
          | inr e ↦ ap entry_of (d_ne (b % sets * c.assoc + v) (ground (arith, e)))
        ])

  d_here : entries sets d (a / 64) ≡ some (entry_of new)
  d_here =
      let found : find_way d (a / 64 % sets) (a / 64 / sets) c.assoc 0 ≡ some victim =
        find_way_unique d (a / 64 % sets) (a / 64 / sets) victim d-IsUnique in_set (
          ap
            (λ i.
              (d.line (i * c.assoc + victim)).valid
              && ((d.line (i * c.assoc + victim)).tag == a / 64 / sets))
            (sym row)
          ∙ (ap (λ (x : CacheLine). x.valid && (x.tag == a / 64 / sets)) d_at
              ∙ ground (arith, fresh.0, new_tag))) in
      ap (entry_at d (a / 64 % sets)) found
      ∙ (ap (λ i. some (entry_of (d.line (i * c.assoc + victim)))) (sym row)
          ∙ ap (λ (x : CacheLine). some (entry_of x)) d_at)

  d_gone : evicted.valid ≡ true → entries sets d (evicted.address / 64) ≡ none
  d_gone valid =
      let k = evicted.address / 64 in
      let (its_row, its_tag) = victim_block valid in
      ap (entry_at d (k % sets)) (
        find_way-none d (k % sets) (k / sets) c.assoc 0 (λ v l.
          elim (Bool-cases (k % sets * c.assoc + v == spot)) [
            | inl e ↦
                matches-d k v (victim_apart valid) (==-true→eq (k % sets * c.assoc + v) spot e)
                  (omega (arith, l))
            | inr e ↦
                ap (λ (x : CacheLine). x.valid && (x.tag == k / sets))
                  (d_ne (k % sets * c.assoc + v) (ground (arith, e)))
                ∙ alone v (omega (arith, l)) (ground (arith, e)) (its_row ∙ sym row) its_tag
          ]))
    where
      alone :
          (v : ℕ)
          → v < c.assoc
          → evicted.address / 64 % sets * c.assoc + v ≢ spot
          → evicted.address / 64 % sets ≡ get_index c a
          → evicted.address / 64 / sets ≡ evicted.tag
          → matches c (evicted.address / 64 % sets) (evicted.address / 64 / sets) v ≡ false
      alone v l ne same its_tag =
          elim (Bool-cases
            (matches c (evicted.address / 64 % sets) (evicted.address / 64 / sets) v)) [
              | inr m ↦ m
              | inl m ↦ absurd (
                  ne (
                    ap₂ (λ i w. i * c.assoc + w) same
                      (h.unique (get_index c a) evicted.tag v victim l in_set
                        (ap₂ (λ i t. matches c i t v) (sym same) (sym its_tag) ∙ m)
                        (ground (arith, valid)))))
            ]

  -- The use of the way changes no entry.
  used-IsSwapped :
      entry_of new ≡ record { words = new.words; dirty = false; address = a }
      → IsSwapped sets c a new.words evicted (update_replacement_bits d (get_index c a) victim)
  unfolding update_replacement_bits
  used-IsSwapped e =
      let used = update_replacement_bits d (get_index c a) victim in
      record {
        level = edited-IsLevel sets d used.line (used-IsEdit d (get_index c a) victim) d-IsLevel;
        here = entries-used sets d (get_index c a) victim (a / 64) ∙ (d_here ∙ ap some e);
        held = victim_held;
        gone = λ valid.
            entries-used sets d (get_index c a) victim (evicted.address / 64) ∙ d_gone valid;
        there = λ b ne nv. entries-used sets d (get_index c a) victim b ∙ d_there b ne nv;
      }

pub replace-IsSwapped :
    (sets : ℕ) (c : CacheLevel) (a : ℕ) (line : CacheLine)
    → 0 < sets
    → IsLevel sets c
    → entries sets c (a / 64) ≡ none
    → (evicted : CacheLine) × ((replace c a line).0 ≡ some evicted)
      × IsSwapped sets c a line.words evicted (replace c a line).1
unfolding replace
replace-IsSwapped sets c a line positive h missed =
    let idx = get_index c a in
    let victim = find_victim c idx c.assoc 0 0 in
    let new : CacheLine = record line {
      address = a;
      tag = get_tag c a;
      valid = true;
      dirty = false;
      repl_bits = c.assoc - 1;
    } in
    let in_set = find_victim-lt c idx c.assoc 0 0 (omega arith) h.ways in
    let lost : looked_up c a ≡ none =
      looked_up-way_found sets c a h
      ∙ not_found sets c a victim new positive h missed in_set (refl, refl, refl) in
    rw (lost, replace)
      (
        way_of c idx victim,
        refl,
        used-IsSwapped sets c a victim new positive h missed in_set (refl, refl, refl) refl,
      )
