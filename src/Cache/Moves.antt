-- ===== src/Cache/Moves.antt =====
-- What `invalidateLine`, `writeBackLine` and `replace` of memory_ooo.cpp do to the entries of a level.
use superscalar_oooprocessor.Base.{
  ℕ, ◌*◌, ◌/◌, ◌%◌, ◌≡◌, ◌≢◌, refl, sym, ap, ap₂, subst, ◌∙◌, true, false, ◌&&◌, Option, none, ◌==◌,
  arith,
}
use superscalar_oooprocessor.Cache.{
  CacheLine, CacheLevel, get_index, get_tag, way_of, write_back_line, invalidate_line,
}
use superscalar_oooprocessor.Cache.Contents.{
  Entry, entry_of, entry_at, entries, IsLevel, find_way-none,
}
use superscalar_oooprocessor.Cache.Touched.{change, entries-change, IsEdit}
use superscalar_oooprocessor.Cache.Sweeps.{
  edited, edit_ways, swept_lines, swept-here, swept-IsLevel, entries-swept_ne,
  invalidate_ways-edit_ways, write_back_ways-edit_ways, overwrite,
}

-- `invalidateLine` and `writeBackLine` sweep the ways of a block.
invalidate_line-swept :
    (sets : ℕ) (c : CacheLevel) (a : ℕ)
    → IsLevel sets c
    → invalidate_line c a
      ≡ record c { line = swept_lines sets c (a / 64) (λ l. record l { valid = false }) }
unfolding invalidate_line get_index
invalidate_line-swept sets c a h =
    ap (λ (f : ℕ → CacheLine). record c { line = f })
      (invalidate_ways-edit_ways c.line (get_index c a * c.assoc) (get_tag c a) c.assoc 0
        ∙ ap₂ (λ i t. edit_ways (λ l. record l { valid = false }) t c.line (i * c.assoc) c.assoc 0)
            (ap (λ s. a / 64 % s) h.sets_eq) (h.tag_eq a))

write_back_line-swept :
    (sets : ℕ) (c : CacheLevel) (evicted : CacheLine)
    → IsLevel sets c
    → write_back_line c evicted
      ≡ record c { line = swept_lines sets c (evicted.address / 64) (overwrite evicted) }
unfolding write_back_line get_index
write_back_line-swept sets c evicted h =
    ap (λ (f : ℕ → CacheLine). record c { line = f })
      (write_back_ways-edit_ways evicted c.line (get_index c evicted.address * c.assoc)
          (get_tag c evicted.address) c.assoc 0
        ∙ ap₂ (λ i t. edit_ways (overwrite evicted) t c.line (i * c.assoc) c.assoc 0)
            (ap (λ s. evicted.address / 64 % s) h.sets_eq) (h.tag_eq evicted.address))

-- After a sweep of the block `k`: a level, `o` in that block, and the other blocks as they were.
pub record IsSwept (sets : ℕ) (c : CacheLevel) (k : ℕ) (o : Option Entry) (d : CacheLevel)
    : Type 0 where
  pub level : IsLevel sets d
  pub here : entries sets d k ≡ o
  pub there : (b : ℕ) → b ≢ k → entries sets d b ≡ entries sets c b

pub invalidate_line-IsSwept :
    (sets : ℕ) (c : CacheLevel) (a : ℕ)
    → IsLevel sets c
    → IsSwept sets c (a / 64) none (invalidate_line c a)
invalidate_line-IsSwept sets c a h =
    let k = a / 64 in
    let clear : CacheLine → CacheLine = λ l. record l { valid = false } in
    let clears : (l : CacheLine) → IsEdit (clear l) l =
      λ l. record { validity = λ v. absurd (ground (arith, v)); tag = refl; address = refl } in
    let line = swept_lines sets c k clear in
    subst (IsSwept sets c k none) (sym (invalidate_line-swept sets c a h)) (record {
      level = swept-IsLevel sets c k clear clears h;
      here = ap (entry_at (record c { line = line }) (k % sets)) (
          find_way-none (record c { line = line }) (k % sets) (k / sets) c.assoc 0
            (λ v l.
              ap (λ (x : CacheLine). x.valid && (x.tag == k / sets))
                (swept-here sets c k clear clears v (omega (arith, l)))
              ∙ gone (k / sets) (way_of c (k % sets) v)));
      there = entries-swept_ne sets c k clear clears;
    })
  where
    gone :
        (t : ℕ) (x : CacheLine)
        → (let y = edited (λ l. record l { valid = false }) t x in y.valid && (y.tag == t)) ≡ false
    gone t x = ground arith

-- A block with the words of an evicted line.
abbrev pub put_words : (ℕ → ℕ) → Entry → Entry
put_words words e = record e { words = words; dirty = true }

pub write_back_line-IsSwept :
    (sets : ℕ) (c : CacheLevel) (evicted : CacheLine)
    → IsLevel sets c
    → IsSwept sets c
        (evicted.address / 64)
        (change (put_words evicted.words) (entries sets c (evicted.address / 64)))
        (write_back_line c evicted)
write_back_line-IsSwept sets c evicted h =
    let k = evicted.address / 64 in
    let fix : CacheLine → CacheLine = overwrite evicted in
    let fixes : (l : CacheLine) → IsEdit (fix l) l =
      λ l. record { validity = λ v. v; tag = refl; address = refl } in
    let line = swept_lines sets c k fix in
    subst (IsSwept sets c k (change (put_words evicted.words) (entries sets c k)))
      (sym (write_back_line-swept sets c evicted h))
      (record {
        level = swept-IsLevel sets c k fix fixes h;
        here =
            entries-change sets c line k (put_words evicted.words)
              (λ v l.
                ap (λ (x : CacheLine). x.valid && (x.tag == k / sets))
                  (swept-here sets c k fix fixes v l)
                ∙ matched (k / sets) (way_of c (k % sets) v))
              (λ v l m.
                ap entry_of (swept-here sets c k fix fixes v l)
                ∙ changed (k / sets) (way_of c (k % sets) v) m);
        there = entries-swept_ne sets c k fix fixes;
      })
  where
    matched :
        (t : ℕ) (x : CacheLine)
        → (let y = edited (overwrite evicted) t x in y.valid && (y.tag == t))
          ≡ (x.valid && (x.tag == t))
    matched t x = ground arith

    changed :
        (t : ℕ) (x : CacheLine)
        → (x.valid && (x.tag == t)) ≡ true
        → entry_of (edited (overwrite evicted) t x) ≡ put_words evicted.words (entry_of x)
    changed t x m = rw m refl
