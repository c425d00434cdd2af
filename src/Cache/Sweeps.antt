-- ===== src/Cache/Sweeps.antt =====
-- What `invalidateLine` and `writeBackLine` of memory_ooo.cpp do to the entries of a level.
use superscalar_oooprocessor.Base.{
  ℕ, zero, suc, ◌+◌, ◌*◌, ◌/◌, ◌%◌, ◌≤◌, ◌<◌, ◌≡◌, ◌≢◌, refl, sym, ap, subst, ◌∙◌, Bool, true,
  false, ◌&&◌, ◌==◌, if◌then◌else◌, update, update_self, update_ne, Bool-cases, ==-true→eq, inl,
  inr, ◌⊎◌, arith, if-both,
}
use superscalar_oooprocessor.Cache.{CacheLine, CacheLevel, way_of, write_back_ways, invalidate_ways}
use superscalar_oooprocessor.Cache.Hits.{update-keeps}
use superscalar_oooprocessor.Cache.Edits.{place-outside}
use superscalar_oooprocessor.Cache.Contents.{entry_of, entries, IsLevel, block_unique}
use superscalar_oooprocessor.Cache.Touched.{
  IsEdit, IsEdit-refl, IsEdit-trans, edited-IsLevel, entries-same,
}

-- Both loops change the lines of a tag, one way after the other.
module _ (edit : CacheLine → CacheLine) (tag : ℕ) where
  abbrev pub edited : CacheLine → CacheLine
  edited l = if l.valid && (l.tag == tag) then edit l else l

  abbrev edited_at : (ℕ → CacheLine) → ℕ → ℕ → CacheLine
  edited_at line j =
      if (line j).valid && ((line j).tag == tag) then update line j (edit (line j)) else line

  abbrev pub edit_ways : (ℕ → CacheLine) → ℕ → ℕ → ℕ → ℕ → CacheLine
  edit_ways line base zero w = line
  edit_ways line base (suc n) w = edit_ways (edited_at line (base + w)) base n (suc w)

  edited_at_ne : (line : ℕ → CacheLine) (j i : ℕ) → i ≢ j → edited_at line j i ≡ line i
  edited_at_ne line j i ne =
      if-both (λ (f : ℕ → CacheLine). f i ≡ line i) ((line j).valid && ((line j).tag == tag))
        (update_ne line j (edit (line j)) i ne) refl

  edited_at_self : (line : ℕ → CacheLine) (j : ℕ) → edited_at line j j ≡ edited (line j)
  edited_at_self line j = elim (Bool-cases ((line j).valid && ((line j).tag == tag))) [
    | inl e ↦ rw e (update_self line j (edit (line j)))
    | inr e ↦ rw e refl
  ]

  edit_ways-before :
      (line : ℕ → CacheLine) (base n w i : ℕ) → i < base + w → edit_ways line base n w i ≡ line i
  edit_ways-before line base zero w i l = refl
  edit_ways-before line base (suc n) w i l =
      edit_ways-before (edited_at line (base + w)) base n (suc w) i (omega arith)
      ∙ edited_at_ne line (base + w) i (λ e. absurd (omega (arith, e)))

  edit_ways-after :
      (line : ℕ → CacheLine) (base n w i : ℕ)
      → base + w + n ≤ i
      → edit_ways line base n w i ≡ line i
  edit_ways-after line base zero w i l = refl
  edit_ways-after line base (suc n) w i l =
      edit_ways-after (edited_at line (base + w)) base n (suc w) i (omega arith)
      ∙ edited_at_ne line (base + w) i (λ e. absurd (omega (arith, e)))

  edit_ways-within :
      (line : ℕ → CacheLine) (base n w v : ℕ)
      → w ≤ v
      → v < w + n
      → edit_ways line base n w (base + v) ≡ edited (line (base + v))
  edit_ways-within line base zero w v p q = absurd (omega arith)
  edit_ways-within line base (suc n) w v p q = elim (Bool-cases (v == w)) [
    | inl e ↦
        let same = ==-true→eq v w e in
        edit_ways-before (edited_at line (base + w)) base n (suc w) (base + v) (omega (arith, same))
        ∙ subst (λ k. edited_at line (base + w) (base + k) ≡ edited (line (base + k))) (sym same)
            (edited_at_self line (base + w))
    | inr e ↦
        edit_ways-within (edited_at line (base + w)) base n (suc w) v (ground (arith, e, p))
          (omega arith)
        ∙ ap edited (edited_at_ne line (base + w) (base + v) (λ f. ground (arith, e, f)))
  ]

  edit_ways-IsEdit :
      ((l : CacheLine) → IsEdit (edit l) l)
      → (line : ℕ → CacheLine) (base n w i : ℕ) → IsEdit (edit_ways line base n w i) (line i)
  edit_ways-IsEdit h line base zero w i = IsEdit-refl (line i)
  edit_ways-IsEdit h line base (suc n) w i =
      let j = base + w in
      IsEdit-trans _ (edited_at line j i) (line i)
        (edit_ways-IsEdit h (edited_at line j) base n (suc w) i)
        (if-both (λ (f : ℕ → CacheLine). IsEdit (f i) (line i))
          ((line j).valid && ((line j).tag == tag))
          (update-keeps IsEdit IsEdit-refl line j (edit (line j)) i (h (line j)))
          (IsEdit-refl (line i)))

pub invalidate_ways-edit_ways :
    (line : ℕ → CacheLine) (base tag n w : ℕ)
    → invalidate_ways line base tag n w
      ≡ edit_ways (λ l. record l { valid = false }) tag line base n w
unfolding invalidate_ways
invalidate_ways-edit_ways line base tag zero w = refl
invalidate_ways-edit_ways line base tag (suc n) w =
    invalidate_ways-edit_ways (edited_at (λ l. record l { valid = false }) tag line (base + w)) base
      tag n (suc w)

-- The words of a line that was evicted.
abbrev pub overwrite : CacheLine → CacheLine → CacheLine
overwrite evicted l = record l { words = evicted.words; dirty = true }

pub write_back_ways-edit_ways :
    (evicted : CacheLine) (line : ℕ → CacheLine) (base tag n w : ℕ)
    → write_back_ways evicted line base tag n w ≡ edit_ways (overwrite evicted) tag line base n w
unfolding write_back_ways
write_back_ways-edit_ways evicted line base tag zero w = refl
write_back_ways-edit_ways evicted line base tag (suc n) w =
    write_back_ways-edit_ways evicted (edited_at (overwrite evicted) tag line (base + w)) base tag n
      (suc w)

-- The lines of the block `k` are edited.
abbrev pub swept_lines : ℕ → CacheLevel → ℕ → (CacheLine → CacheLine) → ℕ → CacheLine
swept_lines sets c k edit = edit_ways edit (k / sets) c.line (k % sets * c.assoc) c.assoc 0

module _ (sets : ℕ) (c : CacheLevel) (k : ℕ) (edit : CacheLine → CacheLine)
    (h : (l : CacheLine) → IsEdit (edit l) l) where
  pub swept-here :
      (v : ℕ)
      → v < c.assoc
      → swept_lines sets c k edit (k % sets * c.assoc + v)
        ≡ edited edit (k / sets) (way_of c (k % sets) v)
  swept-here v l =
      edit_ways-within edit (k / sets) c.line (k % sets * c.assoc) c.assoc 0 v (omega arith)
        (omega (arith, l))

  -- At a way of another block, either nothing is done, or the line has neither block.
  swept-there :
      (b v : ℕ)
      → b ≢ k
      → v < c.assoc
      → (swept_lines sets c k edit (b % sets * c.assoc + v) ≡ way_of c (b % sets) v)
        ⊎ (((way_of c (b % sets) v).tag == b / sets) ≡ false)
  swept-there b v ne l = elim (Bool-cases (b % sets == k % sets)) [
    | inr e ↦ inl (elim (place-outside (k % sets) (b % sets) c.assoc v (ground (arith, e)) l) [
      | inl before ↦
          edit_ways-before edit (k / sets) c.line (k % sets * c.assoc) c.assoc 0 _
            (omega (arith, before))
      | inr after ↦
          edit_ways-after edit (k / sets) c.line (k % sets * c.assoc) c.assoc 0 _
            (omega (arith, after))
    ])
    | inl e ↦
        let row = ==-true→eq (b % sets) (k % sets) e in
        let x = way_of c (k % sets) v in
        elim (Bool-cases (x.valid && (x.tag == k / sets))) [
          | inr m ↦ inl (
              subst (λ i. swept_lines sets c k edit (i * c.assoc + v) ≡ way_of c i v) (sym row)
                (swept-here v l ∙ untouched x m))
          | inl m ↦ inr (
              subst (λ i. ((way_of c i v).tag == b / sets) ≡ false) (sym row)
                (other x.valid x.tag m (λ same. ne (block_unique sets b k row same))))
        ]
  ]
    where
      untouched :
          (x : CacheLine) → (x.valid && (x.tag == k / sets)) ≡ false → edited edit (k / sets) x ≡ x
      untouched x m = rw m refl

      other :
          (b1 : Bool) (t : ℕ)
          → (b1 && (t == k / sets)) ≡ true
          → (b / sets ≢ k / sets)
          → (t == b / sets) ≡ false
      other b1 t m ne' = ground (arith, m, ne')

  swept-IsEdit : (i : ℕ) → IsEdit (swept_lines sets c k edit i) (c.line i)
  swept-IsEdit i = edit_ways-IsEdit edit (k / sets) h c.line (k % sets * c.assoc) c.assoc 0 i

  pub swept-IsLevel : IsLevel sets c → IsLevel sets (record c { line = swept_lines sets c k edit })
  swept-IsLevel = edited-IsLevel sets c (swept_lines sets c k edit) swept-IsEdit

  -- Every other block stays.
  pub entries-swept_ne :
      (b : ℕ)
      → b ≢ k
      → entries sets (record c { line = swept_lines sets c k edit }) b ≡ entries sets c b
  entries-swept_ne b ne =
      entries-same sets c (swept_lines sets c k edit) b
        (λ v l. elim (swept-there b v ne l) [
          | inl e ↦ ap (λ (x : CacheLine). x.valid && (x.tag == b / sets)) e
          | inr e ↦ differ _ _ (swept-IsEdit (b % sets * c.assoc + v)) e
        ])
        (λ v l m. elim (swept-there b v ne l) [
          | inl e ↦ ap entry_of e
          | inr e ↦ absurd (ground (arith, m, e))
        ])
    where
      differ :
          (x y : CacheLine)
          → IsEdit x y
          → (y.tag == b / sets) ≡ false
          → (x.valid && (x.tag == b / sets)) ≡ (y.valid && (y.tag == b / sets))
      differ x y ed e = ground (arith, e, ed.tag)
