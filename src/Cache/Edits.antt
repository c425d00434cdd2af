-- ===== src/Cache/Edits.antt =====
-- The loops of `writeBackLine` and `invalidateLine`, line by line (memory.cpp and memory_ooo.cpp), and
-- where the lines of a set stand.
use native.Mathlib.Nat.{suc-mul, mul-le-mul_right}
use superscalar_oooprocessor.Base.{
  ℕ, zero, suc, ◌+◌, ◌*◌, ◌≤◌, ◌<◌, ◌≡◌, ◌≢◌, refl, ◌∙◌, true, false, ◌&&◌, ltb, ◌==◌,
  if◌then◌else◌, update, Bool-cases, inl, inr, ◌⊎◌, arith, if-both,
}
use superscalar_oooprocessor.Cache.{CacheLine, write_back_ways, invalidate_ways}
use superscalar_oooprocessor.Cache.Hits.{SameBlock, update-keeps}

-- Two sets share no place.
pub place-outside :
    (idx j n w : ℕ) → j ≢ idx → w < n → (j * n + w < idx * n) ⊎ (idx * n + n ≤ j * n + w)
place-outside idx j n w ne l = elim (Bool-cases (ltb j idx)) [
  | inl e ↦
      let below : suc j * n ≤ idx * n = mul-le-mul_right n (ground (arith, e)) in
      inl (omega (arith, suc-mul j n))
  | inr e ↦
      let beyond : suc idx * n ≤ j * n = mul-le-mul_right n (ground (arith, e, ne)) in
      inr (omega (arith, suc-mul idx n))
]

-- The line `k` is no more valid than `l` was and has its tag and its rank.
pub record IsNoMore (k l : CacheLine) : Type 0 where
  pub validity : k.valid ≡ true → l.valid ≡ true
  pub tag : k.tag ≡ l.tag
  pub rank : k.repl_bits ≡ l.repl_bits

IsNoMore-refl : (l : CacheLine) → IsNoMore l l
IsNoMore-refl l = record { validity = λ h. h; tag = refl; rank = refl }

IsNoMore-trans : (k l m : CacheLine) → IsNoMore k l → IsNoMore l m → IsNoMore k m
IsNoMore-trans k l m p q = record {
  validity = λ h. q.validity (p.validity h);
  tag = p.tag ∙ q.tag;
  rank = p.rank ∙ q.rank;
}

pub invalidate_ways-IsNoMore :
    (line : ℕ → CacheLine) (base tag n w i : ℕ)
    → IsNoMore (invalidate_ways line base tag n w i) (line i)
unfolding invalidate_ways
invalidate_ways-IsNoMore line base tag zero w i = IsNoMore-refl (line i)
invalidate_ways-IsNoMore line base tag (suc n) w i =
    let l = line (base + w) in
    let cleared : CacheLine = record l { valid = false } in
    let next : ℕ → CacheLine =
      if l.valid && (l.tag == tag) then update line (base + w) cleared else line in
    IsNoMore-trans (invalidate_ways next base tag n (suc w) i) (next i) (line i)
      (invalidate_ways-IsNoMore next base tag n (suc w) i)
      (if-both (λ (f : ℕ → CacheLine). IsNoMore (f i) (line i)) (l.valid && (l.tag == tag))
        (update-keeps IsNoMore IsNoMore-refl line (base + w) cleared i
          (record { validity = λ h. absurd (ground (arith, h)); tag = refl; rank = refl }))
        (IsNoMore-refl (line i)))

-- The two lines hold one block with one rank.
pub record IsAlike (k l : CacheLine) : Type 0 where
  pub block : SameBlock k l
  pub rank : k.repl_bits ≡ l.repl_bits

pub IsAlike-refl : (l : CacheLine) → IsAlike l l
IsAlike-refl l = record { block = record { valid = refl; tag = refl }; rank = refl }

IsAlike-trans : (k l m : CacheLine) → IsAlike k l → IsAlike l m → IsAlike k m
IsAlike-trans k l m p q = record {
  block = record { valid = p.block.valid ∙ q.block.valid; tag = p.block.tag ∙ q.block.tag };
  rank = p.rank ∙ q.rank;
}

pub write_back_ways-IsAlike :
    (evicted : CacheLine) (line : ℕ → CacheLine) (base tag n w i : ℕ)
    → IsAlike (write_back_ways evicted line base tag n w i) (line i)
unfolding write_back_ways
write_back_ways-IsAlike evicted line base tag zero w i = IsAlike-refl (line i)
write_back_ways-IsAlike evicted line base tag (suc n) w i =
    let l = line (base + w) in
    let stored : CacheLine = record l { words = evicted.words; dirty = true } in
    let next : ℕ → CacheLine =
      if l.valid && (l.tag == tag) then update line (base + w) stored else line in
    IsAlike-trans (write_back_ways evicted next base tag n (suc w) i) (next i) (line i)
      (write_back_ways-IsAlike evicted next base tag n (suc w) i)
      (if-both (λ (f : ℕ → CacheLine). IsAlike (f i) (line i)) (l.valid && (l.tag == tag))
        (update-keeps IsAlike IsAlike-refl line (base + w) stored i
          (record { block = record { valid = refl; tag = refl }; rank = refl }))
        (IsAlike-refl (line i)))
