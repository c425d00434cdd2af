-- ===== src/StallCache/Victims.antt =====
-- Every set of a stalling cache stays ranked, so `replace` always puts the line in.
use superscalar_oooprocessor.Base.{
  ℕ, zero, suc, ◌+◌, ◌-◌, ◌*◌, ◌≤◌, ◌<◌, ◌≡◌, ◌≢◌, refl, sym, ap, subst, ◌∙◌, true, ◌&&◌, ltb, leb,
  ◌==◌, if◌then◌else◌, update, update_self, update_ne, Bool-cases, ==-true→eq, inl, inr, ◌⊎◌, arith,
  if-both,
}
use superscalar_oooprocessor.Cache.{
  CacheLine, CacheLevel, way_of, age_ways, update_replacement_bits,
}
use superscalar_oooprocessor.Cache.Edits.{place-outside}
use superscalar_oooprocessor.Cache.Hits.{update_replacement_bits-same}
use superscalar_oooprocessor.StallCache.Ranks.{IsRanked, IsUsed, shrink-IsRanked, use-IsRanked}

-- The repl bits of one line after another line of the rank `r` was used.
abbrev aged : ℕ → CacheLine → ℕ
aged r l = if l.valid && ltb r l.repl_bits then l.repl_bits - 1 else l.repl_bits

-- One round of the loop of `updateReplacementBits`.
abbrev age_one : (ℕ → CacheLine) → ℕ → ℕ → ℕ → CacheLine
age_one line r j =
    if (line j).valid && ltb r (line j).repl_bits
    then update line j (record (line j) { repl_bits = (line j).repl_bits - 1 })
    else line

age_one-ne : (line : ℕ → CacheLine) (r j i : ℕ) → i ≢ j → age_one line r j i ≡ line i
age_one-ne line r j i n =
    if-both (λ (f : ℕ → CacheLine). f i ≡ line i) ((line j).valid && ltb r (line j).repl_bits)
      (update_ne line j (record (line j) { repl_bits = (line j).repl_bits - 1 }) i n) refl

age_one-same : (line : ℕ → CacheLine) (r j : ℕ) → (age_one line r j j).repl_bits ≡ aged r (line j)
age_one-same line r j =
    ground (arith, update_self line j (record (line j) { repl_bits = (line j).repl_bits - 1 }))

age_ways-outside :
    (line : ℕ → CacheLine) (base r n w i : ℕ)
    → (i < base + w) ⊎ (base + w + n ≤ i)
    → age_ways line base r n w i ≡ line i
unfolding age_ways
age_ways-outside line base r zero w i h = refl
age_ways-outside line base r (suc n) w i h =
    age_ways-outside (age_one line r (base + w)) base r n (suc w) i
      (elim h [ inl below ↦ inl (omega arith) | inr beyond ↦ inr (omega arith) ])
    ∙ age_one-ne line r (base + w) i (ground (arith, h))

age_ways-inside :
    (line : ℕ → CacheLine) (base r n w j : ℕ)
    → w ≤ j
    → j < w + n
    → (age_ways line base r n w (base + j)).repl_bits ≡ aged r (line (base + j))
unfolding age_ways
age_ways-inside line base r zero w j p q = absurd (omega arith)
age_ways-inside line base r (suc n) w j p q = elim (Bool-cases (w == j)) [
  | inl e ↦
      subst (λ k. (age_ways line base r (suc n) w (base + k)).repl_bits ≡ aged r (line (base + k)))
        (==-true→eq w j e)
        (ap (λ (l : CacheLine). l.repl_bits)
            (age_ways-outside (age_one line r (base + w)) base r n (suc w) (base + w)
              (inl (omega arith)))
          ∙ age_one-same line r (base + w))
  | inr e ↦
      let n_e : w ≢ j = ground (arith, e) in
      age_ways-inside (age_one line r (base + w)) base r n (suc w) j (omega arith) (omega arith)
      ∙ ap (aged r) (age_one-ne line r (base + w) (base + j) (λ same. n_e (omega arith)))
]

-- Every set of the level is ranked.
abbrev pub IsRankedLevel : CacheLevel → Type 0
IsRankedLevel c = (idx : ℕ) → IsRanked (way_of c idx) c.assoc

update_replacement_bits-IsUsed :
    (c : CacheLevel) (idx v : ℕ)
    → v < c.assoc
    → IsUsed (way_of c idx) (way_of (update_replacement_bits c idx v) idx) c.assoc v
unfolding update_replacement_bits
update_replacement_bits-IsUsed c idx v l =
    let base = idx * c.assoc in
    let r = (c.line (base + v)).repl_bits in
    let all = age_ways c.line base r c.assoc 0 in
    let top : CacheLine = record (all (base + v)) { repl_bits = c.assoc - 1 } in
    record {
      validity = λ w _. (update_replacement_bits-same c idx v (base + w)).block.valid;
      used = ap (λ (k : CacheLine). k.repl_bits) (update_self all (base + v) top);
      others = λ w lt n.
          ap (λ (k : CacheLine). k.repl_bits)
            (update_ne all (base + v) top (base + w) (λ same. n (omega arith)))
          ∙ age_ways-inside c.line base r c.assoc 0 w (omega arith) (omega arith);
    }

update_replacement_bits-other :
    (c : CacheLevel) (idx v j w : ℕ)
    → v < c.assoc
    → j ≢ idx
    → w < c.assoc
    → way_of (update_replacement_bits c idx v) j w ≡ way_of c j w
unfolding update_replacement_bits
update_replacement_bits-other c idx v j w l ne lt =
    let base = idx * c.assoc in
    let r = (c.line (base + v)).repl_bits in
    let all = age_ways c.line base r c.assoc 0 in
    let outside = place-outside idx j c.assoc w ne lt in
    update_ne all (base + v) (record (all (base + v)) { repl_bits = c.assoc - 1 }) (j * c.assoc + w)
      (ground (arith, outside))
    ∙ age_ways-outside c.line base r c.assoc 0 (j * c.assoc + w)
        (elim outside [ inl below ↦ inl (omega arith) | inr beyond ↦ inr (omega arith) ])

-- A hit keeps every set ranked.
pub update_replacement_bits-IsRankedLevel :
    (c : CacheLevel) (idx v : ℕ)
    → v < c.assoc
    → (way_of c idx v).valid ≡ true
    → IsRankedLevel c
    → IsRankedLevel (update_replacement_bits c idx v)
unfolding update_replacement_bits
update_replacement_bits-IsRankedLevel c idx v l valid ranked j = elim (Bool-cases (j == idx)) [
  | inl e ↦
      subst (λ k. IsRanked (way_of (update_replacement_bits c idx v) k) c.assoc)
        (sym (==-true→eq j idx e))
        (use-IsRanked (way_of c idx) (way_of (update_replacement_bits c idx v) idx) c.assoc v l
          valid (update_replacement_bits-IsUsed c idx v l) (ranked idx))
  | inr e ↦
      shrink-IsRanked (way_of c j) (way_of (update_replacement_bits c idx v) j) c.assoc
        (λ k w lt _ h.
          subst (λ (x : CacheLine). (x.valid && leb k x.repl_bits) ≡ true)
            (update_replacement_bits-other c idx v j w l (ground (arith, e)) lt) h)
        (ranked j)
]
