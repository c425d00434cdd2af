-- ===== src/Cache/Touched.antt =====
-- Changes of lines that keep each block where it is (`NBCacheLevel` of memory_ooo.cpp).
use superscalar_oooprocessor.Base.{
  ℕ, zero, suc, ◌+◌, ◌-◌, ◌*◌, ◌/◌, ◌%◌, ◌<◌, ◌≡◌, refl, sym, ap, subst, ◌∙◌, true, ◌&&◌, Option,
  none, some, ltb, ◌==◌, if◌then◌else◌, update, update_self, Bool-cases, Option-cases, ==-true→eq,
  inl, inr, arith, if-both,
}
use superscalar_oooprocessor.Cache.{
  CacheLine, CacheLevel, get_tag, way_of, matches, age_ways, update_replacement_bits,
}
use superscalar_oooprocessor.Cache.Unique.{edited-IsUnique}
use superscalar_oooprocessor.Cache.Contents.{
  Entry, entry_of, entry_at, entries, way_found, IsLevel, find_way-ext, find_way-matches,
}

-- What does not look at the replacement bits does not see that a line was used.
module _ {ℓ} {A : Type ℓ} (g : CacheLine → A)
    (blind : (l : CacheLine) (r : ℕ) → g (record l { repl_bits = r }) ≡ g l) where
  update-blind :
      (line : ℕ → CacheLine) (j r i : ℕ)
      → g (update line j (record (line j) { repl_bits = r }) i) ≡ g (line i)
  update-blind line j r i = elim (Bool-cases (i == j)) [
    | inl e ↦
        subst (λ k. g (update line k (record (line k) { repl_bits = r }) i) ≡ g (line i))
          (==-true→eq i j e)
          (ap g (update_self line i (record (line i) { repl_bits = r })) ∙ blind (line i) r)
    | inr e ↦ simp e refl
  ]

  age_ways-blind :
      (line : ℕ → CacheLine) (base cur_repl n w i : ℕ)
      → g (age_ways line base cur_repl n w i) ≡ g (line i)
  unfolding age_ways
  age_ways-blind line base cur_repl zero w i = refl
  age_ways-blind line base cur_repl (suc n) w i =
      let l = line (base + w) in
      let next : ℕ → CacheLine =
        if l.valid && ltb cur_repl l.repl_bits
        then update line (base + w) (record l { repl_bits = l.repl_bits - 1 })
        else line in
      age_ways-blind next base cur_repl n (suc w) i
      ∙ if-both (λ (f : ℕ → CacheLine). g (f i) ≡ g (line i)) (l.valid && ltb cur_repl l.repl_bits)
          (update-blind line (base + w) (l.repl_bits - 1) i) refl

  pub update_replacement_bits-blind :
      (c : CacheLevel) (idx way i : ℕ)
      → g ((update_replacement_bits c idx way).line i) ≡ g (c.line i)
  unfolding update_replacement_bits
  update_replacement_bits-blind c idx way i =
      let base = idx * c.assoc in
      let aged = age_ways c.line base (c.line (base + way)).repl_bits c.assoc 0 in
      update-blind aged (base + way) (c.assoc - 1) i
      ∙ age_ways-blind c.line base (c.line (base + way)).repl_bits c.assoc 0 i

-- A line that is no more valid than it was, with its tag and its address.
pub record IsEdit (k l : CacheLine) : Type 0 where
  pub validity : k.valid ≡ true → l.valid ≡ true
  pub tag : k.tag ≡ l.tag
  pub address : k.address ≡ l.address

pub IsEdit-refl : (l : CacheLine) → IsEdit l l
IsEdit-refl l = record { validity = λ h. h; tag = refl; address = refl }

pub IsEdit-trans : (k l m : CacheLine) → IsEdit k l → IsEdit l m → IsEdit k m
IsEdit-trans k l m p q = record {
  validity = λ h. q.validity (p.validity h);
  tag = p.tag ∙ q.tag;
  address = p.address ∙ q.address;
}

pub used-IsEdit :
    (c : CacheLevel) (idx way i : ℕ)
    → IsEdit ((update_replacement_bits c idx way).line i) (c.line i)
used-IsEdit c idx way i = record {
  validity = λ h.
      sym (update_replacement_bits-blind (λ (l : CacheLine). l.valid) (λ l r. refl) c idx way i)
      ∙ h;
  tag = update_replacement_bits-blind (λ (l : CacheLine). l.tag) (λ l r. refl) c idx way i;
  address = update_replacement_bits-blind (λ (l : CacheLine). l.address) (λ l r. refl) c idx way i;
}

pub edited-IsLevel :
    (sets : ℕ) (c : CacheLevel) (line : ℕ → CacheLine)
    → ((i : ℕ) → IsEdit (line i) (c.line i))
    → IsLevel sets c
    → IsLevel sets (record c { line = line })
unfolding get_tag
edited-IsLevel sets c line e h = record {
  ways = h.ways;
  sets_eq = h.sets_eq;
  tag_eq = h.tag_eq;
  unique = edited-IsUnique c line (λ i. (e i).validity) (λ i. (e i).tag) h.unique;
  addressed = λ idx v l valid s.
      let at = e (idx * c.assoc + v) in
      let (row, its_tag) = h.addressed idx v l (at.validity valid) s in
      (
        ap (λ a. a / 64 % sets) at.address ∙ row,
        ap (λ a. a / 64 / sets) at.address ∙ (its_tag ∙ sym at.tag),
      );
}

abbrev pub change : (Entry → Entry) → Option Entry → Option Entry
change f none = none
change f (some e) = some (f e)

-- Lines that match as before and are changed by `f` where they match.
pub entries-change :
    (sets : ℕ) (c : CacheLevel) (line : ℕ → CacheLine) (b : ℕ) (f : Entry → Entry)
    → ((v : ℕ)
        → v < c.assoc
        → matches (record c { line = line }) (b % sets) (b / sets) v
          ≡ matches c (b % sets) (b / sets) v)
    → ((v : ℕ)
        → v < c.assoc
        → matches c (b % sets) (b / sets) v ≡ true
        → entry_of (line (b % sets * c.assoc + v)) ≡ f (entry_of (way_of c (b % sets) v)))
    → entries sets (record c { line = line }) b ≡ change f (entries sets c b)
entries-change sets c line b f same changed =
    let d : CacheLevel = record c { line = line } in
    let idx = b % sets in
    let found : way_found sets d b ≡ way_found sets c b =
      find_way-ext c d idx (b / sets) c.assoc 0 (λ v l. same v (omega (arith, l))) in
    elim (Option-cases (way_found sets c b)) [
      | inl e ↦ ap (entry_at d idx) (found ∙ e) ∙ sym (ap (λ o. change f (entry_at c idx o)) e)
      | inr (w, e) ↦
          let (l, m) = find_way-matches c idx (b / sets) c.assoc 0 w e in
          ap (entry_at d idx) (found ∙ e)
          ∙ (ap some (changed w (omega (arith, l)) m)
              ∙ sym (ap (λ o. change f (entry_at c idx o)) e))
    ]

-- Lines that match as before and keep their entries where they match.
pub entries-same :
    (sets : ℕ) (c : CacheLevel) (line : ℕ → CacheLine) (b : ℕ)
    → ((v : ℕ)
        → v < c.assoc
        → matches (record c { line = line }) (b % sets) (b / sets) v
          ≡ matches c (b % sets) (b / sets) v)
    → ((v : ℕ)
        → v < c.assoc
        → matches c (b % sets) (b / sets) v ≡ true
        → entry_of (line (b % sets * c.assoc + v)) ≡ entry_of (way_of c (b % sets) v))
    → entries sets (record c { line = line }) b ≡ entries sets c b
entries-same sets c line b same changed =
    entries-change sets c line b (λ e. e) same changed ∙ kept (entries sets c b)
  where
    kept : (o : Option Entry) → change (λ e. e) o ≡ o
    kept none = refl
    kept (some e) = refl

-- A use of a way changes no entry.
pub entries-used :
    (sets : ℕ) (c : CacheLevel) (idx way b : ℕ)
    → entries sets (record c { line = (update_replacement_bits c idx way).line }) b
      ≡ entries sets c b
entries-used sets c idx way b =
    entries-same sets c (update_replacement_bits c idx way).line b
      (λ v l.
        update_replacement_bits-blind (λ (k : CacheLine). k.valid && (k.tag == b / sets))
          (λ k r. refl) c idx way (b % sets * c.assoc + v))
      (λ v l m.
        update_replacement_bits-blind entry_of (λ k r. refl) c idx way (b % sets * c.assoc + v))
