-- ===== src/Cache/Hits.antt =====
-- Hits of a cache level (`NBCacheLevel` of memory_ooo.cpp): the replacement bits do not touch what is
-- cached, and a word that was written is read back.
use superscalar_oooprocessor.Base.{
  ℕ, zero, suc, ◌+◌, ◌-◌, ◌*◌, ◌/◌, ◌≡◌, refl, sym, ap, subst, ◌∙◌, Bool, true, false, ◌&&◌, Option,
  none, some, ltb, ◌==◌, if◌then◌else◌, update, update_self, ==-true→eq, Option-cases, Bool-cases,
  inl, inr, if-both,
}
use superscalar_oooprocessor.Cache.{
  CacheLine, CacheLevel, get_offset, get_index, get_tag, find_way, age_ways,
  update_replacement_bits, is_hit, read, write,
}

-- Two lines cache the same block.
pub record SameBlock (k l : CacheLine) : Type 0 where
  pub valid : k.valid ≡ l.valid
  pub tag : k.tag ≡ l.tag

-- They hold the same words too.
pub record SameLine (k l : CacheLine) : Type 0 where
  pub block : SameBlock k l
  pub words : k.words ≡ l.words

pub find_way-same :
    (c : CacheLevel) (line : ℕ → CacheLine)
    → ((i : ℕ) → SameBlock (line i) (c.line i))
    → (idx tag n w : ℕ) → find_way (record c { line = line }) idx tag n w ≡ find_way c idx tag n w
unfolding find_way
find_way-same c line h idx tag zero w = refl
find_way-same c line h idx tag (suc n) w =
    let at = h (idx * c.assoc + w) in
    let rest = find_way-same c line h idx tag n (suc w) in rw (at.valid, at.tag, rest) refl

SameLine-refl : (l : CacheLine) → SameLine l l
SameLine-refl l = record { block = record { valid = refl; tag = refl }; words = refl }

SameLine-trans : (k l m : CacheLine) → SameLine k l → SameLine l m → SameLine k m
SameLine-trans k l m p q = record {
  block = record { valid = p.block.valid ∙ q.block.valid; tag = p.block.tag ∙ q.block.tag };
  words = p.words ∙ q.words;
}

-- What relates each line to itself and the new line to the old one relates every line.
pub update-keeps :
    (P : CacheLine → CacheLine → Type 0)
    → ((l : CacheLine) → P l l)
    → (line : ℕ → CacheLine) (j : ℕ) (k : CacheLine) (i : ℕ) → P k (line j)
    → P (update line j k i) (line i)
update-keeps P same line j k i s = elim (Bool-cases (i == j)) [
  | inl e ↦
      subst (λ m. P (update line j k m) (line m)) (sym (==-true→eq i j e))
        (subst (λ x. P x (line j)) (sym (update_self line j k)) s)
  | inr e ↦ simp e (same (line i))
]

age_ways-same :
    (line : ℕ → CacheLine) (base cur_repl n w i : ℕ)
    → SameLine (age_ways line base cur_repl n w i) (line i)
unfolding age_ways
age_ways-same line base cur_repl zero w i = SameLine-refl (line i)
age_ways-same line base cur_repl (suc n) w i =
    SameLine-trans _ (aged i) (line i) (age_ways-same aged base cur_repl n (suc w) i) (
      if-both (λ (f : ℕ → CacheLine). SameLine (f i) (line i))
        ((line (base + w)).valid && ltb cur_repl (line (base + w)).repl_bits)
        (update-keeps SameLine SameLine-refl line (base + w) older i lower)
        (SameLine-refl (line i)))
  where
    older : CacheLine
    older = record (line (base + w)) { repl_bits = (line (base + w)).repl_bits - 1 }

    lower : SameLine older (line (base + w))
    lower = record { block = record { valid = refl; tag = refl }; words = refl }

    aged : ℕ → CacheLine
    aged =
        if (line (base + w)).valid && ltb cur_repl (line (base + w)).repl_bits
        then update line (base + w) older
        else line

pub update_replacement_bits-same :
    (c : CacheLevel) (idx way i : ℕ)
    → SameLine ((update_replacement_bits c idx way).line i) (c.line i)
unfolding update_replacement_bits
update_replacement_bits-same c idx way i =
    SameLine-trans _ (aged i) (c.line i)
      (update-keeps SameLine SameLine-refl aged (idx * c.assoc + way)
        (record (aged (idx * c.assoc + way)) { repl_bits = c.assoc - 1 }) i
        (record { block = record { valid = refl; tag = refl }; words = refl }))
      (age_ways-same c.line (idx * c.assoc) (c.line (idx * c.assoc + way)).repl_bits c.assoc 0 i)
  where
    aged : ℕ → CacheLine
    aged = age_ways c.line (idx * c.assoc) (c.line (idx * c.assoc + way)).repl_bits c.assoc 0

-- The lines after a write hit in the way `w` of the set of the address.
unfoldable pub written : CacheLevel → ℕ → ℕ → ℕ → ℕ → CacheLine
written c address value w =
    let idx = get_index c address in
    let c' = update_replacement_bits c idx w in
    let l = idx * c.assoc + w in
    update c'.line l (record (c'.line l) {
      words = update (c'.line l).words (get_offset address / 4) value;
      dirty = true;
    })

pub is_hit-found :
    (c : CacheLevel) (address w : ℕ)
    → find_way c (get_index c address) (get_tag c address) c.assoc 0 ≡ some w
    → is_hit c address ≡ (
      some (get_index c address * c.assoc + w),
      update_replacement_bits c (get_index c address) w,
    )
unfolding is_hit
is_hit-found c address w e = rw (e, is_hit) refl

pub is_hit-missed :
    (c : CacheLevel) (address : ℕ)
    → find_way c (get_index c address) (get_tag c address) c.assoc 0 ≡ none
    → is_hit c address ≡ (none, c)
unfolding is_hit
is_hit-missed c address e = rw (e, is_hit) refl

-- What `write` and `read` do with the result of `is_hit`.
abbrev store_at : ℕ → ℕ → Option ℕ × CacheLevel → Bool × CacheLevel
store_at word value o = elim o.0 [
  | none ↦ (false, o.1)
  | some l ↦ (
    true,
    record o.1 {
      line =
          update o.1.line l
            (record (o.1.line l) { words = update (o.1.line l).words word value; dirty = true });
    },
  )
]

abbrev pub load_at : ℕ → Option ℕ × CacheLevel → Option ℕ
load_at word o = elim o.0 [ none ↦ none | some l ↦ some ((o.1.line l).words word) ]

abbrev pub read_at : ℕ → Option ℕ × CacheLevel → Option ℕ × CacheLevel
read_at word o = elim o.0 [ none ↦ (none, o.1) | some l ↦ (some ((o.1.line l).words word), o.1) ]

read_at-load_at : (word : ℕ) (o : Option ℕ × CacheLevel) → (read_at word o).0 ≡ load_at word o
read_at-load_at word (none, c) = refl
read_at-load_at word (some l, c) = refl

pub load_at-read :
    (c : CacheLevel) (address : ℕ)
    → (read c address).0 ≡ load_at (get_offset address / 4) (is_hit c address)
unfolding read
load_at-read c address = read_at-load_at (get_offset address / 4) (is_hit c address)

pub write-hit :
    (c : CacheLevel) (address value w : ℕ)
    → find_way c (get_index c address) (get_tag c address) c.assoc 0 ≡ some w
    → write c address value ≡ (true, record c { line = written c address value w })
unfolding write written update_replacement_bits
write-hit c address value w e =
    ap (store_at (get_offset address / 4) value) (is_hit-found c address w e)

pub write-miss :
    (c : CacheLevel) (address value : ℕ)
    → find_way c (get_index c address) (get_tag c address) c.assoc 0 ≡ none
    → write c address value ≡ (false, c)
unfolding write
write-miss c address value e =
    ap (store_at (get_offset address / 4) value) (is_hit-missed c address e)

pub read-hit :
    (c : CacheLevel) (address w : ℕ)
    → find_way c (get_index c address) (get_tag c address) c.assoc 0 ≡ some w
    → (read c address).0
      ≡ some ((c.line (get_index c address * c.assoc + w)).words (get_offset address / 4))
read-hit c address w e =
    let same =
      update_replacement_bits-same c (get_index c address) w (get_index c address * c.assoc + w) in
    load_at-read c address
    ∙ ap (load_at (get_offset address / 4)) (is_hit-found c address w e)
    ∙ ap (λ (f : ℕ → ℕ). some (f (get_offset address / 4))) same.words

pub read-miss :
    (c : CacheLevel) (address : ℕ)
    → find_way c (get_index c address) (get_tag c address) c.assoc 0 ≡ none
    → (read c address).0 ≡ none
read-miss c address e =
    load_at-read c address ∙ ap (load_at (get_offset address / 4)) (is_hit-missed c address e)

pub written-block :
    (c : CacheLevel) (address value w i : ℕ) → SameBlock (written c address value w i) (c.line i)
unfolding written
written-block c address value w i =
    let c' = update_replacement_bits c (get_index c address) w in
    let l = get_index c address * c.assoc + w in
    let s =
      update-keeps SameBlock (λ l. record { valid = refl; tag = refl }) c'.line l
        (record (c'.line l) {
          words = update (c'.line l).words (get_offset address / 4) value;
          dirty = true;
        })
        i (record { valid = refl; tag = refl }) in
    let t = update_replacement_bits-same c (get_index c address) w i in
    record { valid = s.valid ∙ t.block.valid; tag = s.tag ∙ t.block.tag }

written-word :
    (c : CacheLevel) (address value w : ℕ)
    → (written c address value w (get_index c address * c.assoc + w)).words (get_offset address / 4)
      ≡ value
unfolding written
written-word c address value w =
    let c' = update_replacement_bits c (get_index c address) w in
    let l = get_index c address * c.assoc + w in
    ap (λ (k : CacheLine). k.words (get_offset address / 4)) (update_self c'.line l _)
    ∙ update_self (c'.line l).words (get_offset address / 4) value

-- Whatever the state of a level: after a write of a word, reading it yields the word if the write hit,
-- and is a miss if it missed.
pub read-write :
    (c : CacheLevel) (address value : ℕ)
    → let (hit, c') = write c address value in
      (read c' address).0 ≡ (if hit then some value else none)
unfolding get_index get_tag
read-write c address value = elim (Option-cases found) [
  | inl e ↦ rw (write-miss c address value e) (read-miss c address e)
  | inr (w, e) ↦ rw (write-hit c address value w e) (
      read-hit (record c { line = written c address value w }) address w
        (find_way-same c (written c address value w) (written-block c address value w)
            (get_index c address) (get_tag c address) c.assoc 0
          ∙ e)
      ∙ ap some (written-word c address value w))
]
  where
    found : Option ℕ
    found = find_way c (get_index c address) (get_tag c address) c.assoc 0
