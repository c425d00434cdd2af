-- ===== src/Cache/Accesses.antt =====
-- What a read and a write of a level do to its entries (`NBCacheLevel::read`, `write` and `readLine`
-- of memory_ooo.cpp).
use mathlib.Core.Option.{some-injective}
use superscalar_oooprocessor.Base.{
  ℕ, ◌+◌, ◌*◌, ◌/◌, ◌%◌, ◌<◌, ◌≡◌, ◌≢◌, refl, sym, ap, ap₂, subst, ◌∙◌, Bool, true, false, ◌&&◌,
  Option, none, some, ◌==◌, update, update_self, update_ne, Bool-cases, Option-cases, ==-true→eq,
  inl, inr, arith,
}
use superscalar_oooprocessor.Cache.{
  CacheLine, CacheLevel, get_offset, get_index, get_tag, matches, update_replacement_bits, read,
  write, read_line,
}
use superscalar_oooprocessor.Cache.Hits.{
  is_hit-found, is_hit-missed, read_at, write-hit, write-miss, written, written-block, update-keeps,
  find_way-same,
}
use superscalar_oooprocessor.Cache.Fills.{looked_up}
use superscalar_oooprocessor.Cache.Edits.{place-outside}
use superscalar_oooprocessor.Cache.Contents.{
  Entry, entry_of, entry_at, entries, way_found, IsLevel, find_way-matches, looked_up-way_found,
  block_unique,
}
use superscalar_oooprocessor.Cache.Touched.{
  IsEdit, IsEdit-refl, IsEdit-trans, used-IsEdit, edited-IsLevel, change, entries-same,
  entries-used, update_replacement_bits-blind,
}

-- The word that a look-up yields.
abbrev pub word_of : ℕ → Option Entry → Option ℕ
word_of k none = none
word_of k (some e) = some (e.words k)

abbrev pub is_some : Option Entry → Bool
is_some none = false
is_some (some e) = true

-- A look-up of an address is one of its block.
pub entries-looked_up :
    (sets : ℕ) (c : CacheLevel) (a : ℕ)
    → IsLevel sets c
    → (o : Option ℕ) → looked_up c a ≡ o
    → entries sets c (a / 64) ≡ entry_at c (get_index c a) o
unfolding get_index
entries-looked_up sets c a h o e =
    ap₂ (λ i w. entry_at c i w) (sym (ap (λ s. a / 64 % s) h.sets_eq))
      (sym (looked_up-way_found sets c a h) ∙ e)

-- After a read: a level, the same entries, and what was read.
pub record IsRead (sets : ℕ) (c : CacheLevel) (a : ℕ) (r : Option ℕ × CacheLevel) : Type 0 where
  pub level : IsLevel sets r.1
  pub same : (b : ℕ) → entries sets r.1 b ≡ entries sets c b
  pub got : r.0 ≡ word_of (get_offset a / 4) (entries sets c (a / 64))

pub read-IsRead : (sets : ℕ) (c : CacheLevel) (a : ℕ) → IsLevel sets c → IsRead sets c a (read c a)
unfolding read update_replacement_bits
read-IsRead sets c a h = elim (Option-cases (looked_up c a)) [
  | inl e ↦
      subst (λ (o : Option ℕ × CacheLevel). IsRead sets c a (read_at (get_offset a / 4) o))
        (sym (is_hit-missed c a e))
        (record {
          level = h;
          same = λ b. refl;
          got = sym (ap (word_of (get_offset a / 4)) (entries-looked_up sets c a h none e));
        })
  | inr (w, e) ↦
      let idx = get_index c a in
      let used = update_replacement_bits c idx w in
      subst (λ (o : Option ℕ × CacheLevel). IsRead sets c a (read_at (get_offset a / 4) o))
        (sym (is_hit-found c a w e))
        (record {
          level = edited-IsLevel sets c used.line (used-IsEdit c idx w) h;
          same = entries-used sets c idx w;
          got =
              ap some (
                ap (λ (f : ℕ → ℕ). f (get_offset a / 4))
                  (update_replacement_bits-blind (λ (k : CacheLine). k.words) (λ k r. refl) c idx w
                    (idx * c.assoc + w)))
              ∙ sym (ap (word_of (get_offset a / 4)) (entries-looked_up sets c a h (some w) e));
        })
]

-- A word put into a block.
abbrev pub put_word : ℕ → ℕ → Entry → Entry
put_word k value e = record e { words = update e.words k value; dirty = true }

-- After a write: a level, whether it hit, and the entries with the word in the block.
pub record IsWritten (sets : ℕ) (c : CacheLevel) (a value : ℕ) (r : Bool × CacheLevel)
    : Type 0 where
  pub level : IsLevel sets r.1
  pub hit : r.0 ≡ is_some (entries sets c (a / 64))
  pub here :
      entries sets r.1 (a / 64)
      ≡ change (put_word (get_offset a / 4) value) (entries sets c (a / 64))
  pub there : (b : ℕ) → b ≢ a / 64 → entries sets r.1 b ≡ entries sets c b

-- A place is one way of one set.
pub place_unique : (n i j v w : ℕ) → v < n → w < n → i * n + v ≡ j * n + w → (i ≡ j) × (v ≡ w)
place_unique n i j v w lv lw e = elim (Bool-cases (i == j)) [
  | inl s ↦ let row = ==-true→eq i j s in (row, omega (arith, e, ap (λ (t : ℕ). t * n) row))
  | inr s ↦ absurd (ground (arith, e, lw, place-outside j i n v (ground (arith, s)) lv))
]

-- Two blocks that match in one place are one.
pub same_block :
    (sets : ℕ) (c : CacheLevel) (b k v w : ℕ)
    → v < c.assoc
    → w < c.assoc
    → matches c (b % sets) (b / sets) v ≡ true
    → matches c (k % sets) (k / sets) w ≡ true
    → b % sets * c.assoc + v ≡ k % sets * c.assoc + w
    → b ≡ k
same_block sets c b k v w lv lw mv mw e =
    let row = (place_unique c.assoc (b % sets) (k % sets) v w lv lw e).0 in
    block_unique sets b k row (ground (arith, mv, mw, ap (λ i. (c.line i).tag) e))

-- A hit in the way `w`.
module _ (sets : ℕ) (c : CacheLevel) (a value w : ℕ) (h : IsLevel sets c)
    (e : looked_up c a ≡ some w) where
  abbrev spot : ℕ
  spot = get_index c a * c.assoc + w

  written-IsEdit : (i : ℕ) → IsEdit (written c a value w i) (c.line i)
  unfolding written
  written-IsEdit i =
      let used = update_replacement_bits c (get_index c a) w in
      IsEdit-trans _ (used.line i) (c.line i)
        (update-keeps IsEdit IsEdit-refl used.line spot
          (record (used.line spot) {
            words = update (used.line spot).words (get_offset a / 4) value;
            dirty = true;
          })
          i (record { validity = λ v. v; tag = refl; address = refl }))
        (used-IsEdit c (get_index c a) w i)

  written-entry_of :
      entry_of (written c a value w spot)
      ≡ put_word (get_offset a / 4) value (entry_of (c.line spot))
  unfolding written
  written-entry_of =
      let used = update_replacement_bits c (get_index c a) w in
      ap entry_of (update_self used.line spot _)
      ∙ ap (put_word (get_offset a / 4) value)
          (update_replacement_bits-blind entry_of (λ k r. refl) c (get_index c a) w spot)

  written_elsewhere : (i : ℕ) → i ≢ spot → entry_of (written c a value w i) ≡ entry_of (c.line i)
  unfolding written
  written_elsewhere i ne =
      let used = update_replacement_bits c (get_index c a) w in
      ap entry_of (update_ne used.line spot _ i ne)
      ∙ update_replacement_bits-blind entry_of (λ k r. refl) c (get_index c a) w i

  at_spot : (w < c.assoc) × (matches c (a / 64 % sets) (a / 64 / sets) w ≡ true)
  at_spot =
      let found : way_found sets c (a / 64) ≡ some w = sym (looked_up-way_found sets c a h) ∙ e in
      let (l, m) = find_way-matches c (a / 64 % sets) (a / 64 / sets) c.assoc 0 w found in
      (omega (arith, l), m)

  row : get_index c a ≡ a / 64 % sets
  unfolding get_index
  row = ap (λ s. a / 64 % s) h.sets_eq

  write_hit-IsWritten : IsWritten sets c a value (true, record c { line = written c a value w })
  unfolding get_index get_tag
  write_hit-IsWritten =
      let d : CacheLevel = record c { line = written c a value w } in
      let level : IsLevel sets d = edited-IsLevel sets c (written c a value w) written-IsEdit h in
      let found : looked_up d a ≡ some w =
        find_way-same c (written c a value w) (written-block c a value w) (get_index c a)
          (get_tag c a) c.assoc 0
        ∙ e in
      let before = entries-looked_up sets c a h (some w) e in
      record {
        level = level;
        hit = sym (ap is_some before);
        here =
            entries-looked_up sets d a level (some w) found
            ∙ (ap some written-entry_of
                ∙ sym (ap (change (put_word (get_offset a / 4) value)) before));
        there = λ b ne.
            entries-same sets c (written c a value w) b
              (λ v l.
                let s = written-block c a value w (b % sets * c.assoc + v) in
                ap₂ (λ (x : Bool) (t : ℕ). x && (t == b / sets)) s.valid s.tag)
              (λ v l m. written_elsewhere (b % sets * c.assoc + v) (λ at. ne (
                same_block sets c b (a / 64) v w l at_spot.0 m at_spot.1
                  (at ∙ ap (λ i. i * c.assoc + w) row))));
      }

pub write-IsWritten :
    (sets : ℕ) (c : CacheLevel) (a value : ℕ)
    → IsLevel sets c
    → IsWritten sets c a value (write c a value)
write-IsWritten sets c a value h = elim (Option-cases (looked_up c a)) [
  | inl e ↦
      let before = entries-looked_up sets c a h none e in
      subst (IsWritten sets c a value) (sym (write-miss c a value e)) (record {
        level = h;
        hit = sym (ap is_some before);
        here = before ∙ sym (ap (change (put_word (get_offset a / 4) value)) before);
        there = λ b ne. refl;
      })
  | inr (w, e) ↦
      subst (IsWritten sets c a value) (sym (write-hit c a value w e))
        (write_hit-IsWritten sets c a value w h e)
]

-- `readLine` yields the line of the block, if there is one.
pub read_line-entry_of :
    (sets : ℕ) (indeterminate : CacheLine) (c : CacheLevel) (a : ℕ) {e : Entry}
    → IsLevel sets c
    → entries sets c (a / 64) ≡ some e
    → entry_of (read_line indeterminate c a) ≡ e
unfolding read_line
read_line-entry_of sets indeterminate c a {e} h held = elim (Option-cases (looked_up c a)) [
  | inl m ↦ absurd (ground (arith, held, entries-looked_up sets c a h none m))
  | inr (w, m) ↦
      rw (m, read_line) (some-injective _ _ (sym (entries-looked_up sets c a h (some w) m) ∙ held))
]
