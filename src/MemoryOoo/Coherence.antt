-- ===== src/MemoryOoo/Coherence.antt =====
-- The two cache levels of `MemoryOOO` as shelves, and that moving a line between the levels and the
-- memory is invisible (memory_ooo.cpp).
use mathlib.Core.Option.{some-injective}
use superscalar_oooprocessor.Base.{
  ℕ, ◌/◌, ◌≡◌, ◌≢◌, refl, sym, ap, ap₂, subst, ◌∙◌, Bool, true, false, ◌&&◌, Option, none, some,
  ◌==◌, if◌then◌else◌, update, update_self, update_ne, Bool-cases, inl, inr, arith, fun_ext,
}
use superscalar_oooprocessor.Cache.{CacheLine, CacheLevel, block_of}
use superscalar_oooprocessor.Cache
use superscalar_oooprocessor.Cache.Contents.{Entry, entry_of, entries, IsLevel}
use superscalar_oooprocessor.Cache.Accesses.{read_line-entry_of}
use superscalar_oooprocessor.Cache.Touched.{change}
use superscalar_oooprocessor.Cache.Moves.{IsSwept, write_back_line-IsSwept, put_words}
use superscalar_oooprocessor.Cache.Swaps.{IsSwapped, replace-IsSwapped}
use superscalar_oooprocessor.MemoryOoo.{MemoryOoo, fill_l1}
use superscalar_oooprocessor.MemoryOoo.Shelves.{
  Shelves, AgreeOn, IsBacked, Keeps, Keeps-trans, by_place, drops_near, drops_near-Keeps,
  writes_back, writes_back-Keeps,
}
use superscalar_oooprocessor.MemoryOoo.Fills.{fills_near-Keeps}

abbrev pub shelves_of : MemoryOoo → Shelves
shelves_of m = record { near = entries 64 m.l1; far = entries 512 m.l2; mem = m.mem }

-- The caches are on, and both levels and what they hold are in order.
pub record IsCoherent (m : MemoryOoo) : Type 0 where
  pub caches : (m.opt_level == 0) ≡ false
  pub l1_level : IsLevel 64 m.l1
  pub l2_level : IsLevel 512 m.l2
  pub backing : IsBacked (shelves_of m)

-- A memory after an invisible move.
pub record IsMoved (m m' : MemoryOoo) : Type 0 where
  pub coherent : IsCoherent m'
  pub keeps : Keeps (shelves_of m) (shelves_of m')

-- The block that `replace` brings in.
abbrev pub clean : ℕ → (ℕ → ℕ) → Entry
clean a words = record { words = words; dirty = false; address = a }

-- The entries after `replace`, where a valid line left and where none did.
module _ (sets : ℕ) (c d : CacheLevel) (a : ℕ) (words : ℕ → ℕ) (evicted : CacheLine)
    (h : IsSwapped sets c a words evicted d) where
  pub entries-filled :
      evicted.valid ≡ false
      → entries sets d ≡ update (entries sets c) (a / 64) (some (clean a words))
  entries-filled invalid = fun_ext (λ b.
      by_place (λ i. entries sets d i ≡ update (entries sets c) (a / 64) (some (clean a words)) i)
        (a / 64) b (h.here ∙ sym (update_self (entries sets c) (a / 64) (some (clean a words))))
        (λ ne.
          h.there b ne (λ v. absurd (ground (arith, v, invalid)))
          ∙ sym (update_ne (entries sets c) (a / 64) (some (clean a words)) b ne)))

  pub entries-swapped :
      evicted.valid ≡ true
      → entries sets d
        ≡ update
            (update (entries sets c) (evicted.address / 64) none)
            (a / 64)
            (some (clean a words))
  entries-swapped valid =
      let k = evicted.address / 64 in
      let left = update (entries sets c) k none in
      fun_ext (λ b.
        by_place (λ i. entries sets d i ≡ update left (a / 64) (some (clean a words)) i) (a / 64) b
          (h.here ∙ sym (update_self left (a / 64) (some (clean a words))))
          (λ ne.
            by_place (λ i. entries sets d i ≡ left i) k b
              (h.gone valid ∙ sym (update_self (entries sets c) k none))
              (λ nk. h.there b ne (λ _. nk) ∙ sym (update_ne (entries sets c) k none b nk))
            ∙ sym (update_ne left (a / 64) (some (clean a words)) b ne)))

-- The entries after a sweep.
pub entries-swept :
    (sets : ℕ) (c d : CacheLevel) (k : ℕ) (o : Option Entry)
    → IsSwept sets c k o d
    → entries sets d ≡ update (entries sets c) k o
entries-swept sets c d k o h = fun_ext (λ b.
    by_place (λ i. entries sets d i ≡ update (entries sets c) k o i) k b
      (h.here ∙ sym (update_self (entries sets c) k o))
      (λ ne. h.there b ne ∙ sym (update_ne (entries sets c) k o b ne)))

-- New levels that keep what a reader sees.
pub moved :
    (m : MemoryOoo) (l1' l2' : CacheLevel) (mem' : ℕ → ℕ)
    → IsCoherent m
    → IsLevel 64 l1'
    → IsLevel 512 l2'
    → Keeps (shelves_of m) (shelves_of (record m { l1 = l1'; l2 = l2'; mem = mem' }))
    → IsMoved m (record m { l1 = l1'; l2 = l2'; mem = mem' })
moved m l1' l2' mem' h near_level far_level k = record {
  coherent = record {
    caches = h.caches;
    l1_level = near_level;
    l2_level = far_level;
    backing = k.backing;
  };
  keeps = k;
}

-- Shelves that are equal level by level.
pub Keeps-eq :
    (s : Shelves) {n n' f f' : ℕ → Option Entry} (mem : ℕ → ℕ)
    → n' ≡ n
    → f' ≡ f
    → Keeps s (record { near = n; far = f; mem = mem })
    → Keeps s (record { near = n'; far = f'; mem = mem })
Keeps-eq s mem p q k =
    subst (Keeps s) (ap₂ (λ x y. record { near = x; far = y; mem = mem }) (sym p) (sym q)) k

-- What `fill_l1` does with the line that `replace` yields, and whether it is written back.
abbrev put_l1 : MemoryOoo → CacheLevel → CacheLine → Bool → MemoryOoo
put_l1 m l1' evicted back = record m {
  l1 = l1';
  l2 = if back then Cache.write_back_line m.l2 evicted else m.l2;
}

-- The line of the block `a / 64` comes into L1 from L2.
module _ (m : MemoryOoo) (a : ℕ) (l1' : CacheLevel) (words : ℕ → ℕ) (evicted : CacheLine)
    (g : Entry) (h : IsCoherent m) (missed : entries 64 m.l1 (a / 64) ≡ none)
    (far : entries 512 m.l2 (a / 64) ≡ some g) (agree : AgreeOn words g.words)
    (sw : IsSwapped 64 m.l1 a words evicted l1') where
  abbrev s : Shelves
  s = shelves_of m

  abbrev k : ℕ
  k = evicted.address / 64

  put_l1-invalid : evicted.valid ≡ false → IsMoved m (put_l1 m l1' evicted false)
  put_l1-invalid e = moved m l1' m.l2 m.mem h sw.level h.l2_level (
      Keeps-eq s m.mem (entries-filled 64 m.l1 l1' a words evicted sw e) refl
        (fills_near-Keeps s h.backing (a / 64) (clean a words) g missed far agree))

  apart : evicted.valid ≡ true → a / 64 ≢ k
  apart e same = absurd (ground (arith, missed, ap s.near same ∙ sw.held e))

  put_l1-clean :
      evicted.valid ≡ true → evicted.dirty ≡ false → IsMoved m (put_l1 m l1' evicted false)
  put_l1-clean e d =
      let first =
        drops_near-Keeps s h.backing k
          (λ x at. ap (λ (y : Entry). y.dirty) (some-injective _ _ (sym at ∙ sw.held e)) ∙ d) in
      moved m l1' m.l2 m.mem h sw.level h.l2_level (
        Keeps-eq s m.mem (entries-swapped 64 m.l1 l1' a words evicted sw e) refl (
          Keeps-trans s (drops_near s k) _ first (
            fills_near-Keeps (drops_near s k) first.backing (a / 64) (clean a words) g
              (update_ne s.near k none (a / 64) (apart e) ∙ missed) far agree)))

  put_l1-dirty : evicted.valid ≡ true → IsMoved m (put_l1 m l1' evicted true)
  put_l1-dirty e =
      let out = entry_of evicted in
      let (behind, held, _) = h.backing.included k out (sw.held e) in
      let t = writes_back s k out behind in
      let first = writes_back-Keeps s h.backing k out behind (sw.held e) held in
      let swept = write_back_line-IsSwept 512 m.l2 evicted h.l2_level in
      moved m l1' (Cache.write_back_line m.l2 evicted) m.mem h sw.level swept.level (
        Keeps-eq s m.mem (entries-swapped 64 m.l1 l1' a words evicted sw e)
          (entries-swept 512 m.l2 (Cache.write_back_line m.l2 evicted) k _ swept
            ∙ ap (λ o. update s.far k (change (put_words out.words) o)) held)
          (Keeps-trans s t _ first (
            fills_near-Keeps t first.backing (a / 64) (clean a words) g
              (update_ne s.near k none (a / 64) (apart e) ∙ missed)
              (update_ne s.far k (some (put_words out.words behind)) (a / 64) (apart e) ∙ far)
              agree)))

  put_l1-IsMoved : IsMoved m (put_l1 m l1' evicted (evicted.valid && evicted.dirty))
  put_l1-IsMoved = elim (Bool-cases evicted.valid) [
    | inr e ↦
        subst (λ b. IsMoved m (put_l1 m l1' evicted b)) (sym (ap (λ b. b && evicted.dirty) e))
          (put_l1-invalid e)
    | inl e ↦ elim (Bool-cases evicted.dirty) [
      | inr d ↦
          subst (λ b. IsMoved m (put_l1 m l1' evicted b)) (sym (ap₂ (λ b c. b && c) e d))
            (put_l1-clean e d)
      | inl d ↦
          subst (λ b. IsMoved m (put_l1 m l1' evicted b)) (sym (ap₂ (λ b c. b && c) e d))
            (put_l1-dirty e)
    ]
  ]

-- After a hit in L2: the move is invisible.
pub fill_l1-IsMoved :
    (m : MemoryOoo) (a : ℕ) (g : Entry)
    → IsCoherent m
    → entries 64 m.l1 (a / 64) ≡ none
    → entries 512 m.l2 (a / 64) ≡ some g
    → IsMoved m (fill_l1 m a)
unfolding fill_l1
fill_l1-IsMoved m a g h missed far =
    let line = Cache.read_line m.indeterminate m.l2 a in
    let l1' = (Cache.replace m.l1 a line).1 in
    let (evicted, out, sw) = replace-IsSwapped 64 m.l1 a line (omega arith) h.l1_level missed in
    let words =
      ap (λ (e : Entry). e.words) (read_line-entry_of 512 m.indeterminate m.l2 a h.l2_level far) in
    subst
      (λ (o : Option CacheLine).
        (let x : CacheLine = elim o [ none ↦ m.indeterminate | some e ↦ e ] in
          IsMoved m (put_l1 m l1' x (x.valid && x.dirty))))
      (sym out)
      (put_l1-IsMoved m a l1' line.words evicted g h missed far
        (λ j _. ap (λ (f : ℕ → ℕ). f j) words) sw)
