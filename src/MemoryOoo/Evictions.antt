-- ===== src/MemoryOoo/Evictions.antt =====
-- A block that comes from the memory, and the one that leaves both levels for it (`MemoryOOO::access` of
-- memory_ooo.cpp).
use superscalar_oooprocessor.Base.{
  ℕ, ◌+◌, ◌*◌, ◌/◌, ◌≡◌, ◌≢◌, refl, sym, ap, subst, ◌∙◌, Bool, true, false, ◌&&◌, Option, none,
  some, if◌then◌else◌, update_self, update_ne, if-cases, arith,
}
use superscalar_oooprocessor.Cache.{CacheLine, CacheLevel, block_of}
use superscalar_oooprocessor.Cache
use superscalar_oooprocessor.Cache.Contents.{Entry, entry_of, entries}
use superscalar_oooprocessor.Cache.Moves.{invalidate_line-IsSwept}
use superscalar_oooprocessor.Cache.Swaps.{IsSwapped, replace-IsSwapped}
use superscalar_oooprocessor.MemoryOoo.{MemoryOoo, fill_l2, fetch_words, store_words}
use superscalar_oooprocessor.MemoryOoo.Shelves.{
  Shelves, AgreeOn, Keeps-trans, drops_near, drops_near-Keeps,
}
use superscalar_oooprocessor.MemoryOoo.Fills.{
  drops_far, drops_far-Keeps, fills_far-Keeps, dropped_there,
}
use superscalar_oooprocessor.MemoryOoo.Coherence.{
  shelves_of, IsCoherent, IsMoved, moved, Keeps-eq, clean, entries-filled, entries-swapped,
  entries-swept,
}

-- Whether the block is dirty in a level.
abbrev pub dirty_in : Option Entry → Bool
dirty_in none = false
dirty_in (some e) = e.dirty

-- Whether bringing the block of `a` from the memory takes a line out of L2 whose block is dirty in L1: that
-- line goes with its words of L2, and the newer ones in L1 are invalidated.
unfoldable pub loses_store : MemoryOoo → ℕ → Bool
loses_store m a =
    let line : CacheLine = record m.indeterminate { words = fetch_words m.mem a } in
    elim (Cache.replace m.l2 a line).0 [
      | none ↦ false
      | some evicted ↦ evicted.valid && dirty_in (entries 64 m.l1 (evicted.address / 64))
    ]

-- What `fill_l2` does with the line that `replace` yields.
abbrev pub put_l2 : MemoryOoo → CacheLevel → CacheLine → MemoryOoo
put_l2 m l2' evicted =
    if evicted.valid
    then record m {
      l2 = l2';
      l1 = Cache.invalidate_line m.l1 evicted.address;
      mem = if evicted.dirty then store_words m.mem evicted.address evicted.words else m.mem;
    }
    else record m { l2 = l2' }

fetch_words-AgreeOn :
    (mem : ℕ → ℕ) (a : ℕ) → AgreeOn (fetch_words mem a) (λ j. mem (16 * (a / 64) + j))
fetch_words-AgreeOn mem a j l = ap mem (omega arith)

module _ (m : MemoryOoo) (a : ℕ) (l2' : CacheLevel) (evicted : CacheLine) (h : IsCoherent m)
    (missed : entries 64 m.l1 (a / 64) ≡ none) (absent : entries 512 m.l2 (a / 64) ≡ none)
    (sw : IsSwapped 512 m.l2 a (fetch_words m.mem a) evicted l2') where
  abbrev s : Shelves
  s = shelves_of m

  abbrev k : ℕ
  k = evicted.address / 64

  abbrev came : Entry
  came = clean a (fetch_words m.mem a)

  put_l2-invalid : evicted.valid ≡ false → IsMoved m (record m { l2 = l2' })
  put_l2-invalid e = moved m m.l1 l2' m.mem h h.l1_level sw.level (
      Keeps-eq s m.mem refl (entries-filled 512 m.l2 l2' a (fetch_words m.mem a) evicted sw e)
        (fills_far-Keeps s h.backing (a / 64) came missed absent (fetch_words-AgreeOn m.mem a)))

  apart : evicted.valid ≡ true → a / 64 ≢ k
  apart e same = absurd (ground (arith, absent, ap s.far same ∙ sw.held e))

  put_l2-valid :
      evicted.valid ≡ true
      → dirty_in (entries 64 m.l1 k) ≡ false
      → IsMoved m (record m {
        l2 = l2';
        l1 = Cache.invalidate_line m.l1 evicted.address;
        mem = if evicted.dirty then store_words m.mem evicted.address evicted.words else m.mem;
      })
  put_l2-valid e d =
      let out = entry_of evicted in
      let first = drops_near-Keeps s h.backing k (λ x at. sym (ap dirty_in at) ∙ d) in
      let t = drops_near s k in
      let second =
        drops_far-Keeps t evicted.address out first.backing (update_self s.near k none)
          (sw.held e) in
      let u = drops_far t k out evicted.address in
      let swept = invalidate_line-IsSwept 64 m.l1 evicted.address h.l1_level in
      let ne = apart e in
      moved m (Cache.invalidate_line m.l1 evicted.address) l2' u.mem h swept.level sw.level (
        Keeps-eq s u.mem
          (entries-swept 64 m.l1 (Cache.invalidate_line m.l1 evicted.address) k none swept)
          (entries-swapped 512 m.l2 l2' a (fetch_words m.mem a) evicted sw e)
          (Keeps-trans s u _ (Keeps-trans s t u first second) (
            fills_far-Keeps u second.backing (a / 64) came
              (update_ne s.near k none (a / 64) ne ∙ missed)
              (update_ne s.far k none (a / 64) ne ∙ absent)
              (λ j l.
                fetch_words-AgreeOn m.mem a j l
                ∙ sym (dropped_there t out evicted.address (a / 64) j ne l)))))

  put_l2-IsMoved :
      (evicted.valid && dirty_in (entries 64 m.l1 k)) ≡ false → IsMoved m (put_l2 m l2' evicted)
  put_l2-IsMoved d =
      if-cases (IsMoved m) evicted.valid (λ e. put_l2-valid e (ground (arith, d, e)))
        (λ e. put_l2-invalid e)

-- After a miss in both levels that loses no store: the move is invisible.
pub fill_l2-IsMoved :
    (m : MemoryOoo) (a : ℕ)
    → IsCoherent m
    → entries 64 m.l1 (a / 64) ≡ none
    → entries 512 m.l2 (a / 64) ≡ none
    → loses_store m a ≡ false
    → IsMoved m (fill_l2 m a)
unfolding fill_l2 loses_store
fill_l2-IsMoved m a h missed absent kept =
    let line : CacheLine = record m.indeterminate { words = fetch_words m.mem a } in
    let l2' = (Cache.replace m.l2 a line).1 in
    let (evicted, out, sw) = replace-IsSwapped 512 m.l2 a line (omega arith) h.l2_level absent in
    let lost : Option CacheLine → Bool = λ o. elim o [
      | none ↦ false
      | some e ↦ e.valid && dirty_in (entries 64 m.l1 (e.address / 64))
    ] in
    subst
      (λ (o : Option CacheLine).
        IsMoved m
          (elim o as (λ _. MemoryOoo) [ none ↦ record m { l2 = l2' } | some e ↦ put_l2 m l2' e ]))
      (sym out) (put_l2-IsMoved m a l2' evicted h missed absent sw (sym (ap lost out) ∙ kept))
