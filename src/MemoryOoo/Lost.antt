-- ===== src/MemoryOoo/Lost.antt =====
-- Stores that `MemoryOOO::access` of memory_ooo.cpp forgets.
use superscalar_oooprocessor.Base.{
  ℕ, ◌+◌, ◌*◌, ◌/◌, ◌≡◌, refl, sym, ap, ap₂, subst, ◌∙◌, Bool, true, false, ◌&&◌, Option, none,
  some, if◌then◌else◌, Option-cases, inl, inr, arith, if-cases,
}
use superscalar_oooprocessor.Cache.{CacheLine, CacheLevel}
use superscalar_oooprocessor.Cache
use superscalar_oooprocessor.Cache.Contents.{Entry, entry_of, entries}
use superscalar_oooprocessor.Cache.Moves.{invalidate_line-IsSwept}
use superscalar_oooprocessor.Cache.Swaps.{IsSwapped, replace-IsSwapped}
use superscalar_oooprocessor.MemoryOoo.{
  MemoryOoo, Request, access, fill_l2, fetch_words, store_words,
}
use superscalar_oooprocessor.MemoryOoo.Shelves.{AgreeOn, seen, pick}
use superscalar_oooprocessor.MemoryOoo.Fills.{dropped_here}
use superscalar_oooprocessor.MemoryOoo.Walks.{IsPlain, try_level-missed, access-missed}
use superscalar_oooprocessor.MemoryOoo.Coherence.{shelves_of, IsCoherent}
use superscalar_oooprocessor.MemoryOoo.Evictions.{loses_store, dirty_in, put_l2}

-- The block `k` was dirty in L1 in `m`; in `m'` its words are those that L2 had.
pub record IsForgotten (m m' : MemoryOoo) (k : ℕ) : Type 0 where
  pub newer : Entry
  pub older : Entry
  pub in_l1 : entries 64 m.l1 k ≡ some newer
  pub is_dirty : newer.dirty ≡ true
  pub in_l2 : entries 512 m.l2 k ≡ some older
  pub forgotten : AgreeOn (seen (shelves_of m') k) older.words

dirty_in-cases :
    (o : Option Entry) → dirty_in o ≡ true → (e : Entry) × (o ≡ some e) × (e.dirty ≡ true)
dirty_in-cases none d = absurd (ground (arith, d))
dirty_in-cases (some e) d = (e, refl, d)

-- The line of the block that comes in, over a line that is dirty in L1.
module _ (m : MemoryOoo) (a : ℕ) (l2' : CacheLevel) (evicted : CacheLine) (h : IsCoherent m)
    (sw : IsSwapped 512 m.l2 a (fetch_words m.mem a) evicted l2')
    (newer : dirty_in (entries 64 m.l1 (evicted.address / 64)) ≡ true) where
  abbrev k : ℕ
  k = evicted.address / 64

  abbrev after : MemoryOoo
  after = record m {
    l2 = l2';
    l1 = Cache.invalidate_line m.l1 evicted.address;
    mem = if evicted.dirty then store_words m.mem evicted.address evicted.words else m.mem;
  }

  after-IsForgotten : evicted.valid ≡ true → IsForgotten m after k
  after-IsForgotten valid =
      let (e, held, dirty) = dirty_in-cases (entries 64 m.l1 k) newer in
      let swept = invalidate_line-IsSwept 64 m.l1 evicted.address h.l1_level in
      record {
        newer = e;
        older = entry_of evicted;
        in_l1 = held;
        is_dirty = dirty;
        in_l2 = sw.held valid;
        forgotten = λ j l.
            ap₂ (λ o p. pick o p j (after.mem (16 * k + j))) swept.here (sw.gone valid)
            ∙ dropped_here (shelves_of m) (entry_of evicted) evicted.address h.backing
                (sw.held valid) j l;
      }

fill_l2-IsForgotten :
    (m : MemoryOoo) (a : ℕ)
    → IsCoherent m
    → entries 512 m.l2 (a / 64) ≡ none
    → loses_store m a ≡ true
    → (k : ℕ) × IsForgotten m (fill_l2 m a) k
unfolding fill_l2 loses_store
fill_l2-IsForgotten m a h absent lost =
    let line : CacheLine = record m.indeterminate { words = fetch_words m.mem a } in
    let l2' = (Cache.replace m.l2 a line).1 in
    let (evicted, out, sw) = replace-IsSwapped 512 m.l2 a line (omega arith) h.l2_level absent in
    let k = evicted.address / 64 in
    let loses : Option CacheLine → Bool = λ o. elim o [
      | none ↦ false
      | some e ↦ e.valid && dirty_in (entries 64 m.l1 (e.address / 64))
    ] in
    let both = sym (ap loses out) ∙ lost in
    (
      k,
      subst
          (λ (o : Option CacheLine).
            IsForgotten m
              (elim o as (λ _. MemoryOoo) [
                | none ↦ record m { l2 = l2' }
                | some e ↦ put_l2 m l2' e
              ])
              k)
          (sym out)
          (if-cases (λ m'. IsForgotten m m' k) evicted.valid
            (λ e. after-IsForgotten m a l2' evicted h sw (ground (arith, both, e)) e)
            (λ e. absurd (ground (arith, both, e)))),
    )

-- With the caches on and coherent: where L2, and so L1, does not hold the block of a read or a write, and
-- the line that leaves L2 for it is dirty in L1, the access forgets the stores that only L1 had.
-- Afterwards each of the 16 words of that line is the one of L2.
pub access-IsForgotten :
    (m : MemoryOoo) (a read_data : ℕ) (q : Request)
    → IsCoherent m
    → IsPlain q
    → entries 512 m.l2 (a / 64) ≡ none
    → loses_store m a ≡ true
    → (k : ℕ) × IsForgotten m (access m a read_data q).2 k
access-IsForgotten m a read_data q h plain absent lost =
    let (k, forgotten) = fill_l2-IsForgotten m a h absent lost in
    let missed : entries 64 m.l1 (a / 64) ≡ none = not_near in
    (
      k,
      subst (λ (r : Bool × ℕ × MemoryOoo). IsForgotten m r.2 k)
          (sym (
            access-missed m a read_data plain h.caches
              (try_level-missed 64 m.l1 a read_data plain h.l1_level missed)
              (try_level-missed 512 m.l2 a read_data plain h.l2_level absent)))
          forgotten,
    )
  where
    not_near : entries 64 m.l1 (a / 64) ≡ none
    not_near = elim (Option-cases (entries 64 m.l1 (a / 64))) [
      | inl e ↦ e
      | inr (e, held) ↦
          let (g, far, _) = h.backing.included (a / 64) e held in
          absurd (ground (arith, absent, far))
    ]
