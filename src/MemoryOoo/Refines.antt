-- ===== src/MemoryOoo/Refines.antt =====
-- Every access of `MemoryOOO` (memory_ooo.cpp) is a step of a memory without caches.
use superscalar_oooprocessor.Base.{
  ℕ, ◌+◌, ◌*◌, ◌/◌, ◌%◌, ◌≡◌, sym, ap, ap₂, subst, ◌∙◌, Bool, false, none, some, update,
  update_self, update_ne, Option-cases, inl, inr, arith, fun_ext,
}
use superscalar_oooprocessor.Cache.{CacheLine, CacheLevel, get_offset, get_index, get_tag}
use superscalar_oooprocessor.Cache
use superscalar_oooprocessor.Cache.Contents.{Entry, entries}
use superscalar_oooprocessor.Cache.Touched.{change}
use superscalar_oooprocessor.Cache.Accesses.{IsWritten, read-IsRead, write-IsWritten, put_word}
use superscalar_oooprocessor.MemoryOoo.{
  MemoryOoo, Request, reading, writing, fill_l1, fill_l2, access,
}
use superscalar_oooprocessor.MemoryOoo.Shelves.{pick, seen, by_place}
use superscalar_oooprocessor.MemoryOoo.Stores.{IsStored, stores_near-IsStored, stores_far-IsStored}
use superscalar_oooprocessor.MemoryOoo.Walks.{
  IsPlain, read, write, try_level-missed, try_level-read, try_level-write, access-near, access-far,
  access-missed,
}
use superscalar_oooprocessor.MemoryOoo.Coherence.{shelves_of, IsCoherent, fill_l1-IsMoved}
use superscalar_oooprocessor.MemoryOoo.Evictions.{loses_store, fill_l2-IsMoved}
use superscalar_oooprocessor.MemoryOoo.Flat.{
  view, reads, waits, writes, IsServed, Keeps-view, IsStored-view, used_l1, used_l2,
}

-- The entries after a write hit.
entries-written :
    (sets : ℕ) (c : CacheLevel) (a value : ℕ) (e : Entry) (r : Bool × CacheLevel)
    → IsWritten sets c a value r
    → entries sets c (a / 64) ≡ some e
    → entries sets r.1
      ≡ update (entries sets c) (a / 64) (some (put_word (get_offset a / 4) value e))
entries-written sets c a value e r w held =
    let put = put_word (get_offset a / 4) value in
    fun_ext (λ b.
      by_place (λ i. entries sets r.1 i ≡ update (entries sets c) (a / 64) (some (put e)) i)
        (a / 64) b
        (w.here
          ∙ (ap (change put) held ∙ sym (update_self (entries sets c) (a / 64) (some (put e)))))
        (λ ne. w.there b ne ∙ sym (update_ne (entries sets c) (a / 64) (some (put e)) b ne)))

-- A memory with a word stored in it.
record IsPut (m m' : MemoryOoo) (a value : ℕ) : Type 0 where
  coherent : IsCoherent m'
  stored : IsStored (shelves_of m) (shelves_of m') (a / 64) (get_offset a / 4) value

module _ (m : MemoryOoo) (a value : ℕ) (h : IsCoherent m) where
  written_l1 :
      (e : Entry)
      → entries 64 m.l1 (a / 64) ≡ some e
      → IsPut m (record m { l1 = (Cache.write m.l1 a value).1 }) a value
  written_l1 e held =
      let w = write-IsWritten 64 m.l1 a value h.l1_level in
      let s = shelves_of m in
      let stored =
        subst (λ n. IsStored s (record s { near = n }) (a / 64) (get_offset a / 4) value)
          (sym (entries-written 64 m.l1 a value e (Cache.write m.l1 a value) w held))
          (stores_near-IsStored s h.backing (a / 64) (get_offset a / 4) value e held) in
      record {
        coherent = record {
          caches = h.caches;
          l1_level = w.level;
          l2_level = h.l2_level;
          backing = stored.backing;
        };
        stored = stored;
      }

  written_l2 :
      (e : Entry)
      → entries 64 m.l1 (a / 64) ≡ none
      → entries 512 m.l2 (a / 64) ≡ some e
      → IsPut m (record m { l2 = (Cache.write m.l2 a value).1 }) a value
  written_l2 e missed held =
      let w = write-IsWritten 512 m.l2 a value h.l2_level in
      let s = shelves_of m in
      let stored =
        subst (λ n. IsStored s (record s { far = n }) (a / 64) (get_offset a / 4) value)
          (sym (entries-written 512 m.l2 a value e (Cache.write m.l2 a value) w held))
          (stores_far-IsStored s h.backing (a / 64) (get_offset a / 4) value e missed held) in
      record {
        coherent = record {
          caches = h.caches;
          l1_level = h.l1_level;
          l2_level = w.level;
          backing = stored.backing;
        };
        stored = stored;
      }

-- The word that a reader of L1 gets.
pub view_near :
    (m : MemoryOoo) (a : ℕ) {e : Entry}
    → entries 64 m.l1 (a / 64) ≡ some e
    → e.words (get_offset a / 4) ≡ view m (a / 4)
unfolding view
view_near m a held =
    let offset : a / 4 % 16 ≡ a % 64 / 4 = omega arith in
    let block : a / 4 / 16 ≡ a / 64 = omega arith in
    sym (
      ap₂ (seen (shelves_of m)) block offset
      ∙ ap
          (λ o.
            pick o (entries 512 m.l2 (a / 64)) (a % 64 / 4) (m.mem (16 * (a / 64) + a % 64 / 4)))
          held)

module _ (m : MemoryOoo) (a read_data : ℕ) (h : IsCoherent m) where
  -- A hit in L1.
  near-IsServed :
      {q : Request} (e : Entry)
      → IsPlain q
      → entries 64 m.l1 (a / 64) ≡ some e
      → IsServed m a q (access m a read_data q)
  near-IsServed e read held =
      let r = read-IsRead 64 m.l1 a h.l1_level in
      let u = used_l1 m (Cache.read m.l1 a).1 h r.level r.same in
      subst (IsServed m a reading)
        (sym (
          access-near m a read_data read h.caches
            (try_level-read 64 m.l1 a read_data h.l1_level held)))
        (record {
          coherent = u.coherent;
          step = reads (view_near m a held) (Keeps-view m _ u.keeps);
        })
  near-IsServed e (write value) held =
      let w = written_l1 m a value h e held in
      subst (IsServed m a (writing value))
        (sym (
          access-near m a read_data (write value) h.caches
            (try_level-write 64 m.l1 a value read_data h.l1_level held)))
        (record { coherent = w.coherent; step = writes (IsStored-view m _ a value w.stored) })

  -- A hit in L2.
  far-IsServed :
      {q : Request} (g : Entry)
      → IsPlain q
      → entries 64 m.l1 (a / 64) ≡ none
      → entries 512 m.l2 (a / 64) ≡ some g
      → IsServed m a q (access m a read_data q)
  far-IsServed g read missed held =
      let r = read-IsRead 512 m.l2 a h.l2_level in
      let m' = record m { l2 = (Cache.read m.l2 a).1 } in
      let u = used_l2 m (Cache.read m.l2 a).1 h r.level r.same in
      let f = fill_l1-IsMoved m' a g u.coherent missed (r.same (a / 64) ∙ held) in
      subst (IsServed m a reading)
        (sym (
          access-far m a read_data read h.caches
            (try_level-missed 64 m.l1 a read_data read h.l1_level missed)
            (try_level-read 512 m.l2 a read_data h.l2_level held)))
        (record {
          coherent = f.coherent;
          step = waits (Keeps-view m' (fill_l1 m' a) f.keeps ∙ Keeps-view m m' u.keeps);
        })
  far-IsServed g (write value) missed held =
      let w = written_l2 m a value h g missed held in
      let m' = record m { l2 = (Cache.write m.l2 a value).1 } in
      let there =
        (write-IsWritten 512 m.l2 a value h.l2_level).here
        ∙ ap (change (put_word (get_offset a / 4) value)) held in
      let f = fill_l1-IsMoved m' a (put_word (get_offset a / 4) value g) w.coherent missed there in
      subst (IsServed m a (writing value))
        (sym (
          access-far m a read_data (write value) h.caches
            (try_level-missed 64 m.l1 a read_data (write value) h.l1_level missed)
            (try_level-write 512 m.l2 a value read_data h.l2_level held)))
        (record {
          coherent = f.coherent;
          step =
              writes (Keeps-view m' (fill_l1 m' a) f.keeps ∙ IsStored-view m m' a value w.stored);
        })

  -- A miss in both.
  missed-IsServed :
      {q : Request}
      → IsPlain q
      → entries 64 m.l1 (a / 64) ≡ none
      → entries 512 m.l2 (a / 64) ≡ none
      → loses_store m a ≡ false
      → IsServed m a q (access m a read_data q)
  missed-IsServed {q} plain missed absent kept =
      let f = fill_l2-IsMoved m a h missed absent kept in
      subst (IsServed m a q)
        (sym (
          access-missed m a read_data plain h.caches
            (try_level-missed 64 m.l1 a read_data plain h.l1_level missed)
            (try_level-missed 512 m.l2 a read_data plain h.l2_level absent)))
        (record { coherent = f.coherent; step = waits (Keeps-view m (fill_l2 m a) f.keeps) })

-- A call of `access` that reads or writes, with the caches on and coherent, and that loses no store, is a
-- step of a memory without caches that holds the words in view, and leaves the caches coherent.
pub access-IsServed :
    (m : MemoryOoo) (a read_data : ℕ) (q : Request)
    → IsCoherent m
    → IsPlain q
    → loses_store m a ≡ false
    → IsServed m a q (access m a read_data q)
access-IsServed m a read_data q h plain kept = elim (Option-cases (entries 64 m.l1 (a / 64))) [
  | inr (e, held) ↦ near-IsServed m a read_data h e plain held
  | inl missed ↦ elim (Option-cases (entries 512 m.l2 (a / 64))) [
    | inr (g, held) ↦ far-IsServed m a read_data h g plain missed held
    | inl absent ↦ missed-IsServed m a read_data h plain missed absent kept
  ]
]
