-- ===== src/MemoryOoo/Fetched.antt =====
-- Reads of `MemoryOOO` (memory_ooo.cpp) that are repeated until the line is in L1.
use superscalar_oooprocessor.Base.{
  ℕ, suc, ◌/◌, ◌≡◌, refl, sym, ap, subst, ◌∙◌, Bool, true, false, none, some, if◌then◌else◌,
  Option-cases, inl, inr, arith,
}
use superscalar_oooprocessor.Cache.{CacheLevel, get_offset, get_index}
use superscalar_oooprocessor.Cache
use superscalar_oooprocessor.Cache.Fills.{found, holds, looked_up}
use superscalar_oooprocessor.Cache.Contents.{Entry, entries, IsLevel}
use superscalar_oooprocessor.Cache.Accesses.{read-IsRead, entries-looked_up}
use superscalar_oooprocessor.MemoryOoo.{MemoryOoo, reading, access, fill_l1, fill_l2}
use superscalar_oooprocessor.MemoryOoo.Progress.{fill_l1-holds, fill_l2-holds}
use superscalar_oooprocessor.MemoryOoo.Shelves.{Keeps-trans}
use superscalar_oooprocessor.MemoryOoo.Walks.{
  read, try_level-missed, try_level-read, access-near, access-far, access-missed,
}
use superscalar_oooprocessor.MemoryOoo.Coherence.{shelves_of, IsCoherent, IsMoved, fill_l1-IsMoved}
use superscalar_oooprocessor.MemoryOoo.Evictions.{loses_store, fill_l2-IsMoved}
use superscalar_oooprocessor.MemoryOoo.Flat.{view, used_l1, used_l2}
use superscalar_oooprocessor.MemoryOoo.Refines.{view_near}
use superscalar_oooprocessor.NonBlockingCache.{drive_fill}

pub IsMoved-trans : (m n o : MemoryOoo) → IsMoved m n → IsMoved n o → IsMoved m o
IsMoved-trans m n o h k = record {
  coherent = k.coherent;
  keeps = Keeps-trans (shelves_of m) (shelves_of n) (shelves_of o) h.keeps k.keeps;
}

-- What a level holds has an entry.
holds-entries :
    (sets : ℕ) (c : CacheLevel) (a : ℕ)
    → IsLevel sets c
    → holds c a ≡ true
    → (e : Entry) × (entries sets c (a / 64) ≡ some e)
holds-entries sets c a h held = elim (Option-cases (looked_up c a)) [
  | inl e ↦ absurd (ground (arith, held, ap found e))
  | inr (w, e) ↦ (_, entries-looked_up sets c a h (some w) e)
]

-- A read of a block that is in L1: the word in view, and the block stays.
pub record IsHit (m : MemoryOoo) (a : ℕ) (r : Bool × ℕ × MemoryOoo) : Type 0 where
  pub ready : r.0 ≡ true
  pub word : r.1 ≡ view m (a / 4)
  pub moved : IsMoved m r.2
  pub stays : (b : ℕ) → entries 64 r.2.l1 b ≡ entries 64 m.l1 b

pub access-IsHit :
    (m : MemoryOoo) (a read_data : ℕ) (e : Entry)
    → IsCoherent m
    → entries 64 m.l1 (a / 64) ≡ some e
    → IsHit m a (access m a read_data reading)
access-IsHit m a read_data e h held =
    let r = read-IsRead 64 m.l1 a h.l1_level in
    subst (IsHit m a)
      (sym (
        access-near m a read_data read h.caches
          (try_level-read 64 m.l1 a read_data h.l1_level held)))
      (record {
        ready = refl;
        word = view_near m a held;
        moved = used_l1 m (Cache.read m.l1 a).1 h r.level r.same;
        stays = r.same;
      })

-- A read that is not done yet, with the block in L1 afterwards.
record IsNearer (sets : ℕ) (level : MemoryOoo → CacheLevel) (m : MemoryOoo) (a : ℕ)
    (r : Bool × ℕ × MemoryOoo) : Type 0 where
  waits : r.0 ≡ false
  moved : IsMoved m r.2
  entry : Entry
  held : entries sets (level r.2) (a / 64) ≡ some entry

module _ (m : MemoryOoo) (a : ℕ) (h : IsCoherent m) (missed : entries 64 m.l1 (a / 64) ≡ none) where
  access-far_IsNearer :
      (g : Entry)
      → entries 512 m.l2 (a / 64) ≡ some g
      → IsNearer 64 (λ x. x.l1) m a (access m a 0 reading)
  access-far_IsNearer g far =
      let r = read-IsRead 512 m.l2 a h.l2_level in
      let m' = record m { l2 = (Cache.read m.l2 a).1 } in
      let u = used_l2 m (Cache.read m.l2 a).1 h r.level r.same in
      let f = fill_l1-IsMoved m' a g u.coherent missed (r.same (a / 64) ∙ far) in
      let (e, held) =
        holds-entries 64 (fill_l1 m' a).l1 a f.coherent.l1_level
          (fill_l1-holds m' a h.l1_level.ways) in
      subst (IsNearer 64 (λ x. x.l1) m a)
        (sym (
          access-far m a 0 read h.caches (try_level-missed 64 m.l1 a 0 read h.l1_level missed)
            (try_level-read 512 m.l2 a 0 h.l2_level far)))
        (record {
          waits = refl;
          moved = IsMoved-trans m m' (fill_l1 m' a) u f;
          entry = e;
          held = held;
        })

  access-missed_IsNearer :
      entries 512 m.l2 (a / 64) ≡ none
      → loses_store m a ≡ false
      → IsNearer 512 (λ x. x.l2) m a (access m a 0 reading)
  access-missed_IsNearer absent kept =
      let f = fill_l2-IsMoved m a h missed absent kept in
      let (e, held) =
        holds-entries 512 (fill_l2 m a).l2 a f.coherent.l2_level
          (fill_l2-holds m a h.l2_level.ways) in
      subst (IsNearer 512 (λ x. x.l2) m a)
        (sym (
          access-missed m a 0 read h.caches (try_level-missed 64 m.l1 a 0 read h.l1_level missed)
            (try_level-missed 512 m.l2 a 0 read h.l2_level absent)))
        (record { waits = refl; moved = f; entry = e; held = held })

-- A fill that is done: nothing changed in view, and the block is in L1.
pub record IsFetched (m : MemoryOoo) (a : ℕ) (r : Bool × MemoryOoo) : Type 0 where
  pub ready : r.0 ≡ true
  pub moved : IsMoved m r.1
  pub entry : Entry
  pub held : entries 64 r.1.l1 (a / 64) ≡ some entry

drive_near :
    (n : ℕ) (m : MemoryOoo) (a : ℕ) (e : Entry)
    → IsCoherent m
    → entries 64 m.l1 (a / 64) ≡ some e
    → IsFetched m a (drive_fill (suc n) m a)
unfolding drive_fill
drive_near n m a e h held =
    let hit = access-IsHit m a 0 e h held in
    let r = access m a 0 reading in
    subst (λ b. IsFetched m a (if b then (true, r.2) else drive_fill n r.2 a)) (sym hit.ready)
      (record { ready = refl; moved = hit.moved; entry = e; held = hit.stays (a / 64) ∙ held })

-- A call that is not done is followed by the others.
drive_next :
    (n : ℕ) (m : MemoryOoo) (a : ℕ)
    → (access m a 0 reading).0 ≡ false
    → IsMoved m (access m a 0 reading).2
    → IsFetched (access m a 0 reading).2 a (drive_fill n (access m a 0 reading).2 a)
    → IsFetched m a (drive_fill (suc n) m a)
unfolding drive_fill
drive_next n m a waits moved f =
    let r = access m a 0 reading in
    subst (λ b. IsFetched m a (if b then (true, r.2) else drive_fill n r.2 a)) (sym waits)
      (record {
        ready = f.ready;
        moved = IsMoved-trans m r.2 (drive_fill n r.2 a).1 moved f.moved;
        entry = f.entry;
        held = f.held;
      })

drive_far :
    (n : ℕ) (m : MemoryOoo) (a : ℕ) (g : Entry)
    → IsCoherent m
    → entries 512 m.l2 (a / 64) ≡ some g
    → IsFetched m a (drive_fill (suc (suc n)) m a)
drive_far n m a g h far = elim (Option-cases (entries 64 m.l1 (a / 64))) [
  | inr (e, held) ↦ drive_near (suc n) m a e h held
  | inl missed ↦
      let near = access-far_IsNearer m a h missed g far in
      drive_next (suc n) m a near.waits near.moved
        (drive_near n (access m a 0 reading).2 a near.entry near.moved.coherent near.held)
]

-- Three walks of a read bring the block into L1, if no store is lost, and change nothing in view.
pub drive_fill-IsFetched :
    (n : ℕ) (m : MemoryOoo) (a : ℕ)
    → IsCoherent m
    → loses_store m a ≡ false
    → IsFetched m a (drive_fill (suc (suc (suc n))) m a)
drive_fill-IsFetched n m a h kept = elim (Option-cases (entries 64 m.l1 (a / 64))) [
  | inr (e, held) ↦ drive_near (suc (suc n)) m a e h held
  | inl missed ↦ elim (Option-cases (entries 512 m.l2 (a / 64))) [
    | inr (g, far) ↦ drive_far (suc n) m a g h far
    | inl absent ↦
        let near = access-missed_IsNearer m a h missed absent kept in
        drive_next (suc (suc n)) m a near.waits near.moved
          (drive_far n (access m a 0 reading).2 a near.entry near.moved.coherent near.held)
  ]
]
