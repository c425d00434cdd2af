-- ===== src/MemoryOoo/Flat.antt =====
-- `MemoryOOO::access` of memory_ooo.cpp implements a memory without caches.
use superscalar_oooprocessor.Base.{
  ℕ, ◌/◌, ◌%◌, ◌≡◌, ◌≢◌, refl, sym, ap, ap₂, ◌∙◌, Bool, true, false, ◌==◌, update, update_self,
  update_ne, Bool-cases, ==-true→eq, ==-false→ne, inl, inr, arith, fun_ext,
}
use superscalar_oooprocessor.Cache.{CacheLevel, get_offset}
use superscalar_oooprocessor.Cache.Contents.{entries, IsLevel}
use superscalar_oooprocessor.MemoryOoo.{MemoryOoo, Request, reading, writing}
use superscalar_oooprocessor.MemoryOoo.Shelves.{seen, Keeps, by_place}
use superscalar_oooprocessor.MemoryOoo.Stores.{IsStored}
use superscalar_oooprocessor.MemoryOoo.Coherence.{shelves_of, IsCoherent, IsMoved, moved, Keeps-eq}

-- The word that the memory holds at a word index: that of L1, else that of L2, else that behind both.
unfoldable pub view : MemoryOoo → ℕ → ℕ
view m i = seen (shelves_of m) (i / 16) (i % 16)

-- One call on a memory without caches that holds `f`, and `g` afterwards. A read that is done yields
-- the word; a write puts its word in, at once or by a call before the one that is done.
pub data FlatStep (f : ℕ → ℕ) (a : ℕ) : Request → Bool → ℕ → (ℕ → ℕ) → Type 0 where
  reads : {word : ℕ} {g : ℕ → ℕ} → word ≡ f (a / 4) → g ≡ f → FlatStep f a reading true word g
  waits : {q : Request} {word : ℕ} {g : ℕ → ℕ} → g ≡ f → FlatStep f a q false word g
  writes :
      {value word : ℕ} {ready : Bool} {g : ℕ → ℕ}
      → g ≡ update f (a / 4) value
      → FlatStep f a (writing value) ready word g

-- What a call leaves.
pub record IsServed (m : MemoryOoo) (a : ℕ) (q : Request) (r : Bool × ℕ × MemoryOoo) : Type 0 where
  pub coherent : IsCoherent r.2
  pub step : FlatStep (view m) a q r.0 r.1 (view r.2)

pub Keeps-view : (m m' : MemoryOoo) → Keeps (shelves_of m) (shelves_of m') → view m' ≡ view m
unfolding view
Keeps-view m m' h = fun_ext (λ i. h.view (i / 16) (i % 16) (omega arith))

pub IsStored-view :
    (m m' : MemoryOoo) (a value : ℕ)
    → IsStored (shelves_of m) (shelves_of m') (a / 64) (get_offset a / 4) value
    → view m' ≡ update (view m) (a / 4) value
unfolding view
IsStored-view m m' a value h = fun_ext (λ i.
    by_place (λ n. view m' n ≡ update (view m) (a / 4) value n) (a / 4) i
      (ap₂ (seen (shelves_of m')) block offset
        ∙ (h.here ∙ sym (update_self (view m) (a / 4) value)))
      (λ ne. elsewhere i ne ∙ sym (update_ne (view m) (a / 4) value i ne)))
  where
    block : a / 4 / 16 ≡ a / 64
    block = omega arith

    offset : a / 4 % 16 ≡ a % 64 / 4
    offset = omega arith

    elsewhere : (i : ℕ) → i ≢ a / 4 → view m' i ≡ view m i
    elsewhere i ne = elim (Bool-cases (i / 16 == a / 64)) [
      | inr e ↦ h.there (i / 16) (i % 16) (omega arith) (==-false→ne (i / 16) (a / 64) e)
      | inl e ↦
          let same = ==-true→eq (i / 16) (a / 64) e in
          ap (λ b. seen (shelves_of m') b (i % 16)) same
          ∙ (h.beside (i % 16) (omega arith) (λ at. ne (omega (arith, at, same)))
              ∙ sym (ap (λ b. seen (shelves_of m) b (i % 16)) same))
    ]

Keeps-refl : (m : MemoryOoo) → IsCoherent m → Keeps (shelves_of m) (shelves_of m)
Keeps-refl m h = record { backing = h.backing; view = λ b j l. refl }

-- Only the replacement bits of a level changed.
pub used_l1 :
    (m : MemoryOoo) (l1' : CacheLevel)
    → IsCoherent m
    → IsLevel 64 l1'
    → ((b : ℕ) → entries 64 l1' b ≡ entries 64 m.l1 b)
    → IsMoved m (record m { l1 = l1' })
used_l1 m l1' h level same =
    moved m l1' m.l2 m.mem h level h.l2_level
      (Keeps-eq (shelves_of m) m.mem (fun_ext same) refl (Keeps-refl m h))

pub used_l2 :
    (m : MemoryOoo) (l2' : CacheLevel)
    → IsCoherent m
    → IsLevel 512 l2'
    → ((b : ℕ) → entries 512 l2' b ≡ entries 512 m.l2 b)
    → IsMoved m (record m { l2 = l2' })
used_l2 m l2' h level same =
    moved m m.l1 l2' m.mem h h.l1_level level
      (Keeps-eq (shelves_of m) m.mem refl (fun_ext same) (Keeps-refl m h))
