-- ===== src/MemoryOoo/Stores.antt =====
-- A word that is put into a block, near or far (the abstract view of `MemoryOOO` of memory_ooo.cpp).
use superscalar_oooprocessor.Base.{
  ℕ, ◌+◌, ◌*◌, ◌<◌, ◌≡◌, ◌≢◌, sym, ap, ap₂, ◌∙◌, false, none, some, update, update_self, update_ne,
  arith,
}
use superscalar_oooprocessor.Cache.Contents.{Entry}
use superscalar_oooprocessor.Cache.Accesses.{put_word}
use superscalar_oooprocessor.MemoryOoo.Shelves.{
  Shelves, pick, seen, AgreeOn, IsBacked, Keeps, by_place, none-ne-some,
}

-- From `s` to `t` the word `j` of the block `k` became `value`, and no other word changed.
pub record IsStored (s t : Shelves) (k j value : ℕ) : Type 0 where
  pub backing : IsBacked t
  pub here : seen t k j ≡ value
  pub beside : (i : ℕ) → i < 16 → i ≢ j → seen t k i ≡ seen s k i
  pub there : (b i : ℕ) → i < 16 → b ≢ k → seen t b i ≡ seen s b i

pub IsStored-Keeps :
    (s t u : Shelves) (k j value : ℕ)
    → j < 16
    → IsStored s t k j value
    → Keeps t u
    → IsStored s u k j value
IsStored-Keeps s t u k j value l h m = record {
  backing = m.backing;
  here = m.view k j l ∙ h.here;
  beside = λ i li ne. m.view k i li ∙ h.beside i li ne;
  there = λ b i li ne. m.view b i li ∙ h.there b i li ne;
}

module _ (s : Shelves) (h : IsBacked s) (k j value : ℕ) (x : Entry) where
  abbrev pub stores_near : Shelves
  stores_near = record s { near = update s.near k (some (put_word j value x)) }

  abbrev pub stores_far : Shelves
  stores_far = record s { far = update s.far k (some (put_word j value x)) }

  pub stores_near-IsStored : s.near k ≡ some x → IsStored s stores_near k j value
  stores_near-IsStored at =
      let y = put_word j value x in
      let now = update_self s.near k (some y) in
      let front : (i : ℕ) → seen stores_near k i ≡ y.words i =
        λ i. ap (λ o. pick o (s.far k) i (s.mem (16 * k + i))) now in
      record {
        backing = record {
          included = λ b e.
              by_place
                (λ i.
                  update s.near k (some y) i ≡ some e
                  → (g : Entry) × (s.far i ≡ some g) × (e.dirty ≡ false → AgreeOn e.words g.words))
                k b
                (λ q.
                  let (g, far, _) = h.included k x at in
                  (g, far, λ d. absurd (ground (arith, d, sym now ∙ q))))
                (λ ne q. h.included b e (sym (update_ne s.near k (some y) b ne) ∙ q));
          backed = h.backed;
        };
        here = front j ∙ update_self x.words j value;
        beside = λ i l ne.
            front i
            ∙ (update_ne x.words j value i ne
                ∙ sym (ap (λ o. pick o (s.far k) i (s.mem (16 * k + i))) at));
        there = λ b i l ne.
            ap (λ o. pick o (s.far b) i (s.mem (16 * b + i))) (update_ne s.near k (some y) b ne);
      }

  pub stores_far-IsStored : s.near k ≡ none → s.far k ≡ some x → IsStored s stores_far k j value
  stores_far-IsStored missed at =
      let y = put_word j value x in
      let now = update_self s.far k (some y) in
      let front : (i : ℕ) → seen stores_far k i ≡ y.words i =
        λ i. ap₂ (λ o p. pick o p i (s.mem (16 * k + i))) missed now in
      record {
        backing = record {
          included = λ b e.
              by_place
                (λ i.
                  s.near i ≡ some e
                  → (g : Entry) × (update s.far k (some y) i ≡ some g)
                    × (e.dirty ≡ false → AgreeOn e.words g.words))
                k b (λ q. absurd (none-ne-some missed q))
                (λ ne q.
                  let (g, far, same) = h.included b e q in
                  (g, update_ne s.far k (some y) b ne ∙ far, same));
          backed = λ b g.
              by_place
                (λ i.
                  update s.far k (some y) i ≡ some g
                  → g.dirty ≡ false
                  → AgreeOn g.words (λ j. s.mem (16 * i + j)))
                k b (λ q d. absurd (ground (arith, d, sym now ∙ q)))
                (λ ne q d. h.backed b g (sym (update_ne s.far k (some y) b ne) ∙ q) d);
        };
        here = front j ∙ update_self x.words j value;
        beside = λ i l ne.
            front i
            ∙ (update_ne x.words j value i ne
                ∙ sym (ap₂ (λ o p. pick o p i (s.mem (16 * k + i))) missed at));
        there = λ b i l ne.
            ap (λ p. pick (s.near b) p i (s.mem (16 * b + i))) (update_ne s.far k (some y) b ne);
      }
