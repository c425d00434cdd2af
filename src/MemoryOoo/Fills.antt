-- ===== src/MemoryOoo/Fills.antt =====
-- The moves that bring a block nearer or take it out of the caches, and the stores (the abstract view
-- of `MemoryOOO` of memory_ooo.cpp).
use mathlib.Core.Option.{some-injective}
use superscalar_oooprocessor.Base.{
  ℕ, ◌+◌, ◌-◌, ◌*◌, ◌/◌, ◌%◌, ◌<◌, ◌≡◌, ◌≢◌, refl, sym, ap, ap₂, subst, ◌∙◌, false, none, some,
  if◌then◌else◌, update, update_self, update_ne, Bool-cases, inl, inr, arith, if-both,
}
use superscalar_oooprocessor.Cache.Contents.{Entry}
use superscalar_oooprocessor.MemoryOoo.{store_words}
use superscalar_oooprocessor.MemoryOoo.Shelves.{
  Shelves, pick, seen, AgreeOn, IsBacked, Keeps, by_place, none-ne-some,
}

-- A far block comes near.
abbrev pub fills_near : Shelves → ℕ → Entry → Shelves
fills_near s k x = record s { near = update s.near k (some x) }

-- A far block leaves, for the memory if it is dirty.
abbrev pub drops_far : Shelves → ℕ → Entry → ℕ → Shelves
drops_far s k g address = record s {
  far = update s.far k none;
  mem = if g.dirty then store_words s.mem address g.words else s.mem;
}

-- A block comes from the memory.
abbrev pub fills_far : Shelves → ℕ → Entry → Shelves
fills_far s k x = record s { far = update s.far k (some x) }

store_words-here :
    (mem words : ℕ → ℕ) (address j : ℕ)
    → j < 16
    → store_words mem address words (16 * (address / 64) + j) ≡ words j
store_words-here mem words address j l =
    let base : (address - address % 64) / 4 ≡ 16 * (address / 64) = omega arith in
    rw base (ground (arith, ap words (offset (address / 64) j)))
  where
    offset : (b j : ℕ) → 16 * b + j - 16 * b ≡ j
    offset b j = omega arith

store_words-there :
    (mem words : ℕ → ℕ) (address b j : ℕ)
    → b ≢ address / 64
    → j < 16
    → store_words mem address words (16 * b + j) ≡ mem (16 * b + j)
store_words-there mem words address b j ne l =
    let base : (address - address % 64) / 4 ≡ 16 * (address / 64) = omega arith in
    rw base (ground arith)

module _ (s : Shelves) (h : IsBacked s) (k : ℕ) where
  pub fills_near-Keeps :
      (x g : Entry)
      → s.near k ≡ none
      → s.far k ≡ some g
      → AgreeOn x.words g.words
      → Keeps s (fills_near s k x)
  fills_near-Keeps x g missed far agree = record {
    backing = record {
      included = λ b e.
          by_place
            (λ i.
              update s.near k (some x) i ≡ some e
              → (y : Entry) × (s.far i ≡ some y) × (e.dirty ≡ false → AgreeOn e.words y.words))
            k b
            (λ q. (
              g,
              far,
              λ _.
                  subst (λ (o : Entry). AgreeOn o.words g.words)
                    (some-injective _ _ (sym (update_self s.near k (some x)) ∙ q)) agree,
            ))
            (λ ne q. h.included b e (sym (update_ne s.near k (some x) b ne) ∙ q));
      backed = h.backed;
    };
    view = λ b j l.
        by_place (λ i. seen (fills_near s k x) i j ≡ seen s i j) k b
          (ap (λ o. pick o (s.far k) j (s.mem (16 * k + j))) (update_self s.near k (some x))
            ∙ (agree j l ∙ sym (ap₂ (λ o p. pick o p j (s.mem (16 * k + j))) missed far)))
          (λ ne.
            ap (λ o. pick o (s.far b) j (s.mem (16 * b + j))) (update_ne s.near k (some x) b ne));
  }

  pub fills_far-Keeps :
      (x : Entry)
      → s.near k ≡ none
      → s.far k ≡ none
      → AgreeOn x.words (λ j. s.mem (16 * k + j))
      → Keeps s (fills_far s k x)
  fills_far-Keeps x missed far agree = record {
    backing = record {
      included = λ b e.
          by_place
            (λ i.
              s.near i ≡ some e
              → (y : Entry) × (update s.far k (some x) i ≡ some y)
                × (e.dirty ≡ false → AgreeOn e.words y.words))
            k b (λ q. absurd (none-ne-some missed q))
            (λ ne q.
              let (y, held, same) = h.included b e q in
              (y, update_ne s.far k (some x) b ne ∙ held, same));
      backed = λ b g.
          by_place
            (λ i.
              update s.far k (some x) i ≡ some g
              → g.dirty ≡ false
              → AgreeOn g.words (λ j. s.mem (16 * i + j)))
            k b
            (λ q d.
              subst (λ (o : Entry). AgreeOn o.words (λ j. s.mem (16 * k + j)))
                (some-injective _ _ (sym (update_self s.far k (some x)) ∙ q)) agree)
            (λ ne q d. h.backed b g (sym (update_ne s.far k (some x) b ne) ∙ q) d);
    };
    view = λ b j l.
        by_place (λ i. seen (fills_far s k x) i j ≡ seen s i j) k b
          (ap₂ (λ o p. pick o p j (s.mem (16 * k + j))) missed (update_self s.far k (some x))
            ∙ (agree j l ∙ sym (ap₂ (λ o p. pick o p j (s.mem (16 * k + j))) missed far)))
          (λ ne.
            ap (λ p. pick (s.near b) p j (s.mem (16 * b + j))) (update_ne s.far k (some x) b ne));
  }

-- Only its own words change in the memory when a block is dropped.
pub dropped_there :
    (s : Shelves) (g : Entry) (address b j : ℕ)
    → b ≢ address / 64
    → j < 16
    → (if g.dirty then store_words s.mem address g.words else s.mem) (16 * b + j)
      ≡ s.mem (16 * b + j)
dropped_there s g address b j ne l =
    if-both (λ (f : ℕ → ℕ). f (16 * b + j) ≡ s.mem (16 * b + j)) g.dirty
      (store_words-there s.mem g.words address b j ne l) refl

-- Its own words are there afterwards.
pub dropped_here :
    (s : Shelves) (g : Entry) (address : ℕ)
    → IsBacked s
    → s.far (address / 64) ≡ some g
    → AgreeOn
        (λ j.
          (if g.dirty then store_words s.mem address g.words else s.mem) (16 * (address / 64) + j))
        g.words
dropped_here s g address h far j l = elim (Bool-cases g.dirty) [
  | inl e ↦ rw e (store_words-here s.mem g.words address j l)
  | inr e ↦ rw e (sym (h.backed (address / 64) g far e j l))
]

pub drops_far-Keeps :
    (s : Shelves) (address : ℕ) (g : Entry)
    → IsBacked s
    → s.near (address / 64) ≡ none
    → s.far (address / 64) ≡ some g
    → Keeps s (drops_far s (address / 64) g address)
drops_far-Keeps s address g h missed far =
    let k = address / 64 in
    let t = drops_far s k g address in
    record {
      backing = record {
        included = λ b e.
            by_place
              (λ i.
                s.near i ≡ some e
                → (y : Entry) × (update s.far k none i ≡ some y)
                  × (e.dirty ≡ false → AgreeOn e.words y.words))
              k b (λ q. absurd (none-ne-some missed q))
              (λ ne q.
                let (y, held, same) = h.included b e q in
                (y, update_ne s.far k none b ne ∙ held, same));
        backed = λ b y.
            by_place
              (λ i.
                update s.far k none i ≡ some y
                → y.dirty ≡ false
                → AgreeOn y.words (λ j. t.mem (16 * i + j)))
              k b (λ q d. absurd (none-ne-some (update_self s.far k none) q))
              (λ ne q d j l.
                h.backed b y (sym (update_ne s.far k none b ne) ∙ q) d j l
                ∙ sym (dropped_there s g address b j ne l));
      };
      view = λ b j l.
          by_place (λ i. seen t i j ≡ seen s i j) k b
            (ap₂ (λ o p. pick o p j (t.mem (16 * k + j))) missed (update_self s.far k none)
              ∙ (dropped_here s g address h far j l
                  ∙ sym (ap₂ (λ o p. pick o p j (s.mem (16 * k + j))) missed far)))
            (λ ne.
              ap₂ (λ p w. pick (s.near b) p j w) (update_ne s.far k none b ne)
                (dropped_there s g address b j ne l));
    }
