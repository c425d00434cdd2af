-- ===== src/MemoryOoo/Shelves.antt =====
-- Two levels of blocks over the words of a memory, and the moves between them that do not change what
-- a reader sees (the abstract view of `MemoryOOO` of memory_ooo.cpp).
use superscalar_oooprocessor.Base.{
  ℕ, ◌+◌, ◌*◌, ◌<◌, ◌≡◌, ◌≢◌, refl, sym, ap, ap₂, subst, ◌∙◌, false, Option, none, some, ◌==◌,
  update, update_self, update_ne, Bool-cases, ==-true→eq, ==-false→ne, inl, inr, arith,
}
use superscalar_oooprocessor.Cache.Contents.{Entry}
use superscalar_oooprocessor.Cache.Moves.{put_words}

-- The blocks of the near level and of the far one, and the words behind them.
pub record Shelves : Type 0 where
  pub near : ℕ → Option Entry
  pub far : ℕ → Option Entry
  pub mem : ℕ → ℕ

-- A reader looks at the near level, then at the far one, then at the memory.
abbrev pub pick : Option Entry → Option Entry → ℕ → ℕ → ℕ
pick (some e) o j word = e.words j
pick none (some g) j word = g.words j
pick none none j word = word

abbrev pub seen : Shelves → ℕ → ℕ → ℕ
seen s b j = pick (s.near b) (s.far b) j (s.mem (16 * b + j))

abbrev pub AgreeOn : (ℕ → ℕ) → (ℕ → ℕ) → Type 0
AgreeOn f g = (j : ℕ) → j < 16 → f j ≡ g j

-- Each near block is a far one too; where it is not dirty, with the same words. A far block that is
-- not dirty has the words of the memory.
pub record IsBacked (s : Shelves) : Type 0 where
  pub included :
      (b : ℕ) (e : Entry)
      → s.near b ≡ some e
      → (g : Entry) × (s.far b ≡ some g) × (e.dirty ≡ false → AgreeOn e.words g.words)
  pub backed :
      (b : ℕ) (g : Entry)
      → s.far b ≡ some g
      → g.dirty ≡ false
      → AgreeOn g.words (λ j. s.mem (16 * b + j))

-- The move from `s` to `t` is invisible.
pub record Keeps (s t : Shelves) : Type 0 where
  pub backing : IsBacked t
  pub view : (b j : ℕ) → j < 16 → seen t b j ≡ seen s b j

pub Keeps-trans : (s t u : Shelves) → Keeps s t → Keeps t u → Keeps s u
Keeps-trans s t u h k = record { backing = k.backing; view = λ b j l. k.view b j l ∙ h.view b j l }

-- What holds at the place that was written and at the others holds everywhere.
pub by_place {ℓ} : (P : ℕ → Type ℓ) (k b : ℕ) → P k → (b ≢ k → P b) → P b
by_place P k b here there = elim (Bool-cases (b == k)) [
  | inl e ↦ subst P (sym (==-true→eq b k e)) here
  | inr e ↦ there (==-false→ne b k e)
]

pub none-ne-some : {e : Entry} {o : Option Entry} → o ≡ none → o ≡ some e → ⊥
none-ne-some p q = absurd (ground (arith, p, q))

-- The dirty block `k` goes from the near level to the far one.
abbrev pub writes_back : Shelves → ℕ → Entry → Entry → Shelves
writes_back s k e g = record s {
  near = update s.near k none;
  far = update s.far k (some (put_words e.words g));
}

-- A near block that is not dirty can be dropped.
abbrev pub drops_near : Shelves → ℕ → Shelves
drops_near s k = record s { near = update s.near k none }

drops_near-near : (s : Shelves) (k : ℕ) → (drops_near s k).near k ≡ none
drops_near-near s k = update_self s.near k none

module _ (s : Shelves) (h : IsBacked s) (k : ℕ) where
  pub drops_near-Keeps :
      ((e : Entry) → s.near k ≡ some e → e.dirty ≡ false) → Keeps s (drops_near s k)
  drops_near-Keeps clean = record {
    backing = record {
      included = λ b e.
          by_place
            (λ i.
              update s.near k none i ≡ some e
              → (g : Entry) × (s.far i ≡ some g) × (e.dirty ≡ false → AgreeOn e.words g.words))
            k b (λ at. absurd (none-ne-some (update_self s.near k none) at))
            (λ ne at. h.included b e (sym (update_ne s.near k none b ne) ∙ at));
      backed = h.backed;
    };
    view = λ b j l.
        by_place (λ i. seen (drops_near s k) i j ≡ seen s i j) k b
          (ap (λ o. pick o (s.far k) j (s.mem (16 * k + j))) (update_self s.near k none)
            ∙ uncovered (s.near k) refl j l)
          (λ ne. ap (λ o. pick o (s.far b) j (s.mem (16 * b + j))) (update_ne s.near k none b ne));
  }
    where
      uncovered :
          (o : Option Entry)
          → s.near k ≡ o
          → (j : ℕ) → j < 16
          → pick none (s.far k) j (s.mem (16 * k + j))
            ≡ pick (s.near k) (s.far k) j (s.mem (16 * k + j))
      uncovered none at j l = sym (ap (λ o. pick o (s.far k) j (s.mem (16 * k + j))) at)
      uncovered (some e) at j l =
          let (g, far, same) = h.included k e at in
          ap (λ o. pick none o j (s.mem (16 * k + j))) far
          ∙ (sym (same (clean e at) j l)
              ∙ sym (ap (λ o. pick o (s.far k) j (s.mem (16 * k + j))) at))

  -- A near block can be written back.
  pub writes_back-Keeps :
      (e g : Entry) → s.near k ≡ some e → s.far k ≡ some g → Keeps s (writes_back s k e g)
  writes_back-Keeps e g at far = record {
    backing = record {
      included = λ b x.
          by_place
            (λ i.
              update s.near k none i ≡ some x
              → (y : Entry) × (update s.far k (some (put_words e.words g)) i ≡ some y)
                × (x.dirty ≡ false → AgreeOn x.words y.words))
            k b (λ q. absurd (none-ne-some (update_self s.near k none) q))
            (λ ne q.
              let (y, held, same) = h.included b x (sym (update_ne s.near k none b ne) ∙ q) in
              (y, update_ne s.far k (some (put_words e.words g)) b ne ∙ held, same));
      backed = λ b x.
          by_place
            (λ i.
              update s.far k (some (put_words e.words g)) i ≡ some x
              → x.dirty ≡ false
              → AgreeOn x.words (λ j. s.mem (16 * i + j)))
            k b
            (λ q d.
              absurd
                (ground (arith, d, sym (update_self s.far k (some (put_words e.words g))) ∙ q)))
            (λ ne q d.
              h.backed b x (sym (update_ne s.far k (some (put_words e.words g)) b ne) ∙ q) d);
    };
    view = λ b j l.
        by_place (λ i. seen (writes_back s k e g) i j ≡ seen s i j) k b
          (ap₂ (λ o p. pick o p j (s.mem (16 * k + j))) (update_self s.near k none)
              (update_self s.far k (some (put_words e.words g)))
            ∙ sym (ap (λ o. pick o (s.far k) j (s.mem (16 * k + j))) at))
          (λ ne.
            ap₂ (λ o p. pick o p j (s.mem (16 * b + j))) (update_ne s.near k none b ne)
              (update_ne s.far k (some (put_words e.words g)) b ne));
  }
