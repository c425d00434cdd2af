-- ===== src/Base/Arrays.antt =====
-- Fixed arrays as functions of the index, and the entries of a circular buffer in order.
use Prim.Native.Nat.{ℕ, zero, suc, ◌+◌, ◌-◌, ◌%◌, ◌≤◌, ◌<◌}
use mathlib.Core.Path.{◌≡◌, refl, sym, ap, ap₂, ◌∙◌}
use mathlib.Core.Logic.{◌≢◌}
use mathlib.Core.List.{List, [], ◌∷◌, ◌++◌, map}
use native.Mathlib.Nat.{mod-add-mod, add-mod_right}
use native.Mathlib.Omega.{arith}
use superscalar_oooprocessor.Base.Tests.{◌==◌, if◌then◌else◌}
use superscalar_oooprocessor.Base.Lists.{length}

module _ {ℓ} {A : Type ℓ} where
  -- A store through an index.
  abbrev pub update : (ℕ → A) → ℕ → A → ℕ → A
  update f i v j = if j == i then v else f j

  pub update_self : (f : ℕ → A) (i : ℕ) (v : A) → update f i v i ≡ v
  update_self f i v = ground arith

  pub update_ne : (f : ℕ → A) (i : ℕ) (v : A) (j : ℕ) → j ≢ i → update f i v j ≡ f j
  update_ne f i v j h = ground arith

  -- `f i`, `f (i + 1)`, … , `n` of them.
  abbrev pub slots : (ℕ → A) → ℕ → ℕ → List A
  slots f i zero = []
  slots f i (suc n) = f i ∷ slots f (suc i) n

  pub length-slots : (f : ℕ → A) (i n : ℕ) → length (slots f i n) ≡ n
  length-slots f i zero = refl
  length-slots f i (suc n) = ap suc (length-slots f (suc i) n)

  pub slots-ext :
      (f g : ℕ → A) (i n : ℕ)
      → ((k : ℕ) → i ≤ k → k < i + n → f k ≡ g k)
      → slots f i n ≡ slots g i n
  slots-ext f g i zero h = refl
  slots-ext f g i (suc n) h =
      ap₂ ◌∷◌ (h i (omega arith) (omega arith))
        (slots-ext f g (suc i) n (λ k a b. h k (omega arith) (omega arith)))

  pub slots-shift :
      (f g : ℕ → A) (i n : ℕ) → ((k : ℕ) → f k ≡ g (suc k)) → slots f i n ≡ slots g (suc i) n
  slots-shift f g i zero h = refl
  slots-shift f g i (suc n) h = ap₂ ◌∷◌ (h i) (slots-shift f g (suc i) n h)

  pub slots-snoc : (f : ℕ → A) (i n : ℕ) → slots f i (suc n) ≡ slots f i n ++ (f (i + n) ∷ [])
  slots-snoc f i zero = ap (λ k. f k ∷ []) (omega arith)
  slots-snoc f i (suc n) =
      ap (λ t. f i ∷ t)
        (slots-snoc f (suc i) n ∙ ap (λ k. slots f (suc i) n ++ (f k ∷ [])) (omega arith))

pub map-slots {ℓ κ} :
    {A : Type ℓ} {B : Type κ} (g : A → B) (f : ℕ → A) (i n : ℕ)
    → map g (slots f i n) ≡ slots (λ k. g (f k)) i n
map-slots g f i zero = refl
map-slots g f i (suc n) = ap (λ t. g (f i) ∷ t) (map-slots g f (suc i) n)

-- Two positions of one lap around a buffer of `places` entries are different places.
pub mod-ne-mod :
    {places h j k : ℕ} → h < places → j < k → k < j + places → (h + j) % places ≢ (h + k) % places
mod-ne-mod {places} {h} {j} {k} hh hj hk = grind arith

-- One step past the head is the next position.
mod-suc : (places h k : ℕ) → ((h + 1) % places + k) % places ≡ (h + suc k) % places
mod-suc places h k = mod-add-mod (h + 1) places k ∙ ap (λ t. t % places) (omega arith)

-- Stepping back from the tail of `suc n` entries gives the place of the last one.
pub mod-pred :
    (places h n : ℕ) → 0 < places → ((h + suc n) % places + places - 1) % places ≡ (h + n) % places
mod-pred places h n hp =
    ap (λ t. t % places) regroup
    ∙ mod-add-mod (h + suc n) places (places - 1)
    ∙ ap (λ t. t % places) shift
    ∙ add-mod_right (h + n) places
  where
    regroup : (h + suc n) % places + places - 1 ≡ (h + suc n) % places + (places - 1)
    regroup = omega arith

    shift : h + suc n + (places - 1) ≡ h + n + places
    shift = omega arith

module _ {ℓ} {A : Type ℓ} (places : ℕ) where
  -- The `n` entries of a circular buffer from place `head` on, oldest first.
  abbrev pub window : (ℕ → A) → ℕ → ℕ → List A
  window buf head n = slots (λ k. buf ((head + k) % places)) 0 n

  pub length-window : (buf : ℕ → A) (head n : ℕ) → length (window buf head n) ≡ n
  length-window buf head n = length-slots (λ k. buf ((head + k) % places)) 0 n

  -- Writing the place after the last entry appends.
  pub window-push :
      (buf : ℕ → A) (head n : ℕ) (v : A)
      → head < places
      → n < places
      → window (update buf ((head + n) % places) v) head (suc n) ≡ window buf head n ++ (v ∷ [])
  window-push buf head n v hh hn =
      slots-snoc (λ k. update buf ((head + n) % places) v ((head + k) % places)) 0 n
      ∙ ap₂ (λ xs x. xs ++ (x ∷ []))
          (slots-ext _ (λ k. buf ((head + k) % places)) 0 n
            (λ k a b.
              update_ne buf ((head + n) % places) v ((head + k) % places)
                (mod-ne-mod hh (omega arith) (omega arith))))
          (ap (update buf ((head + n) % places) v) (ap (λ t. (head + t) % places) (omega arith))
            ∙ update_self buf ((head + n) % places) v)

  -- Moving the head on by one drops the oldest entry.
  pub window-pop :
      (buf : ℕ → A) (head n : ℕ)
      → head < places
      → window buf head (suc n) ≡ buf head ∷ window buf ((head + 1) % places) n
  window-pop buf head n hh = ap₂ ◌∷◌ (ap buf (grind arith)) (
      sym (
        slots-shift (λ k. buf (((head + 1) % places + k) % places)) (λ k. buf ((head + k) % places))
          0 n (λ k. ap buf (mod-suc places head k))))

  -- Moving the tail back by one drops the youngest entry.
  pub window-unpush :
      (buf : ℕ → A) (head n : ℕ)
      → window buf head (suc n) ≡ window buf head n ++ (buf ((head + n) % places) ∷ [])
  window-unpush buf head n =
      slots-snoc (λ k. buf ((head + k) % places)) 0 n
      ∙ ap (λ t. window buf head n ++ (buf ((head + t) % places) ∷ [])) (omega arith)

  pub window-size :
      (buf : ℕ → A) (head : ℕ) {m n : ℕ} → m ≡ n → window buf head m ≡ window buf head n
  window-size buf head e = ap (window buf head) e
