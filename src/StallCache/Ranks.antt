-- ===== src/StallCache/Ranks.antt =====
-- The replacement bits of a set as ranks: few lines have high ones, so that `replace` always finds a
-- line that is free or has the rank 0 (`Cache` of memory.cpp).
use superscalar_oooprocessor.Base.{
  ℕ, zero, suc, ◌+◌, ◌-◌, ◌≤◌, ◌<◌, ◌≡◌, ◌≢◌, refl, sym, subst, Bool, true, false, not, ◌&&◌, ◌||◌,
  ltb, leb, ◌==◌, if◌then◌else◌, Bool-cases, ==-true→eq, inl, inr, ◌⊎◌, arith,
}
use superscalar_oooprocessor.Cache.{CacheLine}

-- How many of the first `n` ways pass a test.
abbrev pub count : (ℕ → Bool) → ℕ → ℕ
count p zero = 0
count p (suc n) = (if p n then 1 else 0) + count p n

count-le : (p : ℕ → Bool) (n : ℕ) → count p n ≤ n
count-le p zero = omega arith
count-le p (suc n) = ground (arith, count-le p n)

count_mono :
    (p q : ℕ → Bool) (n : ℕ) → ((w : ℕ) → w < n → p w ≡ true → q w ≡ true) → count p n ≤ count q n
count_mono p q zero h = omega arith
count_mono p q (suc n) h =
    ground (arith, h n (omega arith), count_mono p q n (λ w l. h w (omega arith)))

-- One more way at most.
count_insert :
    (p q : ℕ → Bool) (v n : ℕ)
    → ((w : ℕ) → w < n → p w ≡ true → (w ≡ v) ⊎ (q w ≡ true))
    → count p n ≤ count q n + 1
count_insert p q v zero h = omega arith
count_insert p q v (suc n) h = elim (Bool-cases (n == v)) [
  | inl e ↦
      let rest =
        count_mono p q n
          (λ w l t. other w (λ same. absurd (ground (arith, e))) (h w (omega arith) t)) in
      ground (arith, rest)
  | inr e ↦
      let rest = count_insert p q v n (λ w l. h w (omega arith)) in
      let here : p n ≡ true → q n ≡ true =
        λ t. other n (λ same. absurd (ground (arith, e))) (h n (omega arith) t) in
      ground (arith, rest, here)
]
  where
    other : (w : ℕ) → ¬ (w ≡ v) → (w ≡ v) ⊎ (q w ≡ true) → q w ≡ true
    other w n (inl e) = absurd (n e)
    other w n (inr t) = t

count_all : (p : ℕ → Bool) (n : ℕ) → ((w : ℕ) → w < n → p w ≡ true) → count p n ≡ n
count_all p zero h = refl
count_all p (suc n) h = ground (arith, h n (omega arith), count_all p n (λ w l. h w (omega arith)))

-- The lines of at least the rank `k`, of a set as a function of the way.
abbrev pub above : (ℕ → CacheLine) → ℕ → ℕ → Bool
above s k w = (s w).valid && leb k (s w).repl_bits

abbrev pub IsRanked : (ℕ → CacheLine) → ℕ → Type 0
IsRanked s n = (k : ℕ) → count (above s k) n ≤ n - k

-- Lines that lose their place or their rank keep the order.
pub shrink-IsRanked :
    (s t : ℕ → CacheLine) (n : ℕ)
    → ((k w : ℕ) → w < n → 0 < k → above t k w ≡ true → above s k w ≡ true)
    → IsRanked s n
    → IsRanked t n
shrink-IsRanked s t n h ranked zero = omega (arith, count-le (above t 0) n)
shrink-IsRanked s t n h ranked (suc k) = omega (
  arith,
  ranked (suc k),
  count_mono (above t (suc k)) (above s (suc k)) n (λ w l. h (suc k) w l (omega arith)),
)

-- A use of the way `v`: it gets the highest rank, and those above its old one go down by one.
pub record IsUsed (s t : ℕ → CacheLine) (n v : ℕ) : Type 0 where
  pub validity : (w : ℕ) → w < n → (t w).valid ≡ (s w).valid
  pub used : (t v).repl_bits ≡ n - 1
  pub others :
      (w : ℕ)
      → w < n
      → w ≢ v
      → (t w).repl_bits ≡ (
          if (s w).valid && ltb (s v).repl_bits (s w).repl_bits
          then (s w).repl_bits - 1
          else (s w).repl_bits)

pub use-IsRanked :
    (s t : ℕ → CacheLine) (n v : ℕ)
    → v < n
    → (s v).valid ≡ true
    → IsUsed s t n v
    → IsRanked s n
    → IsRanked t n
use-IsRanked s t n v l valid u ranked k = elim (Bool-cases (leb k (s v).repl_bits)) [
  | inl low ↦
      omega (arith, ranked k, count_mono (above t k) (above s k) n (λ w lt h. keep w lt h low))
  | inr high ↦ elim (Bool-cases (ltb k n)) [
    | inl small ↦
        let bound = count_insert (above t k) (above s (suc k)) v n (λ w lt h. raise w lt h high) in
        ground (arith, ranked (suc k), bound, small)
    | inr large ↦
        let bound =
          count_mono (above t k) (above s (suc k)) n
            (λ w lt h. top w h large (raise w lt h high)) in
        ground (arith, ranked (suc k), bound)
  ]
]
  where
    keep : (w : ℕ) → w < n → above t k w ≡ true → leb k (s v).repl_bits ≡ true → above s k w ≡ true
    keep w lt h low = elim (Bool-cases (w == v)) [
      | inl e ↦
          subst (λ j. above s k j ≡ true) (sym (==-true→eq w v e)) (ground (arith, valid, low))
      | inr ne ↦ ground (arith, low, h, u.validity w lt, u.others w lt (ground (arith, ne)))
    ]

    raise :
        (w : ℕ)
        → w < n
        → above t k w ≡ true
        → leb k (s v).repl_bits ≡ false
        → (w ≡ v) ⊎ (above s (suc k) w ≡ true)
    raise w lt h high = elim (Bool-cases (w == v)) [
      | inl e ↦ inl (==-true→eq w v e)
      | inr ne ↦ inr (ground (arith, high, h, u.validity w lt, u.others w lt (ground (arith, ne))))
    ]

    top :
        (w : ℕ)
        → above t k w ≡ true
        → ltb k n ≡ false
        → (w ≡ v) ⊎ (above s (suc k) w ≡ true)
        → above s (suc k) w ≡ true
    top w h large (inr a) = a
    top w h large (inl e) =
        let at : above t k v ≡ true = subst (λ j. above t k j ≡ true) e h in
        absurd (ground (arith, at, large, u.used, l))

-- With ways and ranks, some line is free or has the rank 0.
pub ranked-free :
    (s : ℕ → CacheLine) (n : ℕ)
    → 0 < n
    → IsRanked s n
    → ((w : ℕ) → w < n → (not (s w).valid || ((s w).repl_bits == 0)) ≡ false)
    → ⊥
ranked-free s n ways ranked full =
    ground (arith, ranked 1, count_all (above s 1) n (λ w l. ground (arith, full w l)))

count_none : (p : ℕ → Bool) (n : ℕ) → ((w : ℕ) → p w ≡ false) → count p n ≡ 0
count_none p zero h = refl
count_none p (suc n) h = ground (arith, h n, count_none p n h)

-- A set without lines.
pub invalid-IsRanked : (s : ℕ → CacheLine) (n : ℕ) → ((w : ℕ) → (s w).valid ≡ false) → IsRanked s n
invalid-IsRanked s n h k = omega (arith, count_none (above s k) n (λ w. ground (arith, h w)))
