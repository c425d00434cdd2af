-- ===== src/ReorderBuffer/Renaming.antt =====
-- What the entries in flight say about the register mapping: the speculative mapping is the committed
-- one after the renamings of all entries, and every physical register is in one place.
use superscalar_oooprocessor.Base.{
  ℕ, zero, suc, ◌+◌, ◌≤◌, ◌<◌, ◌≡◌, refl, ap, subst, ◌∙◌, Bool, true, not, ◌&&◌, List, [], ◌∷◌,
  ◌++◌, ◌==◌, if◌then◌else◌, arith, Bool-cases, ==-true→eq, update, inl, inr,
}
use superscalar_oooprocessor.Config.{num_architectural_registers}

-- The part of a reorder buffer entry that concerns the mapping.
pub record Renaming : Type 0 where
  pub arch : ℕ
  pub new : ℕ
  pub old : ℕ

-- Entries that write no register have equal old and new registers.
abbrev pub writes : Renaming → Bool
writes e = not (e.new == e.old)

abbrev pub one_if : Bool → ℕ
one_if b = if b then 1 else 0

-- How often a register stands in a list, as a destination in flight, and in a mapping of the first
-- `n` architectural registers.
unfoldable pub occurs : ℕ → List ℕ → ℕ
occurs x [] = 0
occurs x (y ∷ ys) = one_if (y == x) + occurs x ys

unfoldable pub held : ℕ → List Renaming → ℕ
held x [] = 0
held x (e ∷ es) = one_if (writes e && (e.new == x)) + held x es

unfoldable pub tally : (ℕ → ℕ) → ℕ → ℕ → ℕ
tally m zero x = 0
tally m (suc n) x = one_if (m n == x) + tally m n x

abbrev pub after : (ℕ → ℕ) → Renaming → ℕ → ℕ
after m e = if writes e then update m e.arch e.new else m

abbrev pub before : (ℕ → ℕ) → Renaming → ℕ → ℕ
before m e = if writes e then update m e.arch e.old else m

-- An entry replaces what the mapping held for its register.
abbrev pub Link : (ℕ → ℕ) → Renaming → Type 0
Link m e = writes e ≡ true → (e.arch < num_architectural_registers) × (e.old ≡ m e.arch)

-- From the mapping `m` the entries lead, one after the other, to the mapping `r`.
abbrev pub Chain : (ℕ → ℕ) → List Renaming → (ℕ → ℕ) → Type 0
Chain m [] r = (a : ℕ) → r a ≡ m a
Chain m (e ∷ es) r = Link m e × Chain (after m e) es r

pub occurs-append : (x : ℕ) (xs ys : List ℕ) → occurs x (xs ++ ys) ≡ occurs x xs + occurs x ys
unfolding occurs
occurs-append x [] ys = omega arith
occurs-append x (y ∷ xs) ys = omega (arith, occurs-append x xs ys)

pub held-append : (x : ℕ) (xs ys : List Renaming) → held x (xs ++ ys) ≡ held x xs + held x ys
unfolding held
held-append x [] ys = omega arith
held-append x (y ∷ xs) ys = omega (arith, held-append x xs ys)

tally-update_out : (m : ℕ → ℕ) (a v n x : ℕ) → n ≤ a → tally (update m a v) n x ≡ tally m n x
unfolding tally
tally-update_out m a v zero x h = refl
tally-update_out m a v (suc n) x h = ground (arith, tally-update_out m a v n x)

-- One write to a mapping trades one register for another.
pub tally-update :
    (m : ℕ → ℕ) (a v n x : ℕ)
    → a < n
    → tally (update m a v) n x + one_if (m a == x) ≡ tally m n x + one_if (v == x)
unfolding tally
tally-update m a v zero x h = elim h [ ]
tally-update m a v (suc n) x h = elim (Bool-cases (n == a)) [
  | inl e ↦ ground (arith, tally-update_out m a v n x)
  | inr ne ↦ ground (arith, tally-update m a v n x)
]

tally_self : (m : ℕ → ℕ) (a n : ℕ) → a < n → 1 ≤ tally m n (m a)
unfolding tally
tally_self m a zero h = elim h [ ]
tally_self m a (suc n) h = elim (Bool-cases (n == a)) [
  | inl e ↦ ground arith
  | inr ne ↦ ground (arith, tally_self m a n)
]

after-pointwise : (r m : ℕ → ℕ) (e : Renaming) (a : ℕ) → r a ≡ m a → after r e a ≡ after m e a
after-pointwise r m e a h = ground arith

-- Undoing the last renaming gives back the mapping before it.
unwrite : (m r : ℕ → ℕ) (e : Renaming) (a : ℕ) → Link m e → r a ≡ after m e a → before r e a ≡ m a
unwrite m r e a l h = elim (Bool-cases (writes e)) [
  | inl w ↦ elim (Bool-cases (a == e.arch)) [
    | inl at ↦ ground (arith, (l w).1, ap m (==-true→eq a e.arch at))
    | inr off ↦ ground arith
  ]
  | inr q ↦ ground arith
]

pub Chain-snoc :
    (m : ℕ → ℕ) (es : List Renaming) (e : Renaming) (r : ℕ → ℕ)
    → Chain m es r
    → Link r e
    → Chain m (es ++ (e ∷ [])) (after r e)
Chain-snoc m [] e r c l = (λ w. ((l w).0, (l w).1 ∙ c e.arch), λ a. after-pointwise r m e a (c a))
Chain-snoc m (x ∷ es) e r c l = (c.0, Chain-snoc (after m x) es e r c.1 l)

pub Chain-unsnoc :
    (m : ℕ → ℕ) (es : List Renaming) (e : Renaming) (r : ℕ → ℕ)
    → Chain m (es ++ (e ∷ [])) r
    → Chain m es (before r e)
Chain-unsnoc m [] e r c = λ a. unwrite m r e a c.0 (c.1 a)
Chain-unsnoc m (x ∷ es) e r c = (c.0, Chain-unsnoc (after m x) es e r c.1)

-- Every mapped register is a destination in flight or is mapped by the committed mapping.
pub Chain-held :
    (m : ℕ → ℕ) (es : List Renaming) (r : ℕ → ℕ) (a : ℕ)
    → Chain m es r
    → a < num_architectural_registers
    → 1 ≤ held (r a) es + tally m num_architectural_registers (r a)
unfolding held
Chain-held m [] r a c h = omega (
  arith,
  tally_self m a num_architectural_registers h,
  ap (tally m num_architectural_registers) (c a),
)
Chain-held m (e ∷ es) r a c h = elim (Bool-cases (writes e)) [
  | inl w ↦
      (let earlier =
          subst (λ t. Chain t es r) (ap (λ b. if b then update m e.arch e.new else m) w) c.1 in
        ground (
          arith,
          Chain-held (update m e.arch e.new) es r a earlier h,
          tally-update m e.arch e.new num_architectural_registers (r a) (c.0 w).0,
        ))
  | inr q ↦
      (let earlier =
          subst (λ t. Chain t es r) (ap (λ b. if b then update m e.arch e.new else m) q) c.1 in
        ground (arith, Chain-held m es r a earlier h))
]
