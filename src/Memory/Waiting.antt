-- ===== src/Memory/Waiting.antt =====
-- A repeated read of `Memory` ends in a hit, whatever the caches hold.
use superscalar_oooprocessor.Base.{
  ℕ, zero, suc, ◌+◌, ◌-◌, ◌≤◌, ◌≡◌, refl, subst, Bool, true, false, if◌then◌else◌, inl, inr, ◌⊎◌,
  arith, if-both,
}
use superscalar_oooprocessor.MemoryOoo.{reading}
use superscalar_oooprocessor.StallCache.Replaced.{holds}
use superscalar_oooprocessor.Memory.{Memory, access}
use superscalar_oooprocessor.Memory.Nearer.{IsReady, access-IsNearer}

-- The caller that stalls: whether one of `n` reads, one after the other, is done.
unfoldable pub answered_within : ℕ → Memory → ℕ → Bool
answered_within zero m address = false
answered_within (suc n) m address =
    let (ready, _, m') = access m address 0 reading in
    let rest = answered_within n m' address in if ready then true else rest

answered-next :
    (n : ℕ) (m : Memory) (address : ℕ)
    → ((access m address 0 reading).0 ≡ true)
      ⊎ (answered_within n (access m address 0 reading).2 address ≡ true)
    → answered_within (suc n) m address ≡ true
unfolding answered_within
answered-next n m address (inl e) = rw e refl
answered-next n m address (inr e) =
    if-both (λ (b : Bool). b ≡ true) (access m address 0 reading).0 refl e

-- With the line in both levels, the countdown of L1 is what is left.
held-answered :
    (n : ℕ) (m : Memory) (address p1 p2 : ℕ)
    → IsReady m p1 p2
    → holds m.l1.level address ≡ true
    → holds m.l2.level address ≡ true
    → m.l1.miss_countdown ≤ n
    → answered_within (suc n) m address ≡ true
held-answered zero m address p1 p2 ready l1 l2 c =
    answered-next zero m address (elim (access-IsNearer m address p1 p2 ready) [
      | inl e ↦ inl e
      | inr near ↦ absurd (omega (arith, near.l1_waits l1))
    ])
held-answered (suc n) m address p1 p2 ready l1 l2 c =
    answered-next (suc n) m address (elim (access-IsNearer m address p1 p2 ready) [
      | inl e ↦ inl e
      | inr near ↦ inr (
          held-answered n (access m address 0 reading).2 address p1 p2 near.ready
            (near.l1_stays l2 l1) near.l2_holds (omega (arith, near.l1_waits l1)))
    ])

-- Just after the line came into L1, its penalty is what is left.
filled-answered :
    (n : ℕ) (m : Memory) (address p1 p2 : ℕ)
    → IsReady m p1 p2
    → holds m.l1.level address ≡ true
    → holds m.l2.level address ≡ true
    → answered_within (n + p1) m address ≡ true
filled-answered n m address p1 p2 ready l1 l2 =
    let below = ready.l1_timed.countdown in
    subst (λ k. answered_within k m address ≡ true) (omega (arith, below))
      (held-answered (n + (p1 - 1)) m address p1 p2 ready l1 l2 (omega (arith, below)))

-- With the line in L2, its countdown comes first.
near-answered :
    (n : ℕ) (m : Memory) (address p1 p2 : ℕ)
    → IsReady m p1 p2
    → holds m.l2.level address ≡ true
    → m.l2.miss_countdown ≤ n
    → answered_within (suc (n + p1)) m address ≡ true
near-answered zero m address p1 p2 ready l2 c =
    let m' = (access m address 0 reading).2 in
    answered-next (zero + p1) m address (elim (access-IsNearer m address p1 p2 ready) [
      | inl e ↦ inl e
      | inr near ↦ elim (near.l2_steps l2) [
        | inl l1 ↦ inr (filled-answered zero m' address p1 p2 near.ready l1 near.l2_holds)
        | inr e ↦ absurd (omega (arith, e))
      ]
    ])
near-answered (suc n) m address p1 p2 ready l2 c =
    let m' = (access m address 0 reading).2 in
    answered-next (suc n + p1) m address (elim (access-IsNearer m address p1 p2 ready) [
      | inl e ↦ inl e
      | inr near ↦ elim (near.l2_steps l2) [
        | inl l1 ↦ inr (filled-answered (suc n) m' address p1 p2 near.ready l1 near.l2_holds)
        | inr e ↦ inr (
            subst (λ k. answered_within k m' address ≡ true) (omega arith)
              (near-answered n m' address p1 p2 near.ready near.l2_holds (omega (arith, e))))
      ]
    ])

-- A read that is repeated is answered within the two penalties and one more call.
pub read-answered :
    (m : Memory) (address p1 p2 : ℕ)
    → IsReady m p1 p2
    → answered_within (suc (p2 + p1)) m address ≡ true
read-answered m address p1 p2 ready =
    answered-next (p2 + p1) m address (elim (access-IsNearer m address p1 p2 ready) [
      | inl e ↦ inl e
      | inr near ↦
          let below = near.ready.l2_timed.countdown in
          inr (
            subst (λ k. answered_within k (access m address 0 reading).2 address ≡ true)
              (omega (arith, below))
              (near-answered (p2 - 1) (access m address 0 reading).2 address p1 p2 near.ready
                near.l2_holds (omega (arith, below))))
    ])
