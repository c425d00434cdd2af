-- ===== src/StallCache/Reads.antt =====
-- `read` of a stalling cache: when it hits, and what it leaves.
use superscalar_oooprocessor.Base.{
  ℕ, ◌+◌, ◌/◌, ◌<◌, ◌≡◌, refl, ◌∙◌, true, false, ◌&&◌, Option, none, some, ◌==◌, arith, if-cases,
}
use superscalar_oooprocessor.Cache.{CacheLevel, get_offset}
use superscalar_oooprocessor.Cache.Fills.{found}
use superscalar_oooprocessor.StallCache.{StallCache, is_hit, read, start_miss}
use superscalar_oooprocessor.StallCache.Replaced.{holds, IsOrdered, IsLookedUp, is_hit-IsLookedUp}

-- A level in order whose countdown is below its penalty.
pub record IsTimed (c : StallCache) (penalty : ℕ) : Type 0 where
  pub ordered : IsOrdered c.level
  pub penalised : c.level.miss_penalty ≡ penalty
  pub countdown : c.miss_countdown < penalty

pub record IsRead (c : StallCache) (address : ℕ) (o : Option ℕ × StallCache) : Type 0 where
  pub hit : found o.0 ≡ ((c.miss_countdown == 0) && holds c.level address)
  pub kept : holds o.1.level address ≡ holds c.level address
  pub timed : (penalty : ℕ) → IsTimed c penalty → IsTimed o.1 penalty
  pub waits : (c.miss_countdown == 0) ≡ false → o.1.miss_countdown + 1 ≡ c.miss_countdown

-- What `read` does with the result of `isHit`.
abbrev read_at : StallCache → ℕ → Option ℕ × CacheLevel → Option ℕ × StallCache
read_at c word o = elim o.0 [
  | none ↦ (none, start_miss c o.1)
  | some l ↦ (some ((o.1.line l).words word), record c { level = o.1 })
]

read_at-IsRead :
    (c : StallCache) (address word : ℕ) (o : Option ℕ × CacheLevel)
    → (c.miss_countdown == 0) ≡ true
    → IsLookedUp c.level address o
    → IsRead c address (read_at c word o)
read_at-IsRead c address word (none, level) z l = record {
  hit = ground (arith, z, l.hit);
  kept = l.kept;
  timed = λ penalty t. record {
    ordered = l.ordered t.ordered;
    penalised = l.penalty ∙ t.penalised;
    countdown = omega (arith, l.penalty, t.penalised, t.countdown);
  };
  waits = λ n. absurd (ground (arith, z, n));
}
read_at-IsRead c address word (some w, level) z l = record {
  hit = ground (arith, z, l.hit);
  kept = l.kept;
  timed = λ penalty t. record {
    ordered = l.ordered t.ordered;
    penalised = l.penalty ∙ t.penalised;
    countdown = t.countdown;
  };
  waits = λ n. absurd (ground (arith, z, n));
}

pub read-IsRead : (c : StallCache) (address : ℕ) → IsRead c address (read c address)
unfolding read
read-IsRead c address =
    if-cases (IsRead c address) (c.miss_countdown == 0)
      (λ z.
        read_at-IsRead c address (get_offset address / 4) (is_hit c.level address) z
          (is_hit-IsLookedUp c.level address))
      (λ n. record {
        hit = ground (arith, n);
        kept = refl;
        timed = λ penalty t. record {
          ordered = t.ordered;
          penalised = t.penalised;
          countdown = omega (arith, t.countdown);
        };
        waits = λ _. ground (arith, n);
      })
