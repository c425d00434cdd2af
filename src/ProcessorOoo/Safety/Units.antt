-- ===== src/ProcessorOoo/Safety/Units.antt =====
-- What a loop over the functional units keeps.
use superscalar_oooprocessor.Base.{Option, none, some, List, ◌∷◌, All}
use superscalar_oooprocessor.FunctionalUnits.{FunctionalUnit}
use superscalar_oooprocessor.ProcessorOoo.State.{Core}
use superscalar_oooprocessor.ProcessorOoo.Safety.Invariant.{UnitIsPlaced, IsSafe}

-- The processor and the unit after one round.
abbrev pub UnitSafe : Core × FunctionalUnit → Type 0
UnitSafe o = IsSafe o.0 × UnitIsPlaced o.1

abbrev pub UnitSucceeds : Option (Core × FunctionalUnit) → Type 0
UnitSucceeds none = ⊥
UnitSucceeds (some o) = UnitSafe o

-- The processor and the units after the loop.
abbrev pub UnitsSucceed : Option (Core × List FunctionalUnit) → Type 0
UnitsSucceed none = ⊥
UnitsSucceed (some o) = IsSafe o.0 × All UnitIsPlaced o.1

with_unit-succeeds :
    (u : FunctionalUnit) (o : Option (Core × List FunctionalUnit))
    → UnitIsPlaced u
    → UnitsSucceed o
    → UnitsSucceed (elim o [ none ↦ none | some (c, us) ↦ some (c, u ∷ us) ])
with_unit-succeeds u none hu h = h
with_unit-succeeds u (some (c, us)) hu h = (h.0, (hu, h.1))

-- One round, and the loop over the units that are left.
pub UnitsSucceed-cons :
    (o : Option (Core × FunctionalUnit)) (f : Core → Option (Core × List FunctionalUnit))
    → UnitSucceeds o
    → ((c : Core) → IsSafe c → UnitsSucceed (f c))
    → UnitsSucceed (elim o [
      | none ↦ none
      | some (c, u) ↦ elim (f c) [ none ↦ none | some (c', us) ↦ some (c', u ∷ us) ]
    ])
UnitsSucceed-cons none f h later = h
UnitsSucceed-cons (some (c, u)) f h later = with_unit-succeeds u (f c) h.1 (later c h.0)

pub with_units-IsSafe :
    (c : Core) (us : List FunctionalUnit)
    → IsSafe c
    → All UnitIsPlaced us
    → IsSafe (record c { fu = us })
with_units-IsSafe c us s h = record {
  registers = s.registers;
  queues = s.queues;
  waiting = s.waiting;
  running = h;
  missing = s.missing;
  answered = s.answered;
  decoded = s.decoded;
}
