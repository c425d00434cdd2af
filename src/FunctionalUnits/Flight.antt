-- ===== src/FunctionalUnits/Flight.antt =====
-- The instructions in the functional units (functional_units.h): none is lost or doubled when one is
-- issued, and a squash takes the young ones out.
use superscalar_oooprocessor.Base.{
  ℕ, ◌≡◌, refl, ap, sym, subst, Bool, true, false, not, List, [], ◌∷◌, ◌++◌, ltb, if◌then◌else◌,
  keep, arith, Bool-cases, inl, inr,
}
use superscalar_oooprocessor.InstructionQueue.{IqInstr}
use superscalar_oooprocessor.FunctionalUnits.{
  FunctionalUnit, FunctionalUnits, full, issue_to_unit, squash,
}

-- The instructions that the units execute, and the results that are not written back.
abbrev pub in_flight : FunctionalUnits → List IqInstr
in_flight [] = []
in_flight (u ∷ us) = if u.ready then in_flight us else (u.instr ∷ in_flight us)

abbrev pub finished : FunctionalUnits → List IqInstr
finished [] = []
finished (u ∷ us) = if u.has_result then (u.result_instr ∷ finished us) else finished us

-- `instr` is one more instruction among those of `before`.
abbrev pub Joins : IqInstr → List IqInstr → List IqInstr → Type 0
Joins instr before after =
    (xs : List IqInstr) × (ys : List IqInstr) × (before ≡ xs ++ ys) × (after ≡ xs ++ (instr ∷ ys))

-- A unit was free and has the instruction, or all are busy and nothing changed.
abbrev pub Issues : FunctionalUnits → IqInstr → Bool × FunctionalUnits → Type 0
Issues us instr o =
    (o.0 ≡ not (full us))
    × (finished o.1 ≡ finished us)
    × (if o.0 then Joins instr (in_flight us) (in_flight o.1) else (o.1 ≡ us))

later-Joins :
    (x instr : IqInstr) (before after : List IqInstr)
    → Joins instr before after
    → Joins instr (x ∷ before) (x ∷ after)
later-Joins x instr before after (xs, ys, p, q) = (x ∷ xs, ys, ap (λ t. x ∷ t) p, ap (λ t. x ∷ t) q)

later-finished :
    (u : FunctionalUnit) (us us' : FunctionalUnits)
    → finished us' ≡ finished us
    → finished (u ∷ us') ≡ finished (u ∷ us)
later-finished u us us' p = ap (λ t. if u.has_result then (u.result_instr ∷ t) else t) p

-- A busy unit before the others changes nothing.
busy-Issues :
    (u : FunctionalUnit) (us : FunctionalUnits) (instr : IqInstr) (o : Bool × FunctionalUnits)
    → u.ready ≡ false
    → Issues us instr o
    → Issues (u ∷ us) instr (o.0, u ∷ o.1)
unfolding full
busy-Issues u us instr (true, us') e h =
    simp e (h.0, later-finished u us us' h.1, later-Joins u.instr instr _ _ h.2)
busy-Issues u us instr (false, us') e h =
    simp e (h.0, later-finished u us us' h.1, ap (λ t. u ∷ t) h.2)

-- `issue_to_unit` succeeds exactly if the units are not full; then the instruction is executed next to
-- those that were, and otherwise no unit changes. No result is lost either way.
pub issue_to_unit_lem :
    (us : FunctionalUnits) (instr : IqInstr) → Issues us instr (issue_to_unit us instr)
unfolding issue_to_unit full
issue_to_unit_lem [] instr = (refl, refl, refl)
issue_to_unit_lem (u ∷ us) instr = elim (Bool-cases u.ready) [
  | inl e ↦ simp e (refl, refl, ([], in_flight us, refl, refl))
  | inr e ↦
      subst (Issues (u ∷ us) instr) (sym (busy e))
        (busy-Issues u us instr (issue_to_unit us instr) e (issue_to_unit_lem us instr))
]
  where
    busy :
        u.ready ≡ false
        → issue_to_unit (u ∷ us) instr
          ≡ ((issue_to_unit us instr).0, u ∷ (issue_to_unit us instr).1)
    busy e = simp e refl

-- `squash` leaves exactly the instructions and the results that are not younger than the branch, in
-- their order.
pub in_flight-squash :
    (us : FunctionalUnits) (b : ℕ)
    → (in_flight (squash us b) ≡ keep (λ i. not (ltb b i.seq)) (in_flight us))
      × (finished (squash us b) ≡ keep (λ i. not (ltb b i.seq)) (finished us))
unfolding squash
in_flight-squash [] b = (refl, refl)
in_flight-squash (u ∷ us) b = let (first, second) = in_flight-squash us b in ground arith
