-- ===== src/FunctionalUnits.antt =====
-- functional_units.h. The ALU object of a unit holds only the control inputs of the instruction that
-- it executes next, so the units carry none. The array is a list of `num_alus` units.
pub mod Flight
use superscalar_oooprocessor.Base.{
  ℕ, zero, suc, Bool, true, false, not, ◌&&◌, ◌||◌, List, [], ◌∷◌, ltb, if◌then◌else◌, map,
}
use superscalar_oooprocessor.Config.{num_alus}
use superscalar_oooprocessor.InstructionQueue.{IqInstr}

pub record FunctionalUnit : Type 0 where
  pub ready : Bool
  pub instr : IqInstr
  pub has_result : Bool
  pub result_instr : IqInstr
  pub result : ℕ

abbrev pub FunctionalUnits : Type 0
FunctionalUnits = List FunctionalUnit

-- The constructor sets two fields of each unit.
abbrev pub init_units : ℕ → (ℕ → FunctionalUnit) → FunctionalUnits
init_units zero units = []
init_units (suc n) units =
    record (units n) { ready = true; has_result = false } ∷ init_units n units

unfoldable pub init : (ℕ → FunctionalUnit) → FunctionalUnits
init units = init_units num_alus units

unfoldable pub full : FunctionalUnits → Bool
full [] = true
full (u ∷ us) = if u.ready then false else full us

unfoldable pub empty : FunctionalUnits → Bool
empty [] = true
empty (u ∷ us) = if not u.ready || u.has_result then false else empty us

unfoldable pub issue_to_unit : FunctionalUnits → IqInstr → Bool × FunctionalUnits
issue_to_unit [] instr = (false, [])
issue_to_unit (u ∷ us) instr =
    let (done, us') = issue_to_unit us instr in
    if u.ready then (true, record u { ready = false; instr = instr } ∷ us) else (done, u ∷ us')

-- One round of the loop of `squash`.
abbrev pub squash_unit : ℕ → FunctionalUnit → FunctionalUnit
squash_unit branch_seq u = record u {
  ready = if not u.ready && ltb branch_seq u.instr.seq then true else u.ready;
  has_result = if u.has_result && ltb branch_seq u.result_instr.seq then false else u.has_result;
}

unfoldable pub squash : FunctionalUnits → ℕ → FunctionalUnits
squash us branch_seq = map (squash_unit branch_seq) us
