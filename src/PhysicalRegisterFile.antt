-- ===== src/PhysicalRegisterFile.antt =====
-- prf.h and `PhysReg` of regfile.h: the physical registers, the speculative and the committed
-- mapping of architectural registers, and the free list. The arrays are functions of the index.
use superscalar_oooprocessor.Base.{
  ℕ, zero, suc, ◌-◌, Bool, true, false, Option, none, some, List, [], ◌∷◌, ◌++◌, update,
}
use superscalar_oooprocessor.Config.{num_physical_registers, num_architectural_registers}

-- `PhysReg`. The `int32_t` value is kept as the bit pattern that is written and read.
pub record PhysReg : Type 0 where
  pub value : ℕ
  pub ready : Bool

pub record PhysicalRegisterFile : Type 0 where
  pub r : ℕ → PhysReg
  pub commited_regmap : ℕ → ℕ
  pub regmap : ℕ → ℕ
  pub rename_pool : List ℕ
  pub pc : ℕ

-- `i`, `i + 1`, … , `n` of them.
abbrev pub count_up : ℕ → ℕ → List ℕ
count_up i zero = []
count_up i (suc n) = i ∷ count_up (suc i) n

-- The constructor; `pc` is set by the processor's.
unfoldable pub init : PhysicalRegisterFile
init = record {
  r = λ i. record { value = 0; ready = true };
  commited_regmap = λ i. i;
  regmap = λ i. i;
  rename_pool =
      count_up num_architectural_registers (num_physical_registers - num_architectural_registers);
  pc = 0;
}

unfoldable pub ready : PhysicalRegisterFile → ℕ → Bool
ready p reg = (p.r reg).ready

unfoldable pub read : PhysicalRegisterFile → ℕ → ℕ
read p phys_reg = (p.r phys_reg).value

unfoldable pub write : PhysicalRegisterFile → ℕ → ℕ → PhysicalRegisterFile
write p phys_reg result = record p {
  r = update p.r phys_reg (record { value = result; ready = true });
}

-- `none` is `front` of an empty free list, which is undefined in the source.
unfoldable pub assign_mapping : PhysicalRegisterFile → ℕ → Option (ℕ × PhysicalRegisterFile)
assign_mapping p arch_reg = elim p.rename_pool [
  | [] ↦ none
  | phys_reg ∷ pool ↦ some (
    phys_reg,
    record p {
      rename_pool = pool;
      regmap = update p.regmap arch_reg phys_reg;
      r = update p.r phys_reg (record (p.r phys_reg) { ready = false });
    },
  )
]

unfoldable pub get_mapping : PhysicalRegisterFile → ℕ → ℕ
get_mapping p arch_reg = p.regmap arch_reg

unfoldable pub reclaim : PhysicalRegisterFile → ℕ → PhysicalRegisterFile
reclaim p phys_reg = record p { rename_pool = p.rename_pool ++ (phys_reg ∷ []) }

unfoldable pub undo_rename : PhysicalRegisterFile → ℕ → PhysicalRegisterFile
undo_rename p phys_reg = record p { rename_pool = phys_reg ∷ p.rename_pool }

unfoldable pub rollback_rename : PhysicalRegisterFile → ℕ → ℕ → ℕ → PhysicalRegisterFile
rollback_rename p arch_reg new_phys_reg old_phys_reg = record p {
  rename_pool = new_phys_reg ∷ p.rename_pool;
  regmap = update p.regmap arch_reg old_phys_reg;
}

unfoldable pub update_commited_registers : PhysicalRegisterFile → ℕ → ℕ → PhysicalRegisterFile
update_commited_registers p arch_reg phys_reg = record p {
  commited_regmap = update p.commited_regmap arch_reg phys_reg;
}

unfoldable pub has_free_phys_reg : PhysicalRegisterFile → Bool
has_free_phys_reg p = elim p.rename_pool [ [] ↦ false | _ ∷ _ ↦ true ]
