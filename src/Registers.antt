-- ===== src/Registers.antt =====
-- `Registers` of regfile.h: the register file of the in-order processors.
use superscalar_oooprocessor.Base.{ℕ, Bool, true, if◌then◌else◌, update}
use superscalar_oooprocessor.PhysicalRegisterFile.{PhysReg}

-- `regmap` and `rename_pool` of the source are never used. `pc` is set by the processor.
pub record Registers : Type 0 where
  pub r : ℕ → PhysReg
  pub pc : ℕ

unfoldable pub init : Registers
init = record { r = λ i. record { value = 0; ready = true }; pc = 0 }

-- `Registers::access`: the two words that are read, and the registers after the write.
unfoldable pub access : Registers → ℕ → ℕ → ℕ → Bool → ℕ → ℕ × ℕ × Registers
access g read_reg_1 read_reg_2 write_reg write write_data = (
  (g.r read_reg_1).value,
  (g.r read_reg_2).value,
  (if write
      then record g { r = update g.r write_reg (record { value = write_data; ready = true }) }
      else g),
)

unfoldable pub ready : Registers → ℕ → Bool
ready g reg = (g.r reg).ready
