-- ===== src/Control/Classes.antt =====
-- What the decoder guarantees of every instruction word.
use superscalar_oooprocessor.Base.{ℕ, ◌≤◌, ◌≡◌, false, not, ◌&&◌, ◌||◌, ◌==◌, arith}
use superscalar_oooprocessor.Control.{Control, decode}

-- The classes of instructions that the stages tell apart do not overlap.
pub record IsExclusive (c : Control) : Type 0 where
  pub load_store : (c.mem_read && c.mem_write) ≡ false
  pub load_writes : (c.mem_read && not (c.reg_write && c.mem_to_reg)) ≡ false
  pub load_branch : (c.mem_read && (c.branch || c.jump)) ≡ false
  pub store_quiet : (c.mem_write && (c.reg_write || (c.branch || c.jump))) ≡ false
  pub branch_quiet : (c.branch && (c.reg_write || c.jump)) ≡ false
  pub branch_subtracts : (c.branch && not (c.alu_op == 1)) ≡ false
  pub bne_branch : (c.bne && not c.branch) ≡ false
  pub jump_reg_jump : (c.jump_reg && not c.jump) ≡ false
  pub op_small : c.alu_op ≤ 3

-- For every instruction word, the decoded control signals put it in one class.
pub decode-IsExclusive : (inst : ℕ) → IsExclusive (decode inst)
unfolding decode
decode-IsExclusive inst = ground arith
