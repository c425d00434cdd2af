-- ===== src/Processor/Outcome.antt =====
-- What a cycle of the single-cycle processor does to the state that the instruction set speaks of.
use superscalar_oooprocessor.Base.{
  ℕ, ◌+◌, ◌/◌, ◌%◌, ◌≡◌, refl, fun_ext, arith, Bool, true, false, ◌||◌, if◌then◌else◌, update,
}
use superscalar_oooprocessor.Config.{u32_mod}
use superscalar_oooprocessor.Control.{Control}
use superscalar_oooprocessor.Alu.{generate_control_inputs, execute, extend_imm}
use superscalar_oooprocessor.MemoryOoo.{Request}
use superscalar_oooprocessor.Memory.{Memory, access}
use superscalar_oooprocessor.Registers.{Registers}
use superscalar_oooprocessor.Registers
use superscalar_oooprocessor.Processor.Isa
use superscalar_oooprocessor.Processor.SingleCycle.{
  Fields, merge_store, mask_load, next_pc, complete,
}

-- The state that the instruction set speaks of.
abbrev pub machine_of : Memory × Registers → Isa.Machine
machine_of (memory, g) = record { regs = λ i. (g.r i).value; mem = memory.mem; pc = g.pc }

-- What a cycle does to that state, from the control signals and the fields.
abbrev alu_of : Control → Fields → Isa.Machine → ℕ × Bool
alu_of k f m =
    execute (generate_control_inputs k.alu_op f.funct f.opcode)
      (if k.shift then f.shamt else m.regs f.rs)
      (if k.alu_src then extend_imm k.zero_extend f.imm else m.regs f.rt)

abbrev old_of : Control → Fields → Isa.Machine → ℕ
old_of k f m = if k.mem_read || k.mem_write then m.mem ((alu_of k f m).0 / 4) else 0

abbrev value_of : Control → Fields → Isa.Machine → ℕ
value_of k f m =
    if k.link
    then ((m.pc + 4) % u32_mod + 8) % u32_mod
    else if k.mem_to_reg
    then mask_load k (if k.mem_read then m.mem ((alu_of k f m).0 / 4) else old_of k f m)
    else (alu_of k f m).0

abbrev dest_of : Control → Fields → ℕ
dest_of k f = if k.link then 31 else if k.reg_dest then f.rd else f.rt

abbrev written : Control → Fields → Isa.Machine → ℕ → ℕ
written k f m = update m.mem ((alu_of k f m).0 / 4) (merge_store k (old_of k f m) (m.regs f.rt))

abbrev pub outcome : Control → Fields → Isa.Machine → Isa.Machine
outcome k f m = record {
  regs = if k.reg_write then update m.regs (dest_of k f) (value_of k f m) else m.regs;
  mem = if k.mem_write then written k f m else m.mem;
  pc =
      next_pc k (alu_of k f m).1 ((m.pc + 4) % u32_mod) (extend_imm k.zero_extend f.imm) f.addr
        (m.regs f.rs);
}

pub machine-≡ : {m n : Isa.Machine} → m.regs ≡ n.regs → m.mem ≡ n.mem → m.pc ≡ n.pc → m ≡ n
machine-≡ r s p = λ i. record { regs = r i; mem = s i; pc = p i }

-- At level 0 the memory answers at once.
pub access-flat :
    (memory : Memory) (address read_data : ℕ) (q : Request)
    → memory.opt_level ≡ 0
    → access memory address read_data q ≡ (
      true,
      (if q.mem_read then memory.mem (address / 4) else read_data),
      (if q.mem_write
          then record memory { mem = update memory.mem (address / 4) q.write_data }
          else memory),
    )
unfolding access
access-flat memory address read_data q level = simp level refl

-- The registers and the memory after a write that may not happen.
regs-access :
    (g : Registers) (d value : ℕ) (write : Bool)
    → (λ i. ((Registers.access g 0 0 d write value).2.r i).value)
      ≡ (if write then update (λ i. (g.r i).value) d value else (λ i. (g.r i).value))
unfolding Registers.access
regs-access g d value false = refl
regs-access g d value true = fun_ext (λ i. ground arith)

pc-access :
    (k : Control) (alu_zero : Bool) (imm addr target : ℕ) (g : Registers) (d value : ℕ)
    (write : Bool)
    → next_pc k alu_zero (Registers.access g 0 0 d write value).2.pc imm addr target
      ≡ next_pc k alu_zero g.pc imm addr target
unfolding Registers.access
pc-access k alu_zero imm addr target g d value false = refl
pc-access k alu_zero imm addr target g d value true = refl

mem-if :
    (memory : Memory) (write : Bool) (new : ℕ → ℕ)
    → (if write then record memory { mem = new } else memory).mem
      ≡ (if write then new else memory.mem)
mem-if memory false new = refl
mem-if memory true new = refl

pub level-if :
    (memory : Memory) (write : Bool) (new : ℕ → ℕ)
    → memory.opt_level ≡ 0
    → (if write then record memory { mem = new } else memory).opt_level ≡ 0
level-if memory false new h = h
level-if memory true new h = h

pub complete-outcome :
    (k : Control) (f : Fields) (memory : Memory) (g : Registers)
    → memory.opt_level ≡ 0
    → machine_of (complete k f memory (record g { pc = (g.pc + 4) % u32_mod }))
      ≡ outcome k f (machine_of (memory, g))
unfolding complete Registers.access
complete-outcome k f memory g level =
    let flat : (a d : ℕ) (q : Request)
        → access memory a d q ≡ (
          true,
          (if q.mem_read then memory.mem (a / 4) else d),
          (if q.mem_write
              then record memory { mem = update memory.mem (a / 4) q.write_data }
              else memory),
        ) =
      λ a d q. access-flat memory a d q level in
    let m = machine_of (memory, g) in
    let g' : Registers = record g { pc = (g.pc + 4) % u32_mod } in
    simp flat (
      machine-≡ (regs-access g' (dest_of k f) (value_of k f m) k.reg_write)
        (mem-if memory k.mem_write (written k f m))
        (pc-access k (alu_of k f m).1 (extend_imm k.zero_extend f.imm) f.addr (m.regs f.rs) g'
          (dest_of k f) (value_of k f m) k.reg_write))

pub complete-level :
    (k : Control) (f : Fields) (memory : Memory) (g : Registers)
    → memory.opt_level ≡ 0
    → (complete k f memory (record g { pc = (g.pc + 4) % u32_mod })).0.opt_level ≡ 0
unfolding complete Registers.access
complete-level k f memory g level =
    let flat : (a d : ℕ) (q : Request)
        → access memory a d q ≡ (
          true,
          (if q.mem_read then memory.mem (a / 4) else d),
          (if q.mem_write
              then record memory { mem = update memory.mem (a / 4) q.write_data }
              else memory),
        ) =
      λ a d q. access-flat memory a d q level in
    simp flat (level-if memory k.mem_write (written k f (machine_of (memory, g))) level)
