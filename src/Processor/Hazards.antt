-- ===== src/Processor/Hazards.antt =====
-- What holds of the pipeline registers between two cycles of the five-stage processor.
use superscalar_oooprocessor.Base.{
  ℕ, ◌≡◌, ◌≢◌, ◌⊎◌, inl, inr, refl, ◌∙◌, arith, Bool, true, false, not, ◌&&◌, ◌||◌, ◌==◌,
  if◌then◌else◌, Bool-cases, if-both, if-cases,
}
use superscalar_oooprocessor.Control.{Control, decode, rs_of, rt_of}
use superscalar_oooprocessor.Alu.{generate_control_inputs, execute, extend_imm}
use superscalar_oooprocessor.MemoryOoo.{reading}
use superscalar_oooprocessor.Memory.{Memory, access}
use superscalar_oooprocessor.PhysicalRegisterFile.{PhysReg}
use superscalar_oooprocessor.Registers.{Registers}
use superscalar_oooprocessor.Registers
use superscalar_oooprocessor.Processor.State.{Pipeline, IdEx, ExMem, MemWb, empty_id_ex}
use superscalar_oooprocessor.Processor.SingleCycle.{mask_load}
use superscalar_oooprocessor.Processor.Pipeline.{
  write_data_of, writeback_stage, memory_stage, mem_dest, ex_dest, forwarded, execute_stage,
  decode_stage, fetch_stage, pipelined_processor_advance,
}

-- A load writes back what it read, and to `rt`.
pub record IsLoadClass (c : Control) : Type 0 where
  pub agree : c.mem_read ≡ c.mem_to_reg
  pub to_rt : (c.mem_read && c.reg_dest) ≡ false

decode-IsLoadClass : (inst : ℕ) → IsLoadClass (decode inst)
unfolding decode
decode-IsLoadClass inst = ground arith

-- The value of a register after a write that may not happen.
access-value :
    (g : Registers) (d value i : ℕ) (write : Bool)
    → ((Registers.access g 0 0 d write value).2.r i).value
      ≡ (if write && (d == i) then value else (g.r i).value)
unfolding Registers.access
access-value g d value i false = refl
access-value g d value i true = ground arith

-- A register as the next write-back leaves it.
abbrev pub written_back : MemWb → (ℕ → PhysReg) → ℕ → ℕ
written_back b r i =
    if b.control.reg_write && (b.write_reg == i) then write_data_of b else (r i).value

-- The forwarding from `mem_wb` to a source register.
abbrev pub newer : MemWb → ℕ → ℕ → ℕ
newer b reg value =
    if b.control.reg_write && not (mem_dest b == 0) && (mem_dest b == reg)
    then (if b.control.mem_read then b.read_data_mem else b.alu_out)
    else value

-- What holds between two cycles. `rs_fresh` and `rt_fresh`: once the pending write-back is
-- forwarded, the operands of the decoded instruction are the registers after that write-back.
-- `load_use`: the instruction behind a load does not read what it loads.
pub record AreFresh (d : IdEx) (e : ExMem) (b : MemWb) (r : ℕ → PhysReg) : Type 0 where
  pub id_class : IsLoadClass d.control
  pub ex_class : IsLoadClass e.control
  pub mem_class : IsLoadClass b.control
  pub ex_reg : e.write_reg ≡ ex_dest e
  pub mem_reg : b.write_reg ≡ mem_dest b
  pub load_use : e.control.mem_read ≡ true → e.rt ≢ 0 → (e.rt ≢ d.rs) × (e.rt ≢ d.rt)
  pub rs_fresh : d.rs ≢ 0 → newer b d.rs d.read_data_1 ≡ written_back b r d.rs
  pub rt_fresh : d.rt ≢ 0 → newer b d.rt d.read_data_2 ≡ written_back b r d.rt

abbrev pub IsHazardFree : Pipeline → Type 0
IsHazardFree p = AreFresh p.id_ex p.ex_mem p.mem_wb p.regfile.r

-- Forwarding a value that is current is writing back.
newer-current :
    (b : MemWb) (r : ℕ → PhysReg) (reg : ℕ)
    → IsLoadClass b.control
    → b.write_reg ≡ mem_dest b
    → reg ≢ 0
    → newer b reg (r reg).value ≡ written_back b r reg
newer-current b r reg c h nonzero = ground (arith, c.agree, h)

-- The registers after the write-back stage.
abbrev pub registers_after : Pipeline → ℕ → PhysReg
registers_after p =
    (Registers.access p.regfile 0 0 p.mem_wb.write_reg p.mem_wb.control.reg_write
      (write_data_of p.mem_wb)).2.r

pub registers_after-value :
    (p : Pipeline) (i : ℕ) → (registers_after p i).value ≡ written_back p.mem_wb p.regfile.r i
registers_after-value p i =
    access-value p.regfile p.mem_wb.write_reg (write_data_of p.mem_wb) i p.mem_wb.control.reg_write

-- Writing back twice is writing back once.
written_back-again :
    (p : Pipeline) (i : ℕ)
    → written_back p.mem_wb p.regfile.r i ≡ written_back p.mem_wb (registers_after p) i
written_back-again p i = ground (arith, registers_after-value p i)

-- The cycle that waits for the memory.
held-IsHazardFree :
    (p : Pipeline) → IsHazardFree p → AreFresh p.id_ex p.ex_mem p.mem_wb (registers_after p)
held-IsHazardFree p h = record {
  id_class = h.id_class;
  ex_class = h.ex_class;
  mem_class = h.mem_class;
  ex_reg = h.ex_reg;
  mem_reg = h.mem_reg;
  load_use = h.load_use;
  rs_fresh = λ n. h.rs_fresh n ∙ written_back-again p p.id_ex.rs;
  rt_fresh = λ n. h.rt_fresh n ∙ written_back-again p p.id_ex.rt;
}

-- `decode_stage` after a cycle that does not wait: `e` is the instruction that was executed, which
-- stands in `id_ex` still, or was flushed together with the one behind it.
pub record WasExecuted (z : Pipeline) : Type 0 where
  pub runs : z.memory_stall ≡ false
  pub ex_class : IsLoadClass z.ex_mem.control
  pub mem_class : IsLoadClass z.mem_wb.control
  pub ex_reg : z.ex_mem.write_reg ≡ ex_dest z.ex_mem
  pub mem_reg : z.mem_wb.write_reg ≡ mem_dest z.mem_wb
  pub behind :
      (z.if_id.instruction ≡ 0)
      ⊎ ((z.id_ex.control.mem_read ≡ z.ex_mem.control.mem_read) × (z.id_ex.rt ≡ z.ex_mem.rt))

behind_load :
    (z : Pipeline)
    → WasExecuted z
    → (z.id_ex.control.mem_read
        && ((z.id_ex.rt == rs_of z.if_id.instruction) || (z.id_ex.rt == rt_of z.if_id.instruction)))
      ≡ false
    → z.ex_mem.control.mem_read ≡ true
    → z.ex_mem.rt ≢ 0
    → (z.ex_mem.rt ≢ rs_of z.if_id.instruction) × (z.ex_mem.rt ≢ rt_of z.if_id.instruction)
behind_load z h no_hazard l n = elim h.behind [
  | inl flushed ↦ ground (arith, flushed)
  | inr (same, rt) ↦ ground (arith, same, rt, no_hazard)
]

pub bubble-AreFresh :
    (e : ExMem) (b : MemWb) (r : ℕ → PhysReg)
    → IsLoadClass e.control
    → IsLoadClass b.control
    → e.write_reg ≡ ex_dest e
    → b.write_reg ≡ mem_dest b
    → AreFresh empty_id_ex e b r
bubble-AreFresh e b r ce cb he hb = record {
  id_class = record { agree = refl; to_rt = refl };
  ex_class = ce;
  mem_class = cb;
  ex_reg = he;
  mem_reg = hb;
  load_use = λ _ n. (n, n);
  rs_fresh = λ n. absurd (n refl);
  rt_fresh = λ n. absurd (n refl);
}

decode_stage-IsHazardFree : (z : Pipeline) → WasExecuted z → IsHazardFree (decode_stage z)
unfolding decode_stage Registers.access
decode_stage-IsHazardFree z h =
    let inst = z.if_id.instruction in
    let rs = rs_of inst in
    let rt = rt_of inst in
    simp h.runs
      (elim (Bool-cases (z.id_ex.control.mem_read && ((z.id_ex.rt == rs) || (z.id_ex.rt == rt)))) [
        | inl hazard ↦ rw hazard (
            bubble-AreFresh z.ex_mem z.mem_wb z.regfile.r h.ex_class h.mem_class h.ex_reg h.mem_reg)
        | inr no_hazard ↦ rw no_hazard (record {
          id_class = decode-IsLoadClass inst;
          ex_class = h.ex_class;
          mem_class = h.mem_class;
          ex_reg = h.ex_reg;
          mem_reg = h.mem_reg;
          load_use = behind_load z h no_hazard;
          rs_fresh = newer-current z.mem_wb z.regfile.r rs h.mem_class h.mem_reg;
          rt_fresh = newer-current z.mem_wb z.regfile.r rt h.mem_class h.mem_reg;
        })
      ])

-- `execute_stage` after `memory_stage` had its answer.
execute_stage-WasExecuted :
    (z : Pipeline)
    → z.memory_stall ≡ false
    → IsLoadClass z.id_ex.control
    → IsLoadClass z.mem_wb.control
    → z.mem_wb.write_reg ≡ mem_dest z.mem_wb
    → WasExecuted (execute_stage z)
unfolding execute_stage
execute_stage-WasExecuted z run cd cb hb =
    let d = forwarded z in
    let k = d.control in
    let (_, alu_zero) =
      execute (generate_control_inputs k.alu_op d.funct d.opcode)
        (if k.shift then d.shamt else d.read_data_1)
        (if k.alu_src then extend_imm k.zero_extend d.imm else d.read_data_2) in
    let taken = k.branch && ((k.bne && not alu_zero) || (not k.bne && alu_zero)) in
    if-cases WasExecuted z.memory_stall (λ stalled. absurd (ground arith))
      (λ _.
        if-both WasExecuted (taken || (k.jump || k.jump_reg))
          (record {
            runs = run;
            ex_class = cd;
            mem_class = cb;
            ex_reg = refl;
            mem_reg = hb;
            behind = inl refl;
          })
          (record {
            runs = run;
            ex_class = cd;
            mem_class = cb;
            ex_reg = refl;
            mem_reg = hb;
            behind = inr (refl, refl);
          }))

fetch_stage-IsHazardFree : (z : Pipeline) → IsHazardFree z → IsHazardFree (fetch_stage z)
unfolding fetch_stage
fetch_stage-IsHazardFree z h =
    if-both IsHazardFree (z.load_use_stall || z.memory_stall) h
      (if-both IsHazardFree (access z.memory z.regfile.pc 0 reading).0 h h)

-- The two ends of `memory_stage`: it had its answer, or it waits.
abbrev pub answered : Pipeline → ℕ → Memory → Pipeline
answered q word memory =
    let e = q.ex_mem in
    record q {
      memory = memory;
      memory_stall = false;
      mem_wb = record {
        read_data_mem = mask_load e.control word;
        alu_out = e.alu_out;
        write_reg = e.write_reg;
        rt = e.rt;
        rd = e.rd;
        control = e.control;
      };
    }

pub memory_stage-both :
    (P : Pipeline → Type 0) (q : Pipeline)
    → ((word : ℕ) (m : Memory) → P (answered q word m))
    → ((m : Memory) → P (record q { memory = m; memory_stall = true }))
    → P (memory_stage q)
unfolding memory_stage
memory_stage-both P q yes_case no_case =
    let e = q.ex_mem in
    let k = e.control in
    let (ready, old, memory1) =
      access q.memory e.alu_out 0
        (record { write_data = 0; mem_read = k.mem_read || k.mem_write; mem_write = false }) in
    let (_, word, memory2) =
      access memory1 e.alu_out old (record {
        write_data = e.write_data_mem;
        mem_read = k.mem_read;
        mem_write = k.mem_write;
      }) in
    if-both P ready (yes_case word memory2) (no_case memory1)

-- The later stages wait with the memory.
stages-stalled : (z : Pipeline) → z.memory_stall ≡ true → decode_stage (execute_stage z) ≡ z
unfolding decode_stage execute_stage
stages-stalled z e = simp e refl

-- Every cycle keeps the operands fresh and the loads ahead of their uses.
pub advance-IsHazardFree :
    (p : Pipeline) → IsHazardFree p → IsHazardFree (pipelined_processor_advance p)
unfolding pipelined_processor_advance writeback_stage
advance-IsHazardFree p h =
    let q = writeback_stage (record p { mem_wb_prev = p.mem_wb }) in
    memory_stage-both (λ z. IsHazardFree (fetch_stage (decode_stage (execute_stage z)))) q
      (λ word m.
        let z = answered q word m in
        fetch_stage-IsHazardFree (decode_stage (execute_stage z)) (
          decode_stage-IsHazardFree (execute_stage z)
            (execute_stage-WasExecuted z refl h.id_class h.ex_class h.ex_reg)))
      (λ m.
        let z : Pipeline = record q { memory = m; memory_stall = true } in
        fetch_stage-IsHazardFree (decode_stage (execute_stage z))
          (rw (stages-stalled z refl) (held-IsHazardFree p h)))
