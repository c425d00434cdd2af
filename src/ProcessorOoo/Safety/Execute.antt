-- ===== src/ProcessorOoo/Safety/Execute.antt =====
-- `execute_stage` keeps the invariant and uses no index that is -1.
use superscalar_oooprocessor.Base.{
  ℕ, Bool, true, false, ◌||◌, Option, none, some, List, [], ◌∷◌, if◌then◌else◌, arith, Bool-cases,
  Option-cases, inl, inr, All, All-keep, All_map, if-both,
}
use superscalar_oooprocessor.Config.{load_queue_size, store_queue_size}
use superscalar_oooprocessor.MemoryOoo.{MemoryOoo, probe_l1}
use superscalar_oooprocessor.LoadStoreQueue.{
  LoadStoreQueue, set_load, try_forward, mark_load_complete,
}
use superscalar_oooprocessor.LoadStoreQueue.Bounds.{
  IsValid, set_load-IsValid, set_store-IsValid, mark_load_complete-IsValid, squash-IsValid,
}
use superscalar_oooprocessor.ReorderBuffer.Sound.{squash-AreSound}
use superscalar_oooprocessor.InstructionQueue.{IqInstr}
use superscalar_oooprocessor.InstructionQueue
use superscalar_oooprocessor.FunctionalUnits.{FunctionalUnit, squash_unit}
use superscalar_oooprocessor.FunctionalUnits
use superscalar_oooprocessor.BranchPredictor.{BranchPredictor}
use superscalar_oooprocessor.NonBlockingCache.{NonBlockingCache}
use superscalar_oooprocessor.ProcessorOoo.State.{Core, Squash}
use superscalar_oooprocessor.ProcessorOoo.Execute.{
  run_alu, finish_unit, execute_load, execute_store, execute_unit, execute_units, perform_squash,
  execute_stage,
}
use superscalar_oooprocessor.ProcessorOoo.Safety.Invariant.{
  IsPlace, IsPlaced, UnitIsPlaced, IsSafe, Succeeds,
}
use superscalar_oooprocessor.ProcessorOoo.Safety.Units.{
  UnitSafe, UnitSucceeds, UnitsSucceed, UnitsSucceed-cons, with_units-IsSafe,
}
use superscalar_oooprocessor.ProcessorOoo.Safety.Misses.{
  AreMissesPlaced, allocate-placed, squash-placed,
}

-- A state with other queues, memory and misses.
with_memory-IsSafe :
    (c : Core) (q : LoadStoreQueue) (m : MemoryOoo) (d : NonBlockingCache)
    → IsSafe c
    → IsValid q
    → AreMissesPlaced d
    → IsSafe (record c { lsq = q; memory = m; d_nbc = d })
with_memory-IsSafe c q m d s v h = record {
  registers = s.registers;
  queues = v;
  waiting = s.waiting;
  running = s.running;
  missing = h.missing;
  answered = h.answered;
  decoded = s.decoded;
}

resolved-IsSafe :
    (c : Core) (b : BranchPredictor) (q : Squash)
    → IsSafe c
    → IsSafe (record c { bp = b; pending_squash = q })
resolved-IsSafe c b q s = record {
  registers = s.registers;
  queues = s.queues;
  waiting = s.waiting;
  running = s.running;
  missing = s.missing;
  answered = s.answered;
  decoded = s.decoded;
}

finish-UnitSafe :
    (c : Core) (u : FunctionalUnit) (alu_result : ℕ) (alu_zero : Bool) (load_result : ℕ)
    → IsSafe c
    → IsPlaced u.instr
    → UnitSafe (finish_unit c u alu_result alu_zero load_result)
unfolding finish_unit
finish-UnitSafe c u alu_result alu_zero load_result s p = (
  if-both IsSafe (u.instr.control.branch || (u.instr.control.jump || u.instr.control.jump_reg))
      (resolved-IsSafe c _ _ s) s,
  record { waiting = λ e. cc; finished = λ _. p.rob_place },
)

misses : (c : Core) → IsSafe c → AreMissesPlaced c.d_nbc
misses c s = record { missing = s.missing; answered = s.answered }

load-UnitSafe :
    (c : Core) (u : FunctionalUnit) (alu_result : ℕ) (alu_zero : Bool) (index : ℕ)
    → IsSafe c
    → UnitIsPlaced u
    → IsPlaced u.instr
    → UnitSafe (execute_load c u alu_result alu_zero index)
unfolding execute_load
load-UnitSafe c u alu_result alu_zero index s h p = elim (Option-cases (try_forward q seq)) [
  | inr (val, e) ↦
      rw (e, execute_load)
        (finish-UnitSafe _ u alu_result alu_zero val
          (with_memory-IsSafe c _ c.memory c.d_nbc s completed (misses c s)) p)
  | inl e ↦ elim (Option-cases (probe_l1 c.memory alu_result).0) [
    | inr (val, f) ↦
        rw (e, f, execute_load)
          (finish-UnitSafe _ u alu_result alu_zero val
            (with_memory-IsSafe c _ _ c.d_nbc s completed (misses c s)) p)
    | inl f ↦
        rw (e, f, execute_load)
          (
            with_memory-IsSafe c q _ _ s entered (
                allocate-placed c.d_nbc alu_result u.instr.rob_index u.instr.rd u.instr.seq
                  (misses c s) p.rob_place),
            if-both UnitIsPlaced _ freed-IsPlaced h,
          )
  ]
]
  where
    freed-IsPlaced : UnitIsPlaced (record u { ready = true; has_result = false })
    freed-IsPlaced = record { waiting = λ w. cc; finished = λ w. cc }

    q : LoadStoreQueue
    q = set_load c.lsq index (record (c.lsq.lq index) { addr = alu_result; addr_ready = true })

    seq : ℕ
    seq = (c.lsq.lq index).seq

    entered : IsValid q
    entered = set_load-IsValid c.lsq index _ s.queues

    completed : IsValid (mark_load_complete q seq)
    completed = mark_load_complete-IsValid q seq entered

store-IsSafe :
    (c : Core) (index alu_result : ℕ) → IsSafe c → IsSafe (execute_store c index alu_result)
unfolding execute_store
store-IsSafe c index alu_result s =
    with_memory-IsSafe c _ c.memory c.d_nbc s (set_store-IsValid c.lsq index _ s.queues)
      (misses c s)

execute_unit-Succeeds :
    (c : Core) (u : FunctionalUnit) → IsSafe c → UnitIsPlaced u → UnitSucceeds (execute_unit c u)
unfolding execute_unit
execute_unit-Succeeds c u s h = elim (Bool-cases u.ready) [
  | inl r ↦ simp r (s, h)
  | inr r ↦ simp r (elim (Bool-cases u.instr.control.mem_read) [
    | inl m ↦ simp m (at_load u.instr.load_index (h.waiting r) ((h.waiting r).load_place m))
    | inr m ↦ simp m (elim (Bool-cases u.instr.control.mem_write) [
      | inl w ↦ simp w (at_store u.instr.store_index (h.waiting r) ((h.waiting r).store_place m w))
      | inr w ↦ simp w (finish-UnitSafe c u alu.0 alu.1 0 s (h.waiting r))
    ])
  ])
]
  where
    alu : ℕ × Bool
    alu = run_alu c.prf u.instr

    at_load :
        (o : Option ℕ)
        → IsPlaced u.instr
        → IsPlace load_queue_size o
        → UnitSucceeds
            (elim o [ none ↦ none | some index ↦ some (execute_load c u alu.0 alu.1 index) ])
    at_load none p l = l
    at_load (some index) p l = load-UnitSafe c u alu.0 alu.1 index s h p

    at_store :
        (o : Option ℕ)
        → IsPlaced u.instr
        → IsPlace store_queue_size o
        → UnitSucceeds (elim o [
          | none ↦ none
          | some index ↦ some (finish_unit (execute_store c index alu.0) u alu.0 alu.1 0)
        ])
    at_store none p l = l
    at_store (some index) p l = finish-UnitSafe _ u alu.0 alu.1 0 (store-IsSafe c index alu.0 s) p

execute_units-Succeed :
    (c : Core) (us : List FunctionalUnit)
    → IsSafe c
    → All UnitIsPlaced us
    → UnitsSucceed (execute_units c us)
unfolding execute_units
execute_units-Succeed c [] s h = (s, tt)
execute_units-Succeed c (u ∷ us) s h =
    UnitsSucceed-cons (execute_unit c u) (λ c'. execute_units c' us)
      (execute_unit-Succeeds c u s h.0) (λ c' s'. execute_units-Succeed c' us s' h.1)

squash_unit-placed : (b : ℕ) (u : FunctionalUnit) → UnitIsPlaced u → UnitIsPlaced (squash_unit b u)
squash_unit-placed b u h = ground arith

perform_squash-IsSafe : (c : Core) → IsSafe c → IsSafe (perform_squash c)
unfolding perform_squash InstructionQueue.squash FunctionalUnits.squash
perform_squash-IsSafe c s =
    let regs = squash-AreSound c.pending_squash.seq s.registers in
    let missed = squash-placed c.d_nbc c.pending_squash.seq (misses c s) in
    record {
      registers = record { valid = regs.valid; sound = regs.sound };
      queues = squash-IsValid c.lsq c.pending_squash.seq s.queues;
      waiting = All-keep IsPlaced _ c.iq s.waiting;
      running = All_map UnitIsPlaced UnitIsPlaced _ c.fu (squash_unit-placed _) s.running;
      missing = missed.missing;
      answered = missed.answered;
      decoded = λ i e. cc;
    }

-- Executing keeps a safe processor safe, and uses no index -1.
pub execute_stage-Succeeds : (c : Core) → IsSafe c → Succeeds (execute_stage c)
unfolding execute_stage
execute_stage-Succeeds c s = after (execute_units c c.fu) (execute_units-Succeed c c.fu s s.running)
  where
    after :
        (o : Option (Core × List FunctionalUnit))
        → UnitsSucceed o
        → Succeeds (elim o [
          | none ↦ none
          | some (c', us) ↦
              (let c'' = record c' { fu = us } in
                some (if c''.pending_squash.pending then perform_squash c'' else c''))
        ])
    after none h = h
    after (some (c', us)) h =
        let safe = with_units-IsSafe c' us h.0 h.1 in
        if-both IsSafe c'.pending_squash.pending (perform_squash-IsSafe _ safe) safe
