-- ===== src/ProcessorOoo/Safety/Retire.antt =====
-- The stages that write back, answer loads, drain stores and commit keep the invariant, and
-- use no index that is -1.
use superscalar_oooprocessor.Base.{
  ℕ, zero, suc, ◌==◌, ◌&&◌, not, Bool, false, ltb, Option, none, some, List, [], ◌∷◌, Bool-cases,
  inl, inr, if◌then◌else◌, All, All_map, if-both,
}
use superscalar_oooprocessor.Config.{reorder_buffer_size, pipeline_width}
use superscalar_oooprocessor.MemoryOoo.{MemoryOoo}
use superscalar_oooprocessor.LoadStoreQueue.{LoadStoreQueue, pop_load_head, mark_store_complete}
use superscalar_oooprocessor.LoadStoreQueue.Bounds.{
  IsValid, broadcast_ready-IsValid, evict_commited_stores-IsValid, mark_store_complete-IsValid,
  pop_load_head-IsValid,
}
use superscalar_oooprocessor.ReorderBuffer
use superscalar_oooprocessor.ReorderBuffer.{RobEntry, retire_load, retire_store, commit}
use superscalar_oooprocessor.ReorderBuffer.Sound.{commit-AreSound, set_ready-AreSound}
use superscalar_oooprocessor.PhysicalRegisterFile.{PhysicalRegisterFile, write}
use superscalar_oooprocessor.InstructionQueue.{IqInstr, wake}
use superscalar_oooprocessor.InstructionQueue
use superscalar_oooprocessor.FunctionalUnits.{FunctionalUnit}
use superscalar_oooprocessor.NonBlockingCache.{NonBlockingCache, CacheResponse, check_ready}
use superscalar_oooprocessor.ProcessorOoo.State.{Core, Squash, is_older}
use superscalar_oooprocessor.ProcessorOoo.Retire.{
  broadcast, complete, take_responses, drain_stores, memory_stage, writeback_unit, writeback_units,
  writeback_stage, commit_one, commit_from, commit_stage,
}
use superscalar_oooprocessor.ProcessorOoo.Safety.Invariant.{
  IsPlace, IsPlaced, UnitIsPlaced, ResponseIsPlaced, IsSafe, Succeeds, Succeeds-bind,
}
use superscalar_oooprocessor.ProcessorOoo.Safety.Units.{
  UnitSucceeds, UnitsSucceed, UnitsSucceed-cons, with_units-IsSafe,
}
use superscalar_oooprocessor.ProcessorOoo.Safety.Misses.{AreMissesPlaced, check_ready-placed}

broadcast-IsSafe : (c : Core) (reg value : ℕ) → IsSafe c → IsSafe (broadcast c reg value)
unfolding broadcast write InstructionQueue.broadcast_ready
broadcast-IsSafe c reg value s = record {
  registers = record { valid = s.registers.valid; sound = s.registers.sound };
  queues = broadcast_ready-IsValid c.lsq reg s.queues;
  waiting =
      All_map IsPlaced IsPlaced (wake reg) c.iq
        (λ i p. record {
          rob_place = p.rob_place;
          load_place = p.load_place;
          store_place = p.store_place;
        })
        s.waiting;
  running = s.running;
  missing = s.missing;
  answered = s.answered;
  decoded = s.decoded;
}

complete-Succeeds :
    (c : Core) (o : Option ℕ) → IsSafe c → IsPlace reorder_buffer_size o → Succeeds (complete c o)
unfolding complete
complete-Succeeds c none s h = h
complete-Succeeds c (some index) s h = record {
  registers = set_ready-AreSound index s.registers;
  queues = s.queues;
  waiting = s.waiting;
  running = s.running;
  missing = s.missing;
  answered = s.answered;
  decoded = s.decoded;
}

take_responses-Succeeds :
    (c : Core) (rs : List CacheResponse)
    → IsSafe c
    → All ResponseIsPlaced rs
    → Succeeds (take_responses c rs)
unfolding take_responses
take_responses-Succeeds c [] s h = s
take_responses-Succeeds c (r ∷ rs) s h =
    Succeeds-bind _ (λ c'. take_responses c' rs)
      (complete-Succeeds _ r.rob_index (broadcast-IsSafe c r.reg r.data_word s) h.0)
      (λ c' s'. take_responses-Succeeds c' rs s' h.1)

-- A state with other queues, memory and requests of a squash.
drained-IsSafe :
    (c : Core) (q : LoadStoreQueue) (m : MemoryOoo) (p : Squash)
    → IsSafe c
    → IsValid q
    → IsSafe (record c { lsq = q; memory = m; pending_squash = p })
drained-IsSafe c q m p s v = record {
  registers = s.registers;
  queues = v;
  waiting = s.waiting;
  running = s.running;
  missing = s.missing;
  answered = s.answered;
  decoded = s.decoded;
}

drain_stores-IsSafe : (c : Core) → IsSafe c → IsSafe (drain_stores c).1
unfolding drain_stores
drain_stores-IsSafe c s =
    drained-IsSafe c _ _ _ s (evict_commited_stores-IsValid c.lsq c.memory c.end_pc s.queues)

with_caches-IsSafe :
    (c : Core) (i d : NonBlockingCache) (m : MemoryOoo)
    → IsSafe c
    → AreMissesPlaced d
    → IsSafe (record c { i_nbc = i; d_nbc = d; memory = m })
with_caches-IsSafe c i d m s h = record {
  registers = s.registers;
  queues = s.queues;
  waiting = s.waiting;
  running = s.running;
  missing = h.missing;
  answered = h.answered;
  decoded = s.decoded;
}

-- Answering loads and draining stores keeps a safe processor safe, and uses no index -1.
pub memory_stage-Succeeds : (c : Core) → IsSafe c → Succeeds (memory_stage c)
unfolding memory_stage
memory_stage-Succeeds c s =
    let filled = check_ready c.i_nbc c.memory in
    let answered =
      check_ready-placed c.d_nbc filled.1 (record { missing = s.missing; answered = s.answered }) in
    Succeeds-bind _ _
      (take_responses-Succeeds _ _ (with_caches-IsSafe c filled.0 _ _ s answered) answered.answered)
      (λ c' s'. drain_stores-IsSafe _ (
        with_caches-IsSafe c' c'.i_nbc (record c'.d_nbc { ready_responses = [] }) c'.memory s'
          (record { missing = s'.missing; answered = tt })))

writeback_unit-Succeeds :
    (c : Core) (u : FunctionalUnit) → IsSafe c → UnitIsPlaced u → UnitSucceeds (writeback_unit c u)
unfolding writeback_unit
writeback_unit-Succeeds c u s h = elim (Bool-cases u.has_result) [
  | inr r ↦ simp r (s, h)
  | inl r ↦ simp r (
      after _ (
        complete-Succeeds told u.result_instr.rob_index
          (if-both IsSafe writes (broadcast-IsSafe c u.result_instr.rd u.result s) s)
          (h.finished r)))
]
  where
    writes : Bool
    writes = u.result_instr.control.reg_write && not (u.result_instr.rd == 0)

    told : Core
    told = if writes then broadcast c u.result_instr.rd u.result else c

    after :
        (o : Option Core)
        → Succeeds o
        → UnitSucceeds
            (elim o [ none ↦ none | some c'' ↦ some (c'', record u { has_result = false }) ])
    after none k = k
    after (some c'') k = (k, record { waiting = h.waiting; finished = λ e. cc })

writeback_units-Succeed :
    (c : Core) (us : List FunctionalUnit)
    → IsSafe c
    → All UnitIsPlaced us
    → UnitsSucceed (writeback_units c us)
unfolding writeback_units
writeback_units-Succeed c [] s h = (s, tt)
writeback_units-Succeed c (u ∷ us) s h =
    UnitsSucceed-cons (writeback_unit c u) (λ c'. writeback_units c' us)
      (writeback_unit-Succeeds c u s h.0) (λ c' s'. writeback_units-Succeed c' us s' h.1)

-- Writing back keeps a safe processor safe, and uses no index -1.
pub writeback_stage-Succeeds : (c : Core) → IsSafe c → Succeeds (writeback_stage c)
unfolding writeback_stage
writeback_stage-Succeeds c s =
    after (writeback_units c c.fu) (writeback_units-Succeed c c.fu s s.running)
  where
    after :
        (o : Option (Core × List FunctionalUnit))
        → UnitsSucceed o
        → Succeeds (elim o [ none ↦ none | some (c', us) ↦ some (record c' { fu = us }) ])
    after none h = h
    after (some (c', us)) h = with_units-IsSafe c' us h.0 h.1

retire_load-IsValid : (e : RobEntry) (q : LoadStoreQueue) → IsValid q → IsValid (retire_load e q)
retire_load-IsValid e q v = at_index e.load_index
  where
    at_index : (o : Option ℕ) → IsValid (elim o [ none ↦ q | some _ ↦ pop_load_head q ])
    at_index none = v
    at_index (some i) = pop_load_head-IsValid q v

retire_store-IsValid : (e : RobEntry) (q : LoadStoreQueue) → IsValid q → IsValid (retire_store e q)
retire_store-IsValid e q v = at_index e.store_index
  where
    at_index : (o : Option ℕ) → IsValid (elim o [ none ↦ q | some _ ↦ mark_store_complete q e.seq ])
    at_index none = v
    at_index (some i) = mark_store_complete-IsValid q e.seq v

commit-IsValid :
    (r : ReorderBuffer.ReorderBuffer) (p : PhysicalRegisterFile) (q : LoadStoreQueue)
    → IsValid q
    → IsValid (commit r p q).3
unfolding commit
commit-IsValid r p q v = elim (Bool-cases (ltb 0 r.size && (r.buffer r.head).completed)) [
  | inl e ↦
      rw e (retire_store-IsValid (r.buffer r.head) _ (retire_load-IsValid (r.buffer r.head) q v))
  | inr e ↦ rw e v
]

commit_one-IsSafe : (c : Core) → IsSafe c → IsSafe (commit_one c).1
unfolding commit_one
commit_one-IsSafe c s =
    let regs = commit-AreSound c.prf c.lsq s.registers in
    record {
      registers = record { valid = regs.valid; sound = regs.sound };
      queues = commit-IsValid c.rob c.prf c.lsq s.queues;
      waiting = s.waiting;
      running = s.running;
      missing = s.missing;
      answered = s.answered;
      decoded = s.decoded;
    }

commit_from-IsSafe : (n : ℕ) (c : Core) → IsSafe c → IsSafe (commit_from n c)
unfolding commit_from
commit_from-IsSafe zero c s = s
commit_from-IsSafe (suc n) c s =
    let one = commit_one-IsSafe c s in
    let drained = drain_stores-IsSafe (commit_one c).1 one in
    if-both IsSafe (commit_one c).0
      (if-both IsSafe
        ((drain_stores (commit_one c).1).0.smc_detected
          && is_older (commit_one c).1.pending_squash (drain_stores (commit_one c).1).0.smc_seq)
        drained (commit_from-IsSafe n _ drained))
      one

-- Committing keeps a safe processor safe.
pub commit_stage-IsSafe : (c : Core) → IsSafe c → IsSafe (commit_stage c)
unfolding commit_stage
commit_stage-IsSafe c s = commit_from-IsSafe pipeline_width c s
