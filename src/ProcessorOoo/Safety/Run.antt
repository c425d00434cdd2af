-- ===== src/ProcessorOoo/Safety/Run.antt =====
-- `fetch_stage`, `decode_stage` and `out_of_order_advance` keep the invariant; a core that starts
-- with the constructor's state runs for as many cycles as one likes.
use superscalar_oooprocessor.Base.{
  ℕ, zero, suc, Option, none, some, leb, ◌==◌, arith, update, Bool-cases, Option-cases, inl, inr,
  All, if-both,
}
use superscalar_oooprocessor.Config.{pipeline_width}
use superscalar_oooprocessor.MemoryOoo.{MemoryOoo, access, reading}
use superscalar_oooprocessor.BranchPredictor.{is_branch}
use superscalar_oooprocessor.ProcessorOoo.{◌>>=◌, run, out_of_order_advance}
use superscalar_oooprocessor.ProcessorOoo.Rename.{rename_stage}
use superscalar_oooprocessor.ProcessorOoo.Dispatch.{dispatch_stage}
use superscalar_oooprocessor.ProcessorOoo.Execute.{execute_stage}
use superscalar_oooprocessor.ProcessorOoo.Retire.{memory_stage, writeback_stage, commit_stage}
use superscalar_oooprocessor.ProcessorOoo.State.{
  Core, IfId, IdRn, compact, move_slot, compact_id_rn, compact_if_id, free_id_rn,
}
use superscalar_oooprocessor.ProcessorOoo.Fetch.{fetch_from, fetch_stage}
use superscalar_oooprocessor.ProcessorOoo.Decode.{
  decode_slot, first_in_use, decode_from, decode_stage,
}
use superscalar_oooprocessor.Config.{num_alus, num_mshrs}
use superscalar_oooprocessor.LoadStoreQueue.Bounds
use superscalar_oooprocessor.ReorderBuffer
use superscalar_oooprocessor.ReorderBuffer.Queue.{init-IsValid}
use superscalar_oooprocessor.ReorderBuffer.Conservation.{init-IsSound}
use superscalar_oooprocessor.FunctionalUnits.{FunctionalUnit, init_units, init}
use superscalar_oooprocessor.NonBlockingCache.{MshrEntry, free_mshrs, initialize}
use superscalar_oooprocessor.ProcessorOoo.Start.{Garbage, start}
use superscalar_oooprocessor.ProcessorOoo.Safety.Invariant.{
  UnitIsPlaced, MshrIsPlaced, SlotIsDecoded, IsSafe, Succeeds, Succeeds-bind,
}
use superscalar_oooprocessor.ProcessorOoo.Safety.Rename.{rename_stage-Succeeds}
use superscalar_oooprocessor.ProcessorOoo.Safety.Dispatch.{dispatch_stage-Succeeds}
use superscalar_oooprocessor.ProcessorOoo.Safety.Execute.{execute_stage-Succeeds}
use superscalar_oooprocessor.ProcessorOoo.Safety.Retire.{
  memory_stage-Succeeds, writeback_stage-Succeeds, commit_stage-IsSafe,
}

-- What fetching changes.
fetched-IsSafe :
    (c : Core) (m : MemoryOoo) (pc : ℕ) (buf : ℕ → IfId)
    → IsSafe c
    → IsSafe (record c { memory = m; prf = record c.prf { pc = pc }; if_id_buffer = buf })
fetched-IsSafe c m pc buf s = record {
  registers = record { valid = s.registers.valid; sound = s.registers.sound };
  queues = s.queues;
  waiting = s.waiting;
  running = s.running;
  missing = s.missing;
  answered = s.answered;
  decoded = s.decoded;
}

fetch_from-IsSafe : (n i : ℕ) (c : Core) → IsSafe c → IsSafe (fetch_from n i c)
unfolding fetch_from
fetch_from-IsSafe zero i c s = s
fetch_from-IsSafe (suc n) i c s = if-both IsSafe (leb c.end_pc c.prf.pc) s (
    if-both IsSafe (access c.memory c.prf.pc 0 reading).0
      (if-both IsSafe (is_branch c.bp c.prf.pc) (fetched-IsSafe c _ _ _ s)
        (fetch_from-IsSafe n (suc i) _ (fetched-IsSafe c _ _ _ s)))
      (fetched-IsSafe c _ c.prf.pc c.if_id_buffer s))

-- Fetching keeps a safe processor safe.
fetch_stage-IsSafe : (c : Core) → IsSafe c → IsSafe (fetch_stage c)
unfolding fetch_stage
fetch_stage-IsSafe c s =
    fetch_from-IsSafe _ _ _ (fetched-IsSafe c c.memory c.prf.pc (compact_if_id c.if_id_buffer).1 s)

pub decode_slot-IsDecoded : (s : IfId) → SlotIsDecoded (decode_slot s)
unfolding decode_slot
decode_slot-IsDecoded s e = omega arith

update-IsDecoded :
    (buf : ℕ → IdRn) (i : ℕ) (s : IdRn)
    → ((j : ℕ) → SlotIsDecoded (buf j))
    → SlotIsDecoded s
    → (j : ℕ) → SlotIsDecoded (update buf i s j)
update-IsDecoded buf i s h hs j = if-both SlotIsDecoded (j == i) hs (h j)

free-IsDecoded : (s : IdRn) → SlotIsDecoded (free_id_rn s)
free-IsDecoded s e = cc

-- Moving slots together keeps what each slot satisfies.
compact-IsDecoded :
    (n r w : ℕ) (buf : ℕ → IdRn)
    → ((j : ℕ) → SlotIsDecoded (buf j))
    → (j : ℕ) → SlotIsDecoded ((compact (λ (s : IdRn). s.in_use) free_id_rn n r w buf).1 j)
unfolding compact
compact-IsDecoded zero r w buf h = h
compact-IsDecoded (suc n) r w buf h = elim (Bool-cases (buf r).in_use) [
  | inr e ↦ rw (e, compact) (compact-IsDecoded n (suc r) w buf h)
  | inl e ↦ rw (e, compact) (compact-IsDecoded n (suc r) (suc w) _ moved)
]
  where
    moved : (j : ℕ) → SlotIsDecoded (move_slot (λ (s : IdRn). s.in_use) free_id_rn r w buf j)
    moved j =
        if-both (λ (f : ℕ → IdRn). SlotIsDecoded (f j)) (w == r) (h j)
          (update-IsDecoded (update buf w (buf r)) r (free_id_rn (buf r))
            (update-IsDecoded buf w (buf r) h (h r)) (free-IsDecoded (buf r)) j)

compact_id_rn-IsDecoded :
    (buf : ℕ → IdRn)
    → ((j : ℕ) → SlotIsDecoded (buf j))
    → (j : ℕ) → SlotIsDecoded ((compact_id_rn buf).1 j)
unfolding compact_id_rn
compact_id_rn-IsDecoded buf h = compact-IsDecoded pipeline_width 0 0 buf h

decode_from-IsDecoded :
    (n i : ℕ) (if_id : ℕ → IfId) (id_rn : ℕ → IdRn)
    → ((j : ℕ) → SlotIsDecoded (id_rn j))
    → (j : ℕ) → SlotIsDecoded ((decode_from n i if_id id_rn).1 j)
unfolding decode_from
decode_from-IsDecoded zero i if_id id_rn h = h
decode_from-IsDecoded (suc n) i if_id id_rn h = elim (Bool-cases (id_rn i).in_use) [
  | inl e ↦ rw (e, decode_from) (decode_from-IsDecoded n (suc i) if_id id_rn h)
  | inr e ↦ elim (Option-cases (first_in_use if_id pipeline_width 0)) [
    | inl f ↦ rw (e, f, decode_from) h
    | inr (src, f) ↦
        rw (e, f, decode_from)
          (decode_from-IsDecoded n (suc i) _ _
            (update-IsDecoded id_rn i _ h (decode_slot-IsDecoded (if_id src))))
  ]
]

-- Decoding keeps a safe processor safe: what it puts in a slot has register numbers of five bits.
decode_stage-IsSafe : (c : Core) → IsSafe c → IsSafe (decode_stage c)
unfolding decode_stage
decode_stage-IsSafe c s = record {
  registers = s.registers;
  queues = s.queues;
  waiting = s.waiting;
  running = s.running;
  missing = s.missing;
  answered = s.answered;
  decoded =
      decode_from-IsDecoded pipeline_width 0 _ _ (compact_id_rn-IsDecoded c.id_rn_buffer s.decoded);
}

-- A cycle of a safe processor happens: no stage indexes an array with -1, takes a register from the
-- empty free list or reads the issue queue out of range; and the processor is safe again.
pub out_of_order_advance-Succeeds : (c : Core) → IsSafe c → Succeeds (out_of_order_advance c)
unfolding out_of_order_advance
out_of_order_advance-Succeeds c s =
    bound (writeback_stage (commit_stage c)) (writeback_stage-Succeeds _ (commit_stage-IsSafe c s))
      _
      (λ c1 s1. bound (memory_stage c1) (memory_stage-Succeeds c1 s1) _ (λ c2 s2.
        bound (execute_stage c2) (execute_stage-Succeeds c2 s2) _ (λ c3 s3.
          bound (dispatch_stage c3) (dispatch_stage-Succeeds c3 s3) _ (λ c4 s4.
            bound (rename_stage c4) (rename_stage-Succeeds c4 s4) _
              (λ c5 s5. fetch_stage-IsSafe _ (decode_stage-IsSafe c5 s5))))))
  where
    bound :
        (o : Option Core)
        → Succeeds o
        → (f : Core → Option Core) → ((c : Core) → IsSafe c → Succeeds (f c))
        → Succeeds (o >>= f)
    bound none h f k = h
    bound (some c) h f k = k c h

free_mshrs-placed : (n : ℕ) (entries : ℕ → MshrEntry) → All MshrIsPlaced (free_mshrs n entries)
free_mshrs-placed zero entries = tt
free_mshrs-placed (suc n) entries = (tt, free_mshrs-placed n entries)

init_units-placed : (n : ℕ) (units : ℕ → FunctionalUnit) → All UnitIsPlaced (init_units n units)
init_units-placed zero units = tt
init_units-placed (suc n) units =
    (record { waiting = λ e. cc; finished = λ e. cc }, init_units-placed n units)

-- The core starts in a safe state, whatever its uninitialised arrays hold.
pub start-IsSafe : (g : Garbage) (m : MemoryOoo) (end_pc : ℕ) → IsSafe (start g m end_pc)
unfolding start init initialize ReorderBuffer.init
start-IsSafe g m end_pc = record {
  registers = record { valid = init-IsValid g.rob; sound = init-IsSound };
  queues = Bounds.init-IsValid g.load g.store;
  waiting = tt;
  running = init_units-placed num_alus g.units;
  missing = free_mshrs-placed num_mshrs g.d_mshr;
  answered = tt;
  decoded = λ i e. cc;
}

run-Succeeds : (n : ℕ) (c : Core) → IsSafe c → Succeeds (run n c)
unfolding run
run-Succeeds zero c s = s
run-Succeeds (suc n) c s =
    Succeeds-bind _ (run n) (out_of_order_advance-Succeeds c s) (λ c' s'. run-Succeeds n c' s')

-- From the start, any number of cycles can be run over any memory and whatever the uninitialised
-- arrays hold: no cycle indexes an array with -1, takes a register from an empty free list or
-- reads the issue queue out of range; and the invariant holds after the last cycle.
pub run-start :
    (n : ℕ) (g : Garbage) (m : MemoryOoo) (end_pc : ℕ) → Succeeds (run n (start g m end_pc))
run-start n g m end_pc = run-Succeeds n (start g m end_pc) (start-IsSafe g m end_pc)
