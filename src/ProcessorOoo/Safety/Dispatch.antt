-- ===== src/ProcessorOoo/Safety/Dispatch.antt =====
-- `dispatch_stage` ends, keeps the invariant, and asks the queue for no index out of range.
use superscalar_oooprocessor.Base.{
  ℕ, zero, suc, ◌+◌, ◌<◌, ◌≡◌, refl, inl, inr, some, [], ◌∷◌, arith, Bool-cases, length, get_elem?,
  remove_at, length-remove_at, get_elem?-lt, All, All-remove_at, All-get_elem?,
}
use superscalar_oooprocessor.InstructionQueue.{IqInstr, InstructionQueue, get, remove}
use superscalar_oooprocessor.InstructionQueue.Select.{get_oldest_ready-get_elem?}
use superscalar_oooprocessor.FunctionalUnits.{FunctionalUnits, issue_to_unit, full}
use superscalar_oooprocessor.ProcessorOoo.State.{Core}
use superscalar_oooprocessor.ProcessorOoo.Dispatch.{dispatch_one, dispatch_from, dispatch_stage}
use superscalar_oooprocessor.ProcessorOoo.Safety.Invariant.{
  IsPlaced, UnitIsPlaced, IsSafe, Succeeds,
}

issue-placed :
    (us : FunctionalUnits) (i : IqInstr)
    → All UnitIsPlaced us
    → IsPlaced i
    → All UnitIsPlaced (issue_to_unit us i).1
unfolding issue_to_unit
issue-placed [] i h p = tt
issue-placed (u ∷ us) i h p = elim (Bool-cases u.ready) [
  | inl ready ↦ rw ready (record { waiting = λ _. p; finished = h.0.finished }, h.1)
  | inr busy ↦ simp busy (h.0, issue-placed us i h.1 p)
]

remove-remove_at :
    (iq : InstructionQueue) (i : ℕ) → i < length iq → (remove iq i).1 ≡ remove_at iq i
unfolding remove
remove-remove_at iq i h = ground arith

-- One round takes one instruction out of the queue.
dispatch_one-IsSafe :
    (c : Core) (index : ℕ) (x : IqInstr)
    → IsSafe c
    → get_elem? c.iq index ≡ some x
    → (c' : Core) × (dispatch_one c index ≡ some c') × IsSafe c' × (length c'.iq + 1 ≡ length c.iq)
unfolding dispatch_one get
dispatch_one-IsSafe c index x s at = (
  record c { iq = (remove c.iq index).1; fu = (issue_to_unit c.fu x).1 },
  rw (at, dispatch_one, get) refl,
  record {
    registers = s.registers;
    queues = s.queues;
    waiting = rw taken (All-remove_at IsPlaced c.iq index s.waiting);
    running = issue-placed c.fu x s.running (All-get_elem? IsPlaced c.iq index s.waiting at);
    missing = s.missing;
    answered = s.answered;
    decoded = s.decoded;
  },
  rw taken (length-remove_at c.iq index (get_elem?-lt c.iq index at)),
)
  where
    taken : (remove c.iq index).1 ≡ remove_at c.iq index
    taken = remove-remove_at c.iq index (get_elem?-lt c.iq index at)

dispatch_from-Succeeds :
    (n : ℕ) (c : Core) → length c.iq < n → IsSafe c → Succeeds (dispatch_from n c)
unfolding dispatch_from
dispatch_from-Succeeds zero c h s = elim h [ ]
dispatch_from-Succeeds (suc n) c h s = elim (Bool-cases (full c.fu)) [
  | inl busy ↦ rw (busy, dispatch_from) s
  | inr free ↦ elim (get_oldest_ready-get_elem? c.lsq c.iq) [
    | inl e ↦ rw (free, e, dispatch_from) s
    | inr (i, x, e, at) ↦
        (let (c', step, s', shorter) = dispatch_one-IsSafe c i x s at in
          rw (free, e, step, dispatch_from) (dispatch_from-Succeeds n c' (omega arith) s'))
  ]
]

-- The loop of `dispatch_stage` ends, since each round takes an instruction out of the queue; from a
-- safe state it ends in a safe state, with no index out of range.
pub dispatch_stage-Succeeds : (c : Core) → IsSafe c → Succeeds (dispatch_stage c)
unfolding dispatch_stage
dispatch_stage-Succeeds c s = dispatch_from-Succeeds (suc (length c.iq)) c (omega arith) s
