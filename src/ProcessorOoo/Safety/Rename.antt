-- ===== src/ProcessorOoo/Safety/Rename.antt =====
-- `rename_stage` keeps the invariant and meets no undefined behaviour.
use superscalar_oooprocessor.Base.{
  ℕ, zero, suc, ◌<◌, ◌≡◌, Bool, true, false, Option, none, some, List, [], ◌∷◌, ◌++◌, leb, arith,
  Bool-cases, inl, inr, update, All, All-append, length,
}
use superscalar_oooprocessor.Config.{
  reorder_buffer_size, load_queue_size, store_queue_size, num_architectural_registers,
  pipeline_width,
}
use superscalar_oooprocessor.PhysicalRegisterFile.{PhysicalRegisterFile}
use superscalar_oooprocessor.LoadStoreQueue.{LoadStoreQueue, add_load, add_store}
use superscalar_oooprocessor.LoadStoreQueue.Bounds.{IsValid, set_load-IsValid, set_store-IsValid}
use superscalar_oooprocessor.ReorderBuffer
use superscalar_oooprocessor.ReorderBuffer.Conservation.{IsSound}
use superscalar_oooprocessor.ReorderBuffer.Sound.{live, insert-AreSound}
use superscalar_oooprocessor.InstructionQueue.{IqInstr}
use superscalar_oooprocessor.InstructionQueue
use superscalar_oooprocessor.ProcessorOoo.State.{Core, IdRn, free_id_rn}
use superscalar_oooprocessor.ProcessorOoo.Rename.{
  must_stall, rename_dest, rename_slot, rename_from, rename_stage, enter_lsq, backfill, dest_of,
  enter, rt_phys_of, rt_ready_of,
}
use superscalar_oooprocessor.ProcessorOoo.Safety.Invariant.{
  IsPlace, IsPlaced, SlotIsDecoded, IsSafe, Succeeds, Succeeds-bind,
}
use superscalar_oooprocessor.ProcessorOoo.Safety.Destination.{
  HasRoom, must_stall-HasRoom, DestSucceeds, rename_dest-Succeeds,
}

-- The two queues stay valid, and the index that the instruction needs is there.
enter_lsq-places :
    (q : LoadStoreQueue) (s : IdRn) (seq new rt : ℕ) (rt_ready : Bool)
    → IsValid q
    → (s.control.mem_read ≡ true → leb load_queue_size q.lq_size ≡ false)
    → (s.control.mem_write ≡ true → leb store_queue_size q.sq_size ≡ false)
    → let (load_index, store_index, q') = enter_lsq q s seq new rt rt_ready in
      IsValid q'
      × (s.control.mem_read ≡ true → IsPlace load_queue_size load_index)
      × (s.control.mem_read ≡ false
          → s.control.mem_write ≡ true
          → IsPlace store_queue_size store_index)
unfolding enter_lsq add_load add_store
enter_lsq-places q s seq new rt rt_ready v lq_room sq_room =
    (ground arith, λ e. ground arith, λ e w. ground arith)

backfill-IsValid :
    (q : LoadStoreQueue) (load_index store_index rob_index : Option ℕ)
    → IsValid q
    → IsValid (backfill q load_index store_index rob_index)
unfolding backfill
backfill-IsValid q none none k v = v
backfill-IsValid q (some i) none k v = set_load-IsValid q i _ v
backfill-IsValid q none (some j) k v = set_store-IsValid q j _ v
backfill-IsValid q (some i) (some j) k v =
    set_store-IsValid _ j _ (set_load-IsValid q i (record (q.lq i) { rob_index = k }) v)

insert-IsPlace :
    (r : ReorderBuffer.ReorderBuffer) (seq arch new old : ℕ) (load_index store_index : Option ℕ)
    → ReorderBuffer.Queue.IsValid r
    → leb reorder_buffer_size r.size ≡ false
    → IsPlace reorder_buffer_size (ReorderBuffer.insert r seq arch new old load_index store_index).0
unfolding ReorderBuffer.insert
insert-IsPlace r seq arch new old load_index store_index v room = ground arith

add-IsPlaced :
    (iq : List IqInstr) (i : IqInstr)
    → All IsPlaced iq
    → IsPlaced i
    → All IsPlaced (InstructionQueue.add iq i).1
unfolding InstructionQueue.add
add-IsPlaced iq i h hi = elim (Bool-cases (leb 32 (length iq))) [
  | inl full ↦ rw full h
  | inr room ↦ rw room (All-append IsPlaced iq (i ∷ []) h (hi, tt))
]

dest_in :
    (c : Core) (i : ℕ)
    → IsSafe c
    → (c.id_rn_buffer i).in_use ≡ true
    → dest_of (c.id_rn_buffer i) < num_architectural_registers
dest_in c i s used = ground (arith, s.decoded i used)

-- The instruction of a slot enters all structures at once.
enter-IsSafe :
    (c : Core) (i old new : ℕ) (p : PhysicalRegisterFile)
    → IsSafe c
    → HasRoom c (c.id_rn_buffer i)
    → IsSound p
        (live c.rob ++ (record { arch = dest_of (c.id_rn_buffer i); new = new; old = old } ∷ []))
    → IsSafe (enter c i old new p)
unfolding enter
enter-IsSafe c i old new p s room sound = record {
  registers =
      insert-AreSound c.next_seq (dest_of (c.id_rn_buffer i)) new old _ _ c.rob p s.registers.valid
        room.rob_room sound;
  queues = backfill-IsValid _ _ _ _ places.0;
  waiting = add-IsPlaced c.iq _ s.waiting (record {
    rob_place =
        insert-IsPlace c.rob c.next_seq (dest_of (c.id_rn_buffer i)) new old _ _ s.registers.valid
          room.rob_room;
    load_place = places.1;
    store_place = places.2;
  });
  running = s.running;
  missing = s.missing;
  answered = s.answered;
  decoded = λ k. cleared k;
}
  where
    places :
        let (load_index, store_index, q') =
          enter_lsq c.lsq
            (c.id_rn_buffer i)
            c.next_seq
            new
            (rt_phys_of c.prf (c.id_rn_buffer i))
            (rt_ready_of c.prf (c.id_rn_buffer i)) in
        IsValid q'
        × ((c.id_rn_buffer i).control.mem_read ≡ true → IsPlace load_queue_size load_index)
        × ((c.id_rn_buffer i).control.mem_read ≡ false
            → (c.id_rn_buffer i).control.mem_write ≡ true
            → IsPlace store_queue_size store_index)
    places =
        enter_lsq-places c.lsq (c.id_rn_buffer i) c.next_seq new _ _ s.queues room.lq_room
          room.sq_room

    cleared : (k : ℕ) → SlotIsDecoded (update c.id_rn_buffer i (free_id_rn (c.id_rn_buffer i)) k)
    cleared k used = ground (arith, s.decoded k)

rename_slot-Succeeds :
    (c : Core) (i : ℕ)
    → IsSafe c
    → (c.id_rn_buffer i).in_use ≡ true
    → HasRoom c (c.id_rn_buffer i)
    → Succeeds (rename_slot c i)
unfolding rename_slot DestSucceeds
rename_slot-Succeeds c i s used room = go (rename_dest c.prf (c.id_rn_buffer i)) (
    rename_dest-Succeeds c.prf (live c.rob) (c.id_rn_buffer i) s.registers.sound
      (dest_in c i s used) room.free_room)
  where
    go :
        (o : Option (ℕ × ℕ × PhysicalRegisterFile))
        → DestSucceeds c.prf (live c.rob) (c.id_rn_buffer i) o
        → Succeeds (elim o [ none ↦ none | some (old, new, p) ↦ some (enter c i old new p) ])
    go none h = h
    go (some (old, new, p)) h = enter-IsSafe c i old new p s room h

rename_from-Succeeds : (n i : ℕ) (c : Core) → IsSafe c → Succeeds (rename_from n i c)
unfolding rename_from
rename_from-Succeeds zero i c s = s
rename_from-Succeeds (suc n) i c s = elim (Bool-cases (c.id_rn_buffer i).in_use) [
  | inr unused ↦ rw (unused, rename_from) (rename_from-Succeeds n (suc i) c s)
  | inl used ↦ elim (Bool-cases (must_stall c (c.id_rn_buffer i))) [
    | inl stall ↦ rw (used, stall, rename_from) s
    | inr enters ↦
        rw (used, enters, rename_from)
          (Succeeds-bind (rename_slot c i) (rename_from n (suc i))
            (rename_slot-Succeeds c i s used (must_stall-HasRoom c (c.id_rn_buffer i) enters))
            (λ c' s'. rename_from-Succeeds n (suc i) c' s'))
  ]
]

-- Renaming never takes a register from an empty free list: from a safe state `rename_stage` ends in a
-- safe state.
pub rename_stage-Succeeds : (c : Core) → IsSafe c → Succeeds (rename_stage c)
unfolding rename_stage
rename_stage-Succeeds c s = rename_from-Succeeds pipeline_width 0 c s
