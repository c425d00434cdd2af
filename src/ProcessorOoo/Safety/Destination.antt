-- ===== src/ProcessorOoo/Safety/Destination.antt =====
-- The destination of a renamed instruction (`rename_stage` of processorOOO.cpp) past the two `break`s.
use superscalar_oooprocessor.Base.{
  ℕ, ◌<◌, ◌≡◌, refl, subst, true, false, Option, none, some, List, [], ◌∷◌, ◌++◌, leb, arith,
  Bool-cases, inl, inr, update,
}
use superscalar_oooprocessor.Config.{
  reorder_buffer_size, load_queue_size, store_queue_size, num_architectural_registers,
}
use superscalar_oooprocessor.PhysicalRegisterFile.{
  PhysicalRegisterFile, has_free_phys_reg, assign_mapping, get_mapping,
}
use superscalar_oooprocessor.LoadStoreQueue.{lq_full, sq_full}
use superscalar_oooprocessor.ReorderBuffer
use superscalar_oooprocessor.ReorderBuffer.Renaming.{Renaming}
use superscalar_oooprocessor.ReorderBuffer.Conservation.{
  IsSound, IsConsistent, quiet_enter, assign_enter,
}
use superscalar_oooprocessor.ProcessorOoo.State.{Core, IdRn}
use superscalar_oooprocessor.ProcessorOoo.Rename.{must_stall, rename_dest, dest_of, writes_reg}

-- What the two `break`s rule out.
pub record HasRoom (c : Core) (s : IdRn) : Type 0 where
  pub rob_room : leb reorder_buffer_size c.rob.size ≡ false
  pub lq_room : s.control.mem_read ≡ true → leb load_queue_size c.lsq.lq_size ≡ false
  pub sq_room : s.control.mem_write ≡ true → leb store_queue_size c.lsq.sq_size ≡ false
  pub free_room : writes_reg s ≡ true → has_free_phys_reg c.prf ≡ true

pub must_stall-HasRoom : (c : Core) (s : IdRn) → must_stall c s ≡ false → HasRoom c s
unfolding must_stall ReorderBuffer.full lq_full sq_full
must_stall-HasRoom c s h = record {
  rob_room = ground arith;
  lq_room = λ e. ground arith;
  sq_room = λ e. ground arith;
  free_room = λ e. ground arith;
}

-- With a free register, renaming the destination succeeds and stays consistent with the entry that
-- goes into the reorder buffer.
unfoldable pub DestSucceeds :
    PhysicalRegisterFile → List Renaming → IdRn → Option (ℕ × ℕ × PhysicalRegisterFile) → Type 0
DestSucceeds p es s none = ⊥
DestSucceeds p es s (some (old, new, p')) =
    IsSound p' (es ++ (record { arch = dest_of s; new = new; old = old } ∷ []))

-- The register that a renaming takes.
assign_mapping-front :
    (p : PhysicalRegisterFile) (a : ℕ) (free : List ℕ)
    → p.rename_pool ≡ free
    → has_free_phys_reg p ≡ true
    → (f : ℕ) × (pool : List ℕ) × (p.rename_pool ≡ f ∷ pool)
      × (p' : PhysicalRegisterFile) × (assign_mapping p a ≡ some (f, p'))
      × (p'.rename_pool ≡ pool)
      × (p'.regmap ≡ update p.regmap a f)
      × (p'.commited_regmap ≡ p.commited_regmap)
unfolding assign_mapping has_free_phys_reg
assign_mapping-front p a [] e h = absurd (ground arith)
assign_mapping-front p a (f ∷ pool) e h = (
  f,
  pool,
  e,
  record p {
    rename_pool = pool;
    regmap = update p.regmap a f;
    r = update p.r f (record (p.r f) { ready = false });
  },
  rw e refl,
  refl,
  refl,
  refl,
)

pub rename_dest-Succeeds :
    (p : PhysicalRegisterFile) (es : List Renaming) (s : IdRn)
    → IsSound p es
    → dest_of s < num_architectural_registers
    → (writes_reg s ≡ true → has_free_phys_reg p ≡ true)
    → DestSucceeds p es s (rename_dest p s)
unfolding rename_dest DestSucceeds get_mapping
rename_dest-Succeeds p es s sound h room = elim (Bool-cases (writes_reg s)) [
  | inl w ↦
      (let (f, pool, e, p', assigned, pool', regmap', committed') =
          assign_mapping-front p (dest_of s) p.rename_pool refl (room w) in
        rw (w, assigned, pool', regmap', committed')
          (assign_enter (dest_of s) f h
            (subst (λ t. IsConsistent t p.commited_regmap p.regmap es) e sound)))
  | inr q ↦ rw q (quiet_enter _ refl sound)
]
