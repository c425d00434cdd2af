-- ===== src/ReorderBuffer/Conservation.antt =====
-- Renaming, retiring and rolling back keep the register file consistent with the entries in flight:
-- no physical register is lost, and none is in two places.
use superscalar_oooprocessor.Base.{
  ℕ, zero, suc, ◌+◌, ◌<◌, ◌≡◌, ◌≢◌, refl, ap, subst, true, false, not, List, [], ◌∷◌, ◌++◌, map,
  ltb, ◌==◌, if◌then◌else◌, arith, Bool-cases, inl, inr, update, ne→==-false,
}
use superscalar_oooprocessor.Config.{num_physical_registers, num_architectural_registers}
use superscalar_oooprocessor.PhysicalRegisterFile.{
  PhysicalRegisterFile, init, count_up, reclaim, rollback_rename, update_commited_registers,
}
use superscalar_oooprocessor.ReorderBuffer.{RobEntry, rollback, retire_register}
use superscalar_oooprocessor.ReorderBuffer.Renaming.{
  Renaming, writes, one_if, occurs, held, tally, Chain, occurs-append, held-append, tally-update,
  Chain-snoc, Chain-unsnoc, Chain-held,
}

-- The speculative mapping follows from the committed one and the entries, and each of the 96
-- physical registers is exactly once on the free list, a destination in flight, or committed.
pub record IsConsistent (free : List ℕ) (committed regmap : ℕ → ℕ) (es : List Renaming)
    : Type 0 where
  pub chain : Chain committed es regmap
  pub conserved :
      (x : ℕ)
      → occurs x free + held x es + tally committed num_architectural_registers x
        ≡ one_if (ltb x num_physical_registers)

-- The register file is consistent with the entries.
abbrev pub IsSound : PhysicalRegisterFile → List Renaming → Type 0
IsSound p es = IsConsistent p.rename_pool p.commited_regmap p.regmap es

abbrev pub renaming_of : RobEntry → Renaming
renaming_of e = record { arch = e.dest_arch_reg; new = e.dest_phys_reg; old = e.old_phys_reg }

abbrev pub renamings : List RobEntry → List Renaming
renamings = map renaming_of

occurs-count_up :
    (x i n : ℕ) → occurs x (count_up i n) ≡ (if ltb x i then 0 else one_if (ltb x (i + n)))
unfolding occurs
occurs-count_up x i zero = ground arith
occurs-count_up x i (suc n) = ground (arith, occurs-count_up x (suc i) n)

tally-identity : (n x : ℕ) → tally (λ i. i) n x ≡ one_if (ltb x n)
unfolding tally
tally-identity zero x = ground arith
tally-identity (suc n) x = ground (arith, tally-identity n x)

-- The initial register file is consistent with an empty buffer.
pub init-IsSound : IsSound init []
unfolding init held
init-IsSound = record {
  chain = λ a. refl;
  conserved = λ x. ground (
    arith,
    occurs-count_up x num_architectural_registers 64,
    tally-identity num_architectural_registers x,
  );
}

-- An instruction that writes no register changes nothing when it enters.
pub quiet_enter :
    {free : List ℕ} {m r : ℕ → ℕ} {es : List Renaming} (e : Renaming)
    → writes e ≡ false
    → IsConsistent free m r es
    → IsConsistent free m r (es ++ (e ∷ []))
unfolding held
quiet_enter {m} {r} {es} e q s = record {
  chain = subst (Chain m (es ++ (e ∷ []))) (rw q refl) (Chain-snoc m es e r s.chain (λ w. cc));
  conserved = λ x. ground (arith, s.conserved x, held-append x es (e ∷ []));
}

-- A register that is mapped is not on the free list.
mapped-ne-free :
    {pool : List ℕ} {m r : ℕ → ℕ} {es : List Renaming} (a f : ℕ)
    → IsConsistent (f ∷ pool) m r es
    → a < num_architectural_registers
    → f ≢ r a
unfolding occurs
mapped-ne-free {m} {r} {es} a f s h same =
    let mapped = Chain-held m es r a s.chain h in ground (arith, s.conserved (r a))

-- Renaming a destination takes the register at the front of the free list.
pub assign_enter :
    {pool : List ℕ} {m r : ℕ → ℕ} {es : List Renaming} (a f : ℕ)
    → a < num_architectural_registers
    → IsConsistent (f ∷ pool) m r es
    → IsConsistent pool m (update r a f) (es ++ (record { arch = a; new = f; old = r a } ∷ []))
unfolding occurs held
assign_enter {m} {r} {es} a f h s = record {
  chain =
      subst (Chain m (es ++ (e ∷ []))) (rw w refl) (Chain-snoc m es e r s.chain (λ _. (h, refl)));
  conserved =
      λ x. ground (arith, s.conserved x, held-append x es (e ∷ []), ne→==-false f (r a) fresh);
}
  where
    e : Renaming
    e = record { arch = a; new = f; old = r a }

    fresh : f ≢ r a
    fresh = mapped-ne-free a f s h

    w : writes e ≡ true
    w = ap not (ne→==-false f (r a) fresh)

-- Retiring the oldest entry frees the register that its renaming replaced.
pub retire_oldest :
    {free : List ℕ} {m r : ℕ → ℕ} {es : List Renaming} (e : Renaming)
    → writes e ≡ true
    → IsConsistent free m r (e ∷ es)
    → IsConsistent (free ++ (e.old ∷ [])) (update m e.arch e.new) r es
unfolding occurs held
retire_oldest {free} {m} {r} {es} e w s = record {
  chain = subst (λ t. Chain t es r) (ap (λ b. if b then update m e.arch e.new else m) w) s.chain.1;
  conserved = λ x. ground (
    arith,
    s.conserved x,
    occurs-append x free (e.old ∷ []),
    tally-update m e.arch e.new num_architectural_registers x (s.chain.0 w).0,
    (s.chain.0 w).1,
  );
}

pub quiet_retire :
    {free : List ℕ} {m r : ℕ → ℕ} {es : List Renaming} (e : Renaming)
    → writes e ≡ false
    → IsConsistent free m r (e ∷ es)
    → IsConsistent free m r es
unfolding held
quiet_retire {m} {r} {es} e q s = record {
  chain = subst (λ t. Chain t es r) (ap (λ b. if b then update m e.arch e.new else m) q) s.chain.1;
  conserved = λ x. ground (arith, s.conserved x);
}

-- Rolling the youngest entry back puts its register in front of the free list.
pub roll_youngest :
    {free : List ℕ} {m r : ℕ → ℕ} {es : List Renaming} (e : Renaming)
    → writes e ≡ true
    → IsConsistent free m r (es ++ (e ∷ []))
    → IsConsistent (e.new ∷ free) m (update r e.arch e.old) es
unfolding occurs held
roll_youngest {m} {r} {es} e w s = record {
  chain = subst (Chain m es) (rw w refl) (Chain-unsnoc m es e r s.chain);
  conserved = λ x. ground (arith, s.conserved x, held-append x es (e ∷ []));
}

pub quiet_roll :
    {free : List ℕ} {m r : ℕ → ℕ} {es : List Renaming} (e : Renaming)
    → writes e ≡ false
    → IsConsistent free m r (es ++ (e ∷ []))
    → IsConsistent free m r es
unfolding held
quiet_roll {m} {r} {es} e q s = record {
  chain = subst (Chain m es) (rw q refl) (Chain-unsnoc m es e r s.chain);
  conserved = λ x. ground (arith, s.conserved x, held-append x es (e ∷ []));
}

-- `commit` retires the oldest entry.
pub retire_register-IsSound :
    (e : RobEntry) (p : PhysicalRegisterFile) (es : List Renaming)
    → IsSound p (renaming_of e ∷ es)
    → IsSound (retire_register e p) es
unfolding reclaim update_commited_registers
retire_register-IsSound e p es s = elim (Bool-cases (e.dest_phys_reg == e.old_phys_reg)) [
  | inl q ↦ rw q (quiet_retire (renaming_of e) (ap not q) s)
  | inr w ↦ rw w (retire_oldest (renaming_of e) (ap not w) s)
]

-- `squash` rolls the youngest entry back.
pub rollback-IsSound :
    (e : RobEntry) (p : PhysicalRegisterFile) (es : List Renaming)
    → IsSound p (es ++ (renaming_of e ∷ []))
    → IsSound (rollback e p) es
unfolding rollback_rename
rollback-IsSound e p es s = elim (Bool-cases (e.dest_phys_reg == e.old_phys_reg)) [
  | inl q ↦ rw q (quiet_roll (renaming_of e) (ap not q) s)
  | inr w ↦ rw w (roll_youngest (renaming_of e) (ap not w) s)
]
