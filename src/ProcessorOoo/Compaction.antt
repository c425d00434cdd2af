-- ===== src/ProcessorOoo/Compaction.antt =====
-- The loops of `fetch_stage` and `decode_stage` that compact a pipeline register (processorOOO.cpp)
-- keep its instructions, in program order.
use superscalar_oooprocessor.Base.{
  ℕ, zero, suc, ◌+◌, ◌≤◌, ◌<◌, ◌≡◌, refl, sym, ap, ap₂, subst, ◌∙◌, Bool, false, List, [], ◌∷◌,
  ◌++◌, arith, keep, slots, slots-ext, slots-snoc, Bool-cases, inl, inr,
}
use mathlib.Core.List.{append_assoc, append-nil}
use superscalar_oooprocessor.Config.{pipeline_width}
use superscalar_oooprocessor.ProcessorOoo.State.{
  IfId, IdRn, compact, move_slot, free_if_id, free_id_rn, compact_if_id, compact_id_rn,
}

-- The first `w` slots hold `xs`, and the others up to `limit` are free.
pub record Holds {A : Type 0} (in_use : A → Bool) (limit : ℕ) (xs : List A) (w : ℕ) (buf : ℕ → A)
    : Type 0 where
  pub packed : slots buf 0 w ≡ xs
  pub rest_free : (j : ℕ) → w ≤ j → j < limit → in_use (buf j) ≡ false

module _ {A : Type 0} (in_use : A → Bool) (free : A → A) where
  -- What one move does to each slot.
  move_slot-before :
      (r w : ℕ) (buf : ℕ → A) (j : ℕ) → w ≤ r → j < w → move_slot in_use free r w buf j ≡ buf j
  move_slot-before r w buf j le h = ground arith

  move_slot-at : (r w : ℕ) (buf : ℕ → A) → w ≤ r → move_slot in_use free r w buf w ≡ buf r
  move_slot-at r w buf le = ground arith

  move_slot-after :
      (r w : ℕ) (buf : ℕ → A) (j : ℕ) → w ≤ r → r < j → move_slot in_use free r w buf j ≡ buf j
  move_slot-after r w buf j le h = ground arith

  move_slot-between :
      (r w : ℕ) (buf : ℕ → A) (j : ℕ)
      → ((a : A) → in_use (free a) ≡ false)
      → ((j : ℕ) → w ≤ j → j < r → in_use (buf j) ≡ false)
      → w < j
      → j < suc r
      → in_use (move_slot in_use free r w buf j) ≡ false
  move_slot-between r w buf j frees h hw hr = let f = frees (buf r) in let k = h j in ground arith

  move_slot-packed :
      (n r w : ℕ) (buf : ℕ → A)
      → w ≤ r
      → slots (move_slot in_use free r w buf) 0 (suc w)
          ++ keep in_use (slots (move_slot in_use free r w buf) (suc r) n)
        ≡ slots buf 0 w ++ (buf r ∷ keep in_use (slots buf (suc r) n))
  move_slot-packed n r w buf le =
      ap₂ ◌++◌
        (slots-snoc moved 0 w
          ∙ ap₂ (λ xs x. xs ++ (x ∷ []))
              (slots-ext moved buf 0 w (λ k a b. move_slot-before r w buf k le (omega arith)))
              (ap moved (omega arith) ∙ move_slot-at r w buf le))
        (ap (keep in_use) (slots-ext moved buf (suc r) n (λ k a b. move_slot-after r w buf k le a)))
      ∙ append_assoc (slots buf 0 w) (buf r ∷ []) _
    where
      moved : ℕ → A
      moved = move_slot in_use free r w buf

  compact-Holds :
      (n r w limit : ℕ) (buf : ℕ → A)
      → ((a : A) → in_use (free a) ≡ false)
      → w ≤ r
      → ((j : ℕ) → w ≤ j → j < r → in_use (buf j) ≡ false)
      → limit ≡ r + n
      → Holds in_use limit
          (slots buf 0 w ++ keep in_use (slots buf r n))
          (compact in_use free n r w buf).0
          (compact in_use free n r w buf).1
  unfolding compact
  compact-Holds zero r w limit buf frees le h eq = record {
    packed = sym (append-nil _);
    rest_free = λ j a b. h j a (omega arith);
  }
  compact-Holds (suc n) r w limit buf frees le h eq = elim (Bool-cases (in_use (buf r))) [
    | inl e ↦
        rw (e, compact)
          (subst
            (λ xs.
              Holds in_use limit xs (compact in_use free n (suc r) (suc w) moved).0
                (compact in_use free n (suc r) (suc w) moved).1)
            (move_slot-packed n r w buf le)
            (compact-Holds n (suc r) (suc w) limit moved frees (omega arith)
              (λ j a b. move_slot-between r w buf j frees h a b) (omega arith)))
    | inr e ↦
        rw (e, compact)
          (subst
            (λ xs.
              Holds in_use limit xs (compact in_use free n (suc r) w buf).0
                (compact in_use free n (suc r) w buf).1)
            refl
            (compact-Holds n (suc r) w limit buf frees (omega arith)
              (λ j a b. let k = h j a in ground arith) (omega arith)))
  ]
    where
      moved : ℕ → A
      moved = move_slot in_use free r w buf

-- The instructions that are fetched and not yet decoded, in program order.
abbrev pub fetched : (ℕ → IfId) → List IfId
fetched buf = keep (λ s. s.in_use) (slots buf 0 pipeline_width)

abbrev pub decoded : (ℕ → IdRn) → List IdRn
decoded buf = keep (λ s. s.in_use) (slots buf 0 pipeline_width)

-- The compaction of the fetched instructions puts those in use into the first slots, in the order
-- they had, reports their number and leaves the other slots free.
pub compact_if_id_lem :
    (buf : ℕ → IfId)
    → Holds
        (λ (s : IfId). s.in_use)
        pipeline_width
        (fetched buf)
        (compact_if_id buf).0
        (compact_if_id buf).1
unfolding compact_if_id
compact_if_id_lem buf =
    compact-Holds (λ s. s.in_use) free_if_id pipeline_width 0 0 pipeline_width buf (λ s. refl)
      (omega arith) (λ j a b. ground arith) refl

-- The compaction of the decoded instructions does the same.
pub compact_id_rn_lem :
    (buf : ℕ → IdRn)
    → Holds
        (λ (s : IdRn). s.in_use)
        pipeline_width
        (decoded buf)
        (compact_id_rn buf).0
        (compact_id_rn buf).1
unfolding compact_id_rn
compact_id_rn_lem buf =
    compact-Holds (λ s. s.in_use) free_id_rn pipeline_width 0 0 pipeline_width buf (λ s. refl)
      (omega arith) (λ j a b. ground arith) refl
