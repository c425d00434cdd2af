-- ===== src/ReorderBuffer/Squash.antt =====
-- `ReorderBuffer::squash` as a filter of the entries by their sequence number.
use mathlib.Core.List.{append-nil}
use superscalar_oooprocessor.Base.{
  ℕ, zero, suc, ◌+◌, ◌-◌, ◌%◌, ◌≤◌, ◌≡◌, refl, sym, ap, subst, ◌∙◌, Bool, true, false, List, [],
  ◌∷◌, ◌++◌, ltb, leb, arith, Bool-cases, keep, keep-append, keep-all, keep-none, All, All-map,
  All-append, All-append_left, All-append_right, window, window-unpush, window-size, inl, inr,
}
use superscalar_oooprocessor.Config.{reorder_buffer_size}
use superscalar_oooprocessor.PhysicalRegisterFile.{PhysicalRegisterFile}
use superscalar_oooprocessor.ReorderBuffer.{RobEntry, ReorderBuffer, squash, squash_from, rollback}
use superscalar_oooprocessor.ReorderBuffer.Queue.{IsValid, contents}

-- The sequence numbers do not fall from the oldest entry to the youngest.
abbrev pub IsAscending : List RobEntry → Type 0
IsAscending [] = Unit
IsAscending (e ∷ es) = All (λ x. e.seq ≤ x.seq) es × IsAscending es

-- The oldest entries before the youngest one.
IsAscending-last :
    (es : List RobEntry) (e : RobEntry)
    → IsAscending (es ++ (e ∷ []))
    → IsAscending es × All (λ x. x.seq ≤ e.seq) es
IsAscending-last [] e h = (tt, tt)
IsAscending-last (x ∷ es) e h =
    let rest = IsAscending-last es e h.1 in
    (
      (All-append_left (λ y. x.seq ≤ y.seq) es (e ∷ []) h.0, rest.0),
      ((All-append_right (λ y. x.seq ≤ y.seq) es (e ∷ []) h.0).0, rest.1),
    )

-- The register file after the entries of a list are rolled back, the youngest one first.
abbrev pub undo : List RobEntry → PhysicalRegisterFile → PhysicalRegisterFile
undo [] p = p
undo (e ∷ es) p = rollback e (undo es p)

undo-append :
    (es : List RobEntry) (e : RobEntry) (p : PhysicalRegisterFile)
    → undo (es ++ (e ∷ [])) p ≡ undo es (rollback e p)
undo-append [] e p = refl
undo-append (x ∷ es) e p = ap (rollback x) (undo-append es e p)

abbrev pub is_kept : ℕ → RobEntry → Bool
is_kept branch_seq e = leb e.seq branch_seq

abbrev pub is_younger : ℕ → RobEntry → Bool
is_younger branch_seq e = ltb branch_seq e.seq

-- What `squash` leaves, as a statement about the entries before.
pub record IsSquashed (b : ℕ) (es : List RobEntry) (p : PhysicalRegisterFile)
    (out : ReorderBuffer × PhysicalRegisterFile) : Type 0 where
  pub valid : IsValid out.0
  pub kept : contents out.0 ≡ keep (is_kept b) es
  pub undone : out.1 ≡ undo (keep (is_younger b) es) p

-- The youngest entry, by way of the tail.
pub last_entry :
    (n : ℕ) {r : ReorderBuffer}
    → IsValid r
    → r.size ≡ suc n
    → contents r
      ≡ window reorder_buffer_size r.buffer r.head n
        ++ (r.buffer ((r.tail + reorder_buffer_size - 1) % reorder_buffer_size) ∷ [])
last_entry n {r} v e =
    window-size reorder_buffer_size r.buffer r.head e
    ∙ window-unpush reorder_buffer_size r.buffer r.head n
    ∙ ap (λ k. window reorder_buffer_size r.buffer r.head n ++ (r.buffer k ∷ [])) place
  where
    place :
        (r.head + n) % reorder_buffer_size
        ≡ (r.tail + reorder_buffer_size - 1) % reorder_buffer_size
    place = omega arith

module _ (b : ℕ) (es : List RobEntry) (e : RobEntry) where
  all_old :
      leb e.seq b ≡ true → IsAscending (es ++ (e ∷ [])) → All (λ x. x.seq ≤ b) (es ++ (e ∷ []))
  all_old old h =
      let last : e.seq ≤ b = ground arith in
      All-append (λ x. x.seq ≤ b) es (e ∷ [])
        (All-map es (λ x le. omega arith) (IsAscending-last es e h).1) (last, tt)

  keep_old_last :
      leb e.seq b ≡ true
      → IsAscending (es ++ (e ∷ []))
      → keep (is_kept b) (es ++ (e ∷ [])) ≡ es ++ (e ∷ [])
  keep_old_last old h =
      keep-all (is_kept b) (es ++ (e ∷ []))
        (All-map (es ++ (e ∷ [])) (λ x le. ground arith) (all_old old h))

  drop_old_last :
      leb e.seq b ≡ true → IsAscending (es ++ (e ∷ [])) → keep (is_younger b) (es ++ (e ∷ [])) ≡ []
  drop_old_last old h =
      keep-none (is_younger b) (es ++ (e ∷ []))
        (All-map (es ++ (e ∷ [])) (λ x le. ground arith) (all_old old h))

  keep_young_last : leb e.seq b ≡ false → keep (is_kept b) (es ++ (e ∷ [])) ≡ keep (is_kept b) es
  keep_young_last young =
      keep-append (is_kept b) es (e ∷ []) ∙ rw young (append-nil (keep (is_kept b) es))

  drop_young_last :
      leb e.seq b ≡ false
      → keep (is_younger b) (es ++ (e ∷ [])) ≡ keep (is_younger b) es ++ (e ∷ [])
  drop_young_last young =
      let is_young : ltb b e.seq ≡ true = ground arith in
      keep-append (is_younger b) es (e ∷ []) ∙ rw is_young refl

squash_from-IsSquashed :
    (n b : ℕ) {r : ReorderBuffer} (p : PhysicalRegisterFile) (es : List RobEntry)
    → IsValid r
    → r.size ≡ n
    → contents r ≡ es
    → IsAscending es
    → IsSquashed b es p (squash_from n b r p)
unfolding squash_from
squash_from-IsSquashed zero b {r} p es v e c asc =
    let c' : es ≡ [] = sym c ∙ window-size reorder_buffer_size r.buffer r.head e in
    rw c' (record { valid = v; kept = c ∙ c'; undone = refl })
squash_from-IsSquashed (suc n) b {r} p es v e c asc = elim (Bool-cases (leb last.seq b)) [
  | inl old ↦
      rw (split, old)
        (record {
          valid = v;
          kept = c ∙ split ∙ sym (keep_old_last b older last old asc');
          undone = ap (λ t. undo t p) (sym (drop_old_last b older last old asc'));
        })
  | inr young ↦
      (let ih : IsSquashed b older (rollback last p) (squash_from n b shorter (rollback last p)) =
          squash_from-IsSquashed n b {r = shorter} (rollback last p) older shorter-IsValid
            (omega arith) (window-size reorder_buffer_size r.buffer r.head (omega arith))
            (IsAscending-last older last asc').0 in
        rw (split, young)
          (record {
            valid = ih.valid;
            kept = ih.kept ∙ sym (keep_young_last b older last young);
            undone =
                ih.undone
                ∙ sym (undo-append (keep (is_younger b) older) last p)
                ∙ ap (λ t. undo t p) (sym (drop_young_last b older last young));
          }))
]
  where
    last : RobEntry
    last = r.buffer ((r.tail + reorder_buffer_size - 1) % reorder_buffer_size)

    older : List RobEntry
    older = window reorder_buffer_size r.buffer r.head n

    shorter : ReorderBuffer
    shorter = record r {
      tail = (r.tail + reorder_buffer_size - 1) % reorder_buffer_size;
      size = r.size - 1;
    }

    shorter-IsValid : IsValid shorter
    shorter-IsValid = omega arith

    split : es ≡ older ++ (last ∷ [])
    split = sym c ∙ last_entry n v e

    asc' : IsAscending (older ++ (last ∷ []))
    asc' = subst IsAscending split asc

-- On a valid buffer whose sequence numbers do not fall, `squash` keeps exactly the entries that are
-- not younger than the branch, in their order, rolls the renaming of all the others back, the
-- youngest first, and leaves the buffer valid.
pub squash_lem :
    (b : ℕ) {r : ReorderBuffer} (p : PhysicalRegisterFile)
    → IsValid r
    → IsAscending (contents r)
    → IsSquashed b (contents r) p (squash r b p)
unfolding squash
squash_lem b {r} p v asc = squash_from-IsSquashed r.size b p (contents r) v refl refl asc
