-- ===== src/ReorderBuffer/Sound.antt =====
-- The operations of the reorder buffer keep it valid, and the register file consistent with it.
use mathlib.Core.List.{map-append}
use superscalar_oooprocessor.Base.{
  ℕ, zero, suc, ◌+◌, ◌-◌, ◌%◌, ◌≡◌, refl, sym, ap, subst, ◌∙◌, true, false, ◌&&◌, Option, List, [],
  ◌∷◌, ◌++◌, ltb, leb, arith, Bool-cases, inl, inr, update, slots-ext, map-slots,
}
use superscalar_oooprocessor.Config.{reorder_buffer_size}
use superscalar_oooprocessor.PhysicalRegisterFile.{PhysicalRegisterFile}
use superscalar_oooprocessor.LoadStoreQueue.{LoadStoreQueue}
use superscalar_oooprocessor.ReorderBuffer.{
  RobEntry, ReorderBuffer, insert, squash, squash_from, rollback, commit, set_ready,
}
use superscalar_oooprocessor.ReorderBuffer.Queue.{
  IsValid, contents, fresh, insert-IsValid, contents-insert_room, window_head,
}
use superscalar_oooprocessor.ReorderBuffer.Squash.{last_entry}
use superscalar_oooprocessor.ReorderBuffer.Renaming.{Renaming}
use superscalar_oooprocessor.ReorderBuffer.Conservation.{
  IsSound, renaming_of, renamings, retire_register-IsSound, rollback-IsSound,
}

abbrev pub live : ReorderBuffer → List Renaming
live r = renamings (contents r)

-- The buffer is valid, and the register file is consistent with its entries.
pub record AreSound (r : ReorderBuffer) (p : PhysicalRegisterFile) : Type 0 where
  pub valid : IsValid r
  pub sound : IsSound p (live r)

-- An instruction with its renaming enters.
pub insert-AreSound :
    (seq arch new old : ℕ) (load_index store_index : Option ℕ) (r : ReorderBuffer)
    (p : PhysicalRegisterFile)
    → IsValid r
    → leb reorder_buffer_size r.size ≡ false
    → IsSound p (live r ++ (record { arch = arch; new = new; old = old } ∷ []))
    → AreSound (insert r seq arch new old load_index store_index).1 p
insert-AreSound seq arch new old load_index store_index r p v room s = record {
  valid = insert-IsValid seq arch new old load_index store_index v;
  sound =
      subst (IsSound p)
        (sym (
          ap renamings (contents-insert_room seq arch new old load_index store_index v room).1
          ∙ map-append renaming_of (contents r)
              (fresh seq arch new old load_index store_index ∷ [])))
        s;
}

-- `commit` keeps the buffer valid and the register file consistent with it.
pub commit-AreSound :
    (p : PhysicalRegisterFile) (q : LoadStoreQueue) {r : ReorderBuffer}
    → AreSound r p
    → AreSound (commit r p q).1 (commit r p q).2
unfolding commit
commit-AreSound p q {r} s = elim (Bool-cases (ltb 0 r.size && (r.buffer r.head).completed)) [
  | inl e ↦ rw e (record {
    valid = ground arith;
    sound =
        retire_register-IsSound (r.buffer r.head) p _
          (subst (IsSound p) (ap renamings (window_head s.valid (ground arith))) s.sound);
  })
  | inr e ↦ rw e s
]

live-set_ready : (r : ReorderBuffer) (index : ℕ) → live (set_ready r index) ≡ live r
unfolding set_ready
live-set_ready r index =
    map-slots renaming_of
      (λ k.
        update r.buffer index (record (r.buffer index) { completed = true })
          ((r.head + k) % reorder_buffer_size))
      0 r.size
    ∙ slots-ext _ (λ k. renaming_of (r.buffer ((r.head + k) % reorder_buffer_size))) 0 r.size
        (λ k _ _. same ((r.head + k) % reorder_buffer_size))
    ∙ sym (map-slots renaming_of (λ k. r.buffer ((r.head + k) % reorder_buffer_size)) 0 r.size)
  where
    same :
        (i : ℕ)
        → renaming_of (update r.buffer index (record (r.buffer index) { completed = true }) i)
          ≡ renaming_of (r.buffer i)
    same i = ground arith

-- `set_ready` changes no renaming.
pub set_ready-AreSound :
    (index : ℕ) {r : ReorderBuffer} {p : PhysicalRegisterFile}
    → AreSound r p
    → AreSound (set_ready r index) p
unfolding set_ready
set_ready-AreSound index {r} {p} s = record {
  valid = record {
    head_in = s.valid.head_in;
    size_in = s.valid.size_in;
    tail_at = s.valid.tail_at;
  };
  sound = subst (IsSound p) (sym (live-set_ready r index)) s.sound;
}

squash_from-AreSound :
    (n b : ℕ) (r : ReorderBuffer) (p : PhysicalRegisterFile)
    → r.size ≡ n
    → AreSound r p
    → AreSound (squash_from n b r p).0 (squash_from n b r p).1
unfolding squash_from
squash_from-AreSound zero b r p e s = s
squash_from-AreSound (suc n) b r p e s = elim (Bool-cases (leb last.seq b)) [
  | inl old ↦ rw old s
  | inr young ↦ rw young (
      squash_from-AreSound n b shorter (rollback last p) (omega arith) (record {
        valid = omega arith;
        sound = rollback-IsSound last p (live shorter) (subst (IsSound p) split s.sound);
      }))
]
  where
    last : RobEntry
    last = r.buffer ((r.tail + reorder_buffer_size - 1) % reorder_buffer_size)

    shorter : ReorderBuffer
    shorter = record r {
      tail = (r.tail + reorder_buffer_size - 1) % reorder_buffer_size;
      size = r.size - 1;
    }

    split : live r ≡ live shorter ++ (renaming_of last ∷ [])
    split =
        ap renamings (last_entry (r.size - 1) s.valid (omega arith))
        ∙ map-append renaming_of (contents shorter) (last ∷ [])

-- `squash` keeps the buffer valid and the register file consistent with it.
pub squash-AreSound :
    (b : ℕ) {r : ReorderBuffer} {p : PhysicalRegisterFile}
    → AreSound r p
    → AreSound (squash r b p).0 (squash r b p).1
unfolding squash
squash-AreSound b {r} {p} s = squash_from-AreSound r.size b r p refl s
