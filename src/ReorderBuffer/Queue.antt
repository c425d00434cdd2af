-- ===== src/ReorderBuffer/Queue.antt =====
-- The reorder buffer as the list of its entries, oldest first.
use superscalar_oooprocessor.Base.{
  ℕ, suc, ◌+◌, ◌-◌, ◌%◌, ◌≤◌, ◌<◌, ◌≡◌, refl, ap, ◌∙◌, Bool, true, false, Option, none, some, List,
  [], ◌∷◌, ◌++◌, ltb, leb, if◌then◌else◌, arith, Bool-cases, length, update, window, length-window,
  window-push, window-pop, window-size, inl, inr, ◌==◌, drop,
}
use superscalar_oooprocessor.Config.{reorder_buffer_size}
use superscalar_oooprocessor.PhysicalRegisterFile.{
  PhysicalRegisterFile, reclaim, update_commited_registers,
}
use superscalar_oooprocessor.LoadStoreQueue.{LoadEntry, StoreEntry, LoadStoreQueue}
use superscalar_oooprocessor.LoadStoreQueue.Bounds
use superscalar_oooprocessor.LoadStoreQueue.Contents.{loads, stores, complete_first, queues-retire}
use superscalar_oooprocessor.ReorderBuffer.{
  RobEntry, ReorderBuffer, init, insert, commit, retire_register,
}

-- Head and tail lie in the array, and the size is the distance between them.
pub record IsValid (r : ReorderBuffer) : Type 0 where
  pub head_in : r.head < reorder_buffer_size
  pub size_in : r.size ≤ reorder_buffer_size
  pub tail_at : r.tail ≡ (r.head + r.size) % reorder_buffer_size

abbrev pub contents : ReorderBuffer → List RobEntry
contents r = window reorder_buffer_size r.buffer r.head r.size

pub length-contents : (r : ReorderBuffer) → length (contents r) ≡ r.size
length-contents r = length-window reorder_buffer_size r.buffer r.head r.size

pub init-IsValid : (buffer : ℕ → RobEntry) → IsValid (init buffer)
unfolding init
init-IsValid buffer = omega arith

-- The entry that `insert` writes.
abbrev pub fresh : ℕ → ℕ → ℕ → ℕ → Option ℕ → Option ℕ → RobEntry
fresh seq arch new old load_index store_index = record {
  seq = seq;
  dest_arch_reg = arch;
  dest_phys_reg = new;
  old_phys_reg = old;
  load_index = load_index;
  store_index = store_index;
  completed = false;
}

-- The specification of `insert`: a list of bounded length that grows at its end.
unfoldable pub append_bounded : List RobEntry → RobEntry → List RobEntry
append_bounded es e = if leb reorder_buffer_size (length es) then es else es ++ (e ∷ [])

module _ (seq arch new old : ℕ) (load_index store_index : Option ℕ) {r : ReorderBuffer}
    (v : IsValid r) where
  abbrev after_insert : Option ℕ × ReorderBuffer
  after_insert = insert r seq arch new old load_index store_index

  abbrev inserted : RobEntry
  inserted = fresh seq arch new old load_index store_index

  pub insert-IsValid : IsValid after_insert.1
  unfolding insert
  insert-IsValid = ground arith

  window_grows :
      leb reorder_buffer_size r.size ≡ false
      → window reorder_buffer_size (update r.buffer r.tail inserted) r.head (r.size + 1)
        ≡ contents r ++ (inserted ∷ [])
  window_grows room =
      window-size reorder_buffer_size (update r.buffer r.tail inserted) r.head {n = suc r.size}
        (omega arith)
      ∙ ap (λ t. window reorder_buffer_size (update r.buffer t inserted) r.head (suc r.size))
          v.tail_at
      ∙ window-push reorder_buffer_size r.buffer r.head r.size inserted v.head_in (ground arith)

  pub contents-insert_room :
      leb reorder_buffer_size r.size ≡ false
      → (after_insert.0 ≡ some r.tail) × (contents after_insert.1 ≡ contents r ++ (inserted ∷ []))
  unfolding insert
  contents-insert_room room = rw room (refl, window_grows room)

  pub contents-insert_full : leb reorder_buffer_size r.size ≡ true → after_insert ≡ (none, r)
  unfolding insert
  contents-insert_full no_room = rw no_room refl

-- On a valid buffer `insert` appends the new entry, not completed, exactly if there is room, and
-- leaves the entries as they are otherwise; it returns the place of the entry, or -1 if there is no
-- room. The buffer stays valid.
pub insert_refines :
    (seq arch new old : ℕ) (load_index store_index : Option ℕ) {r : ReorderBuffer}
    → IsValid r
    → let (index, r') = insert r seq arch new old load_index store_index in
      (contents r' ≡ append_bounded (contents r) (fresh seq arch new old load_index store_index))
      × (index ≡ (if leb reorder_buffer_size (length (contents r)) then none else some r.tail))
      × IsValid r'
unfolding append_bounded
insert_refines seq arch new old load_index store_index {r} v =
    rw (length-contents r) (elim (Bool-cases (leb reorder_buffer_size r.size)) [
      | inl no_room ↦
          (let e = contents-insert_full seq arch new old load_index store_index v no_room in
            rw (no_room, e) (refl, refl, v))
      | inr room ↦
          (let e = contents-insert_room seq arch new old load_index store_index v room in
            rw room (e.1, e.0, insert-IsValid seq arch new old load_index store_index v))
    ])

-- The oldest entry and the rest.
pub window_head :
    {r : ReorderBuffer}
    → IsValid r
    → ltb 0 r.size ≡ true
    → contents r
      ≡ r.buffer r.head
        ∷ window reorder_buffer_size r.buffer ((r.head + 1) % reorder_buffer_size) (r.size - 1)
window_head {r} v some_left =
    window-size reorder_buffer_size r.buffer r.head {n = suc (r.size - 1)} (ground arith)
    ∙ window-pop reorder_buffer_size r.buffer r.head (r.size - 1) v.head_in

window_none : (r : ReorderBuffer) → ltb 0 r.size ≡ false → contents r ≡ []
window_none r none_left = window-size reorder_buffer_size r.buffer r.head {n = 0} (ground arith)

pub commit-IsValid :
    (p : PhysicalRegisterFile) (q : LoadStoreQueue) {r : ReorderBuffer}
    → IsValid r
    → IsValid (commit r p q).1
unfolding commit
commit-IsValid p q v = ground arith

-- The specification of `commit` on lists: the oldest entry leaves if it is completed. If it renamed a
-- register, the mapping that it replaced is freed and its own is committed; a load takes the
-- oldest load with it, and a store completes the oldest store of its sequence number.
unfoldable pub commit_oldest :
    List RobEntry
    → PhysicalRegisterFile
    → List LoadEntry
    → List StoreEntry
    → Bool × List RobEntry × PhysicalRegisterFile × List LoadEntry × List StoreEntry
commit_oldest [] p ls ss = (false, [], p, ls, ss)
commit_oldest (e ∷ es) p ls ss =
    if e.completed
    then (
      true,
      es,
      record p {
        commited_regmap =
            if e.dest_phys_reg == e.old_phys_reg
            then p.commited_regmap
            else update p.commited_regmap e.dest_arch_reg e.dest_phys_reg;
        rename_pool =
            if e.dest_phys_reg == e.old_phys_reg
            then p.rename_pool
            else p.rename_pool ++ (e.old_phys_reg ∷ []);
      },
      elim e.load_index [ none ↦ ls | some _ ↦ drop 1 ls ],
      elim e.store_index [ none ↦ ss | some _ ↦ complete_first e.seq ss ],
    )
    else (false, e ∷ es, p, ls, ss)

registers-retire :
    (e : RobEntry) (p : PhysicalRegisterFile)
    → retire_register e p ≡ record p {
      commited_regmap =
          if e.dest_phys_reg == e.old_phys_reg
          then p.commited_regmap
          else update p.commited_regmap e.dest_arch_reg e.dest_phys_reg;
      rename_pool =
          if e.dest_phys_reg == e.old_phys_reg
          then p.rename_pool
          else p.rename_pool ++ (e.old_phys_reg ∷ []);
    }
unfolding reclaim update_commited_registers
registers-retire e p = elim (Bool-cases (e.dest_phys_reg == e.old_phys_reg)) [
  | inl same ↦ rw same refl
  | inr other ↦ rw other refl
]

-- On a valid buffer and valid queues `commit` takes the oldest entry, if there is one and it is
-- completed, and keeps the other entries in order. If the entry renamed a register, the mapping that
-- it replaced joins the free list at its end and its own mapping is committed; for a load the oldest
-- load leaves its queue, for a store the oldest store of its sequence number becomes completed. In all
-- other cases nothing changes.
pub commit_refines :
    (p : PhysicalRegisterFile) (q : LoadStoreQueue) {r : ReorderBuffer}
    → IsValid r
    → Bounds.IsValid q
    → let (done, r', p', q') = commit r p q in
      (done, contents r', p', loads q', stores q')
      ≡ commit_oldest (contents r) p (loads q) (stores q)
unfolding commit commit_oldest
commit_refines p q {r} v w = elim (Bool-cases (ltb 0 r.size)) [
  | inl some_left ↦
      (let e = r.buffer r.head in
        let registers = registers-retire e p in
        let queues = queues-retire e.load_index e.store_index e.seq q w in
        elim (Bool-cases e.completed) [
          | inl ready ↦
              rw (some_left, ready, window_head v some_left, ready, registers, queues.0, queues.1)
                refl
          | inr waits ↦ rw (some_left, waits, window_head v some_left, waits) refl
        ])
  | inr none_left ↦ rw (none_left, window_none r none_left) refl
]
