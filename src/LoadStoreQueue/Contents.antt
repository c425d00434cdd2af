-- ===== src/LoadStoreQueue/Contents.antt =====
-- The two queues (load_store_queue.h) as the lists of their entries, oldest first, and what the
-- commit of a load or of a store does to them.
use superscalar_oooprocessor.Base.{
  ℕ, zero, suc, ◌+◌, ◌-◌, ◌%◌, ◌≤◌, ◌<◌, ◌≡◌, refl, sym, ap, ap₂, ◌∙◌, inl, inr, true, false,
  Option, none, some, List, [], ◌∷◌, arith, Bool-cases, ◌==◌, if◌then◌else◌, update, drop, slots,
  slots-ext, update_self, update_ne, mod-ne-mod, window, window-pop, window-size,
}
use superscalar_oooprocessor.Config.{load_queue_size, store_queue_size}
use superscalar_oooprocessor.LoadStoreQueue.{
  LoadEntry, StoreEntry, LoadStoreQueue, find_store_from, find_store_by_seq, set_store,
  pop_load_head, mark_store_complete,
}
use superscalar_oooprocessor.LoadStoreQueue.Bounds.{IsValid, pop_load_head-IsValid}

abbrev pub loads : LoadStoreQueue → List LoadEntry
loads q = window load_queue_size q.lq q.lq_head q.lq_size

abbrev pub stores : LoadStoreQueue → List StoreEntry
stores q = window store_queue_size q.sq q.sq_head q.sq_size

-- The oldest store with a sequence number is completed.
abbrev pub complete_first : ℕ → List StoreEntry → List StoreEntry
complete_first seq [] = []
complete_first seq (s ∷ ss) =
    let rest = complete_first seq ss in
    if s.seq == seq then record s { completed = true } ∷ ss else s ∷ rest

-- `pop_load_head` takes the oldest load off, if there is one.
loads-pop_load_head : (q : LoadStoreQueue) → IsValid q → loads (pop_load_head q) ≡ drop 1 (loads q)
unfolding pop_load_head
loads-pop_load_head q v = elim (Bool-cases (q.lq_size == 0)) [
  | inl e ↦
      (let none_left =
          window-size load_queue_size q.lq q.lq_head {m = q.lq_size} {n = 0} (ground arith) in
        rw (e, none_left) refl)
  | inr e ↦
      (let first =
          window-size load_queue_size q.lq q.lq_head {m = q.lq_size} {n = suc (q.lq_size - 1)}
            (ground arith)
          ∙ window-pop load_queue_size q.lq q.lq_head (q.lq_size - 1) v.lq_head_in in
        rw (e, first) refl)
]

-- The array after the store at a place is marked, if there is one.
abbrev marked : (ℕ → StoreEntry) → Option ℕ → ℕ → StoreEntry
marked sq none = sq
marked sq (some idx) = update sq idx (record (sq idx) { completed = true })

module _ (q : LoadStoreQueue) (seq : ℕ) (head_in : q.sq_head < store_queue_size) where
  abbrev place : ℕ → ℕ
  place k = (q.sq_head + k) % store_queue_size

  -- The search from the `i`-th store on marks no store before it.
  marked-before :
      (n i j : ℕ)
      → j < i
      → i + n ≤ store_queue_size
      → marked q.sq (find_store_from q seq n i) (place j) ≡ q.sq (place j)
  unfolding find_store_from
  marked-before zero i j lt b = refl
  marked-before (suc n) i j lt b = elim (Bool-cases ((q.sq (place i)).seq == seq)) [
    | inl e ↦ rw e (
        update_ne q.sq (place i) (record (q.sq (place i)) { completed = true }) (place j)
          (mod-ne-mod head_in lt (omega arith)))
    | inr e ↦ rw e (marked-before n (suc i) j (omega arith) (omega arith))
  ]

  find_store_from_hit :
      (n i : ℕ)
      → ((q.sq (place i)).seq == seq) ≡ true
      → find_store_from q seq (suc n) i ≡ some (place i)
  unfolding find_store_from
  find_store_from_hit n i e = rw e refl

  find_store_from_miss :
      (n i : ℕ)
      → ((q.sq (place i)).seq == seq) ≡ false
      → find_store_from q seq (suc n) i ≡ find_store_from q seq n (suc i)
  unfolding find_store_from
  find_store_from_miss n i e = rw e refl

  abbrev slots_marked : ℕ → ℕ → Option ℕ → List StoreEntry
  slots_marked i n o = slots (λ k. marked q.sq o (place k)) i n

  marked-complete_first :
      (n i : ℕ)
      → i + n ≤ store_queue_size
      → slots_marked i n (find_store_from q seq n i)
        ≡ complete_first seq (slots (λ k. q.sq (place k)) i n)
  unfolding find_store_from
  marked-complete_first zero i b = refl
  marked-complete_first (suc n) i b =
      let s : StoreEntry = record (q.sq (place i)) { completed = true } in
      elim (Bool-cases ((q.sq (place i)).seq == seq)) [
        | inl e ↦
            ap (slots_marked i (suc n)) (find_store_from_hit n i e)
            ∙ rw e (
                ap₂ ◌∷◌ (update_self q.sq (place i) s) (
                  slots-ext _ (λ k. q.sq (place k)) (suc i) n
                    (λ k a c.
                      update_ne q.sq (place i) s (place k)
                        (λ same. mod-ne-mod head_in a (omega arith) (sym same)))))
        | inr e ↦
            ap (slots_marked i (suc n)) (find_store_from_miss n i e)
            ∙ rw e (
                ap₂ ◌∷◌ (marked-before n (suc i) i (omega arith) (omega arith))
                  (marked-complete_first n (suc i) (omega arith)))
      ]

-- `mark_store_complete` marks the oldest store with the sequence number, and no other.
stores-mark_store_complete :
    (q : LoadStoreQueue) (seq : ℕ)
    → IsValid q
    → stores (mark_store_complete q seq) ≡ complete_first seq (stores q)
unfolding mark_store_complete find_store_by_seq
stores-mark_store_complete q seq v =
    same (find_store_from q seq q.sq_size 0)
    ∙ marked-complete_first q seq v.sq_head_in q.sq_size 0 (ground (arith, v.sq_size_in))
  where
    same :
        (o : Option ℕ)
        → stores (elim o [
          | none ↦ q
          | some idx ↦ record q { sq = update q.sq idx (record (q.sq idx) { completed = true }) }
        ])
          ≡ slots (λ k. marked q.sq o ((q.sq_head + k) % store_queue_size)) 0 q.sq_size
    same none = refl
    same (some idx) = refl

stores-pop_load_head : (q : LoadStoreQueue) → stores (pop_load_head q) ≡ stores q
unfolding pop_load_head
stores-pop_load_head q = elim (Bool-cases (q.lq_size == 0)) [
  | inl e ↦ rw e refl
  | inr e ↦ rw e refl
]

loads-mark_store_complete :
    (q : LoadStoreQueue) (seq : ℕ) → loads (mark_store_complete q seq) ≡ loads q
unfolding mark_store_complete
loads-mark_store_complete q seq = go (find_store_by_seq q seq)
  where
    go :
        (o : Option ℕ)
        → loads (elim o [
          | none ↦ q
          | some idx ↦ set_store q idx (record (q.sq idx) { completed = true })
        ])
          ≡ loads q
    go none = refl
    go (some idx) = refl

-- What the commit of an entry does to the two queues, by whether it is a load or a store.
pub queues-retire :
    (load_index store_index : Option ℕ) (seq : ℕ) (q : LoadStoreQueue)
    → IsValid q
    → (let q1 : LoadStoreQueue = elim load_index [ none ↦ q | some _ ↦ pop_load_head q ] in
        let q2 : LoadStoreQueue = elim store_index [
          | none ↦ q1
          | some _ ↦ mark_store_complete q1 seq
        ] in
        (loads q2 ≡ elim load_index [ none ↦ loads q | some _ ↦ drop 1 (loads q) ])
        × (stores q2
            ≡ elim store_index [ none ↦ stores q | some _ ↦ complete_first seq (stores q) ]))
queues-retire none none seq q v = (refl, refl)
queues-retire none (some _) seq q v =
    (loads-mark_store_complete q seq, stores-mark_store_complete q seq v)
queues-retire (some _) none seq q v = (loads-pop_load_head q v, stores-pop_load_head q)
queues-retire (some _) (some _) seq q v =
    let q1 = pop_load_head q in
    (
      loads-mark_store_complete q1 seq ∙ loads-pop_load_head q v,
      stores-mark_store_complete q1 seq (pop_load_head-IsValid q v)
          ∙ ap (complete_first seq) (stores-pop_load_head q),
    )
