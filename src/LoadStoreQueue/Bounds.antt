-- ===== src/LoadStoreQueue/Bounds.antt =====
-- Heads, tails and sizes of the two queues stay in range, whatever operation runs.
use superscalar_oooprocessor.Base.{ℕ, zero, suc, ◌+◌, ◌-◌, ◌%◌, ◌≤◌, ◌<◌, ◌≡◌, arith}
use superscalar_oooprocessor.Config.{load_queue_size, store_queue_size}
use superscalar_oooprocessor.MemoryOoo.{MemoryOoo, access, writing}
use superscalar_oooprocessor.LoadStoreQueue.{
  LoadEntry, StoreEntry, LoadStoreQueue, EvictResult, init, add_load, add_store, set_load,
  set_store, mark_load_complete, mark_store_complete, pop_load_head, pop_store_head, squash_loads,
  squash_stores, squash, broadcast_ready, evict_from, evict_commited_stores, note_store,
}

-- Each tail is where its head and its size say.
pub record IsValid (q : LoadStoreQueue) : Type 0 where
  pub lq_head_in : q.lq_head < load_queue_size
  pub lq_size_in : q.lq_size ≤ load_queue_size
  pub lq_tail_at : q.lq_tail ≡ (q.lq_head + q.lq_size) % load_queue_size
  pub sq_head_in : q.sq_head < store_queue_size
  pub sq_size_in : q.sq_size ≤ store_queue_size
  pub sq_tail_at : q.sq_tail ≡ (q.sq_head + q.sq_size) % store_queue_size

pub init-IsValid : (lq : ℕ → LoadEntry) (sq : ℕ → StoreEntry) → IsValid (init lq sq)
unfolding init
init-IsValid lq sq = omega arith

pub add_load-IsValid : (q : LoadStoreQueue) (e : LoadEntry) → IsValid q → IsValid (add_load q e).1
unfolding add_load
add_load-IsValid q e v = ground arith

pub add_store-IsValid :
    (q : LoadStoreQueue) (e : StoreEntry) → IsValid q → IsValid (add_store q e).1
unfolding add_store
add_store-IsValid q e v = ground arith

pub set_load-IsValid :
    (q : LoadStoreQueue) (i : ℕ) (e : LoadEntry) → IsValid q → IsValid (set_load q i e)
set_load-IsValid q i e v = record {
  lq_head_in = v.lq_head_in;
  lq_size_in = v.lq_size_in;
  lq_tail_at = v.lq_tail_at;
  sq_head_in = v.sq_head_in;
  sq_size_in = v.sq_size_in;
  sq_tail_at = v.sq_tail_at;
}

pub set_store-IsValid :
    (q : LoadStoreQueue) (i : ℕ) (e : StoreEntry) → IsValid q → IsValid (set_store q i e)
set_store-IsValid q i e v = record {
  lq_head_in = v.lq_head_in;
  lq_size_in = v.lq_size_in;
  lq_tail_at = v.lq_tail_at;
  sq_head_in = v.sq_head_in;
  sq_size_in = v.sq_size_in;
  sq_tail_at = v.sq_tail_at;
}

pub mark_load_complete-IsValid :
    (q : LoadStoreQueue) (seq : ℕ) → IsValid q → IsValid (mark_load_complete q seq)
unfolding mark_load_complete
mark_load_complete-IsValid q seq v = ground arith

pub mark_store_complete-IsValid :
    (q : LoadStoreQueue) (seq : ℕ) → IsValid q → IsValid (mark_store_complete q seq)
unfolding mark_store_complete
mark_store_complete-IsValid q seq v = ground arith

pub pop_load_head-IsValid : (q : LoadStoreQueue) → IsValid q → IsValid (pop_load_head q)
unfolding pop_load_head
pop_load_head-IsValid q v = ground arith

pub pop_store_head-IsValid : (q : LoadStoreQueue) → IsValid q → IsValid (pop_store_head q)
unfolding pop_store_head
pop_store_head-IsValid q v = ground arith

pub broadcast_ready-IsValid :
    (q : LoadStoreQueue) (reg : ℕ) → IsValid q → IsValid (broadcast_ready q reg)
unfolding broadcast_ready
broadcast_ready-IsValid q reg v = ground arith

pub squash_loads-IsValid :
    (n b : ℕ) (q : LoadStoreQueue) → n ≤ q.lq_size → IsValid q → IsValid (squash_loads n b q)
unfolding squash_loads
squash_loads-IsValid zero b q h v = v
squash_loads-IsValid (suc n) b q h v =
    let q' = record q {
      lq_tail = (q.lq_tail + load_queue_size - 1) % load_queue_size;
      lq_size = q.lq_size - 1;
    } in
    ground (arith, squash_loads-IsValid n b q' (omega arith) (omega arith))

pub squash_stores-IsValid :
    (n b : ℕ) (q : LoadStoreQueue) → n ≤ q.sq_size → IsValid q → IsValid (squash_stores n b q)
unfolding squash_stores
squash_stores-IsValid zero b q h v = v
squash_stores-IsValid (suc n) b q h v =
    let q' = record q {
      sq_tail = (q.sq_tail + store_queue_size - 1) % store_queue_size;
      sq_size = q.sq_size - 1;
    } in
    ground (arith, squash_stores-IsValid n b q' (omega arith) (omega arith))

-- Squashing keeps both circular queues well-formed, whatever the sequence number.
pub squash-IsValid : (q : LoadStoreQueue) (b : ℕ) → IsValid q → IsValid (squash q b)
unfolding squash
squash-IsValid q b v =
    squash_stores-IsValid _ b _ (omega arith) (squash_loads-IsValid q.lq_size b q (omega arith) v)

evict_from-IsValid :
    (n text_end : ℕ) (res : EvictResult) (q : LoadStoreQueue) (m : MemoryOoo)
    → IsValid q
    → IsValid (evict_from n text_end res q m).1
unfolding evict_from
evict_from-IsValid zero text_end res q m v = v
evict_from-IsValid (suc n) text_end res q m v = ground (
  arith,
  evict_from-IsValid n text_end (note_store text_end res (q.sq q.sq_head)) (pop_store_head q)
      (access m (q.sq q.sq_head).addr 0 (writing (q.sq q.sq_head).data_word)).2
      (pop_store_head-IsValid q v),
)

-- Draining the committed stores keeps both circular queues well-formed, whether or not the memory
-- takes every store.
pub evict_commited_stores-IsValid :
    (q : LoadStoreQueue) (m : MemoryOoo) (text_end : ℕ)
    → IsValid q
    → IsValid (evict_commited_stores q m text_end).1
unfolding evict_commited_stores
evict_commited_stores-IsValid q m text_end v = evict_from-IsValid q.sq_size text_end _ q m v
