-- ===== src/LoadStoreQueue.antt =====
-- load_store_queue.h and load_store_queue.cpp. Both queues are circular buffers; an index that the
-- source writes as -1 is `none`. The arrays are functions of the index.
pub mod Bounds
pub mod Contents
pub mod Forwarding
use superscalar_oooprocessor.Base.{
  ℕ, zero, suc, ◌+◌, ◌-◌, ◌%◌, Bool, true, false, not, ◌&&◌, ◌||◌, Option, none, some, ltb, leb,
  ◌==◌, if◌then◌else◌, update,
}
use superscalar_oooprocessor.Config.{load_queue_size, store_queue_size}
use superscalar_oooprocessor.MemoryOoo.{MemoryOoo, access, writing}

pub record LoadEntry : Type 0 where
  pub seq : ℕ
  pub pc : ℕ
  pub rob_index : Option ℕ
  pub addr : ℕ
  pub addr_ready : Bool
  pub completed : Bool
  pub dest_phys_reg : ℕ
  pub byte : Bool
  pub halfword : Bool
  pub issued : Bool

-- `data` is called `data_word` here.
pub record StoreEntry : Type 0 where
  pub seq : ℕ
  pub pc : ℕ
  pub rob_index : Option ℕ
  pub addr : ℕ
  pub addr_ready : Bool
  pub src : ℕ
  pub src_ready : Bool
  pub data_word : ℕ
  pub byte : Bool
  pub halfword : Bool
  pub issued : Bool
  pub completed : Bool

pub record LoadStoreQueue : Type 0 where
  pub lq : ℕ → LoadEntry
  pub lq_size : ℕ
  pub lq_head : ℕ
  pub lq_tail : ℕ
  pub sq : ℕ → StoreEntry
  pub sq_size : ℕ
  pub sq_head : ℕ
  pub sq_tail : ℕ

-- The constructor leaves the arrays as they are.
unfoldable pub init : (ℕ → LoadEntry) → (ℕ → StoreEntry) → LoadStoreQueue
init lq sq = record {
  lq = lq;
  lq_size = 0;
  lq_head = 0;
  lq_tail = 0;
  sq = sq;
  sq_size = 0;
  sq_head = 0;
  sq_tail = 0;
}

unfoldable pub lq_full : LoadStoreQueue → Bool
lq_full q = leb load_queue_size q.lq_size

unfoldable pub sq_full : LoadStoreQueue → Bool
sq_full q = leb store_queue_size q.sq_size

unfoldable pub sq_empty : LoadStoreQueue → Bool
sq_empty q = q.sq_size == 0

unfoldable pub add_load : LoadStoreQueue → LoadEntry → Option ℕ × LoadStoreQueue
unfolding lq_full
add_load q e = if lq_full q then (none, q) else (
  some q.lq_tail,
  record q {
    lq = update q.lq q.lq_tail e;
    lq_tail = (q.lq_tail + 1) % load_queue_size;
    lq_size = q.lq_size + 1;
  },
)

unfoldable pub add_store : LoadStoreQueue → StoreEntry → Option ℕ × LoadStoreQueue
unfolding sq_full
add_store q e = if sq_full q then (none, q) else (
  some q.sq_tail,
  record q {
    sq = update q.sq q.sq_tail e;
    sq_tail = (q.sq_tail + 1) % store_queue_size;
    sq_size = q.sq_size + 1;
  },
)

-- The loops of the two searches by sequence number, over the `n` entries from the `i`-th on.
unfoldable pub find_load_from : LoadStoreQueue → ℕ → ℕ → ℕ → Option ℕ
find_load_from q seq zero i = none
find_load_from q seq (suc n) i =
    let idx = (q.lq_head + i) % load_queue_size in
    if (q.lq idx).seq == seq then some idx else find_load_from q seq n (suc i)

unfoldable pub find_load_by_seq : LoadStoreQueue → ℕ → Option ℕ
unfolding find_load_from
find_load_by_seq q seq = find_load_from q seq q.lq_size 0

unfoldable pub find_store_from : LoadStoreQueue → ℕ → ℕ → ℕ → Option ℕ
find_store_from q seq zero i = none
find_store_from q seq (suc n) i =
    let idx = (q.sq_head + i) % store_queue_size in
    if (q.sq idx).seq == seq then some idx else find_store_from q seq n (suc i)

unfoldable pub find_store_by_seq : LoadStoreQueue → ℕ → Option ℕ
unfolding find_store_from
find_store_by_seq q seq = find_store_from q seq q.sq_size 0

-- A change of the entry at a place, through the reference that the source takes.
abbrev pub set_load : LoadStoreQueue → ℕ → LoadEntry → LoadStoreQueue
set_load q idx e = record q { lq = update q.lq idx e }

abbrev pub set_store : LoadStoreQueue → ℕ → StoreEntry → LoadStoreQueue
set_store q idx e = record q { sq = update q.sq idx e }

unfoldable pub set_load_address : LoadStoreQueue → ℕ → ℕ → LoadStoreQueue
set_load_address q seq addr = elim (find_load_by_seq q seq) [
  | none ↦ q
  | some idx ↦ set_load q idx (record (q.lq idx) { addr = addr; addr_ready = true })
]

unfoldable pub set_store_address : LoadStoreQueue → ℕ → ℕ → LoadStoreQueue
set_store_address q seq addr = elim (find_store_by_seq q seq) [
  | none ↦ q
  | some idx ↦ set_store q idx (record (q.sq idx) { addr = addr; addr_ready = true })
]

unfoldable pub mark_load_issued : LoadStoreQueue → ℕ → LoadStoreQueue
mark_load_issued q seq = elim (find_load_by_seq q seq) [
  | none ↦ q
  | some idx ↦ set_load q idx (record (q.lq idx) { issued = true })
]

unfoldable pub mark_store_issued : LoadStoreQueue → ℕ → LoadStoreQueue
mark_store_issued q seq = elim (find_store_by_seq q seq) [
  | none ↦ q
  | some idx ↦ set_store q idx (record (q.sq idx) { issued = true })
]

unfoldable pub mark_load_complete : LoadStoreQueue → ℕ → LoadStoreQueue
mark_load_complete q seq = elim (find_load_by_seq q seq) [
  | none ↦ q
  | some idx ↦ set_load q idx (record (q.lq idx) { completed = true })
]

unfoldable pub mark_store_complete : LoadStoreQueue → ℕ → LoadStoreQueue
mark_store_complete q seq = elim (find_store_by_seq q seq) [
  | none ↦ q
  | some idx ↦ set_store q idx (record (q.sq idx) { completed = true })
]

-- The loop of `has_unresolved_earlier_store`, which stops at the first store that is not earlier.
unfoldable pub unresolved_from : LoadStoreQueue → ℕ → ℕ → ℕ → Bool
unresolved_from q load_seq zero i = false
unresolved_from q load_seq (suc n) i =
    let s = q.sq ((q.sq_head + i) % store_queue_size) in
    let rest = unresolved_from q load_seq n (suc i) in
    if leb load_seq s.seq then false else if not s.addr_ready then true else rest

unfoldable pub has_unresolved_earlier_store : LoadStoreQueue → ℕ → Bool
unfolding unresolved_from
has_unresolved_earlier_store q load_seq = unresolved_from q load_seq q.sq_size 0

-- The loop of `oldest_ready_load`.
unfoldable pub ready_load_from : LoadStoreQueue → ℕ → ℕ → Option ℕ
ready_load_from q zero i = none
ready_load_from q (suc n) i =
    let idx = (q.lq_head + i) % load_queue_size in
    let l = q.lq idx in
    if l.issued || l.completed || not l.addr_ready || has_unresolved_earlier_store q l.seq
    then ready_load_from q n (suc i)
    else some idx

unfoldable pub oldest_ready_load : LoadStoreQueue → Option ℕ
unfolding ready_load_from
oldest_ready_load q = ready_load_from q q.lq_size 0

unfoldable pub oldest_ready_store : LoadStoreQueue → Option ℕ
oldest_ready_store q =
    let h = q.sq q.sq_head in
    if q.sq_size == 0
    then none
    else if not h.issued && not h.completed && h.addr_ready && h.src_ready
    then some q.sq_head
    else none

-- Whether the loop of `try_forward` passes over a store, `load` being the entry of the load.
abbrev pub forwards : LoadEntry → ℕ → StoreEntry → Bool
forwards load load_seq s =
    if leb load_seq s.seq
    then false
    else if not s.addr_ready || not s.src_ready
    then false
    else if not (s.addr == load.addr)
    then false
    else (if s.byte then load.byte else not load.byte)
      && (if s.halfword then load.halfword else not load.halfword)

-- The loop of `try_forward`, from the `n - 1`-th store down to the first.
unfoldable pub forward_from : LoadStoreQueue → LoadEntry → ℕ → ℕ → Option ℕ
forward_from q load load_seq zero = none
forward_from q load load_seq (suc n) =
    let s = q.sq ((q.sq_head + n) % store_queue_size) in
    if forwards load load_seq s then some s.data_word else forward_from q load load_seq n

-- `none` is the return value `false`.
unfoldable pub try_forward : LoadStoreQueue → ℕ → Option ℕ
unfolding forward_from
try_forward q load_seq = elim (find_load_by_seq q load_seq) [
  | none ↦ none
  | some idx ↦ if (q.lq idx).addr_ready then forward_from q (q.lq idx) load_seq q.sq_size else none
]

unfoldable pub pop_load_head : LoadStoreQueue → LoadStoreQueue
pop_load_head q =
    if q.lq_size == 0
    then q
    else record q { lq_head = (q.lq_head + 1) % load_queue_size; lq_size = q.lq_size - 1 }

unfoldable pub pop_store_head : LoadStoreQueue → LoadStoreQueue
pop_store_head q =
    if q.sq_size == 0
    then q
    else record q { sq_head = (q.sq_head + 1) % store_queue_size; sq_size = q.sq_size - 1 }

-- The two loops of `squash`; each round takes one entry off, so the first argument counts them.
unfoldable pub squash_loads : ℕ → ℕ → LoadStoreQueue → LoadStoreQueue
squash_loads zero branch_seq q = q
squash_loads (suc n) branch_seq q =
    let prev = (q.lq_tail + load_queue_size - 1) % load_queue_size in
    let rest = squash_loads n branch_seq (record q { lq_tail = prev; lq_size = q.lq_size - 1 }) in
    if leb (q.lq prev).seq branch_seq then q else rest

unfoldable pub squash_stores : ℕ → ℕ → LoadStoreQueue → LoadStoreQueue
squash_stores zero branch_seq q = q
squash_stores (suc n) branch_seq q =
    let prev = (q.sq_tail + store_queue_size - 1) % store_queue_size in
    let rest = squash_stores n branch_seq (record q { sq_tail = prev; sq_size = q.sq_size - 1 }) in
    if leb (q.sq prev).seq branch_seq then q else rest

unfoldable pub squash : LoadStoreQueue → ℕ → LoadStoreQueue
unfolding squash_loads squash_stores
squash q branch_seq =
    let q' = squash_loads q.lq_size branch_seq q in squash_stores q'.sq_size branch_seq q'

-- The loop runs over the whole array, free places included.
unfoldable pub broadcast_ready : LoadStoreQueue → ℕ → LoadStoreQueue
broadcast_ready q phys_reg = record q {
  sq = λ i. if (q.sq i).src == phys_reg then record (q.sq i) { src_ready = true } else q.sq i;
}

-- `EvictResult`
pub record EvictResult : Type 0 where
  pub smc_detected : Bool
  pub smc_seq : ℕ
  pub smc_pc : ℕ

abbrev pub no_smc : EvictResult
no_smc = record { smc_detected = false; smc_seq = 0; smc_pc = 0 }

-- What one drained store makes of the result.
abbrev pub note_store : ℕ → EvictResult → StoreEntry → EvictResult
note_store smc_text_end result s =
    if ltb s.addr smc_text_end && (not result.smc_detected || ltb s.seq result.smc_seq)
    then record { smc_detected = true; smc_seq = s.seq; smc_pc = s.pc }
    else result

-- The loop of `evict_commited_stores`; each round takes one store off, so the first argument counts
-- them.
unfoldable pub evict_from :
    ℕ → ℕ → EvictResult → LoadStoreQueue → MemoryOoo → EvictResult × LoadStoreQueue × MemoryOoo
evict_from zero smc_text_end result q m = (result, q, m)
evict_from (suc n) smc_text_end result q m =
    let s = q.sq q.sq_head in
    let (done, _, m') = access m s.addr 0 (writing s.data_word) in
    let rest = evict_from n smc_text_end (note_store smc_text_end result s) (pop_store_head q) m' in
    if not (sq_empty q) && s.completed
    then (if done then rest else (result, q, m'))
    else (result, q, m)

unfoldable pub evict_commited_stores :
    LoadStoreQueue → MemoryOoo → ℕ → EvictResult × LoadStoreQueue × MemoryOoo
unfolding evict_from
evict_commited_stores q m smc_text_end = evict_from q.sq_size smc_text_end no_smc q m
