-- ===== src/LoadStoreQueue/Forwarding.antt =====
-- Which store `try_forward` takes a value from, and what `has_unresolved_earlier_store` tells
-- (load_store_queue.cpp).
use superscalar_oooprocessor.Base.{
  ℕ, zero, suc, ◌+◌, ◌%◌, ◌≤◌, ◌<◌, ◌≡◌, refl, ap, ◌∙◌, ◌⊎◌, inl, inr, Bool, true, false, not, ◌&&◌,
  Option, none, some, List, [], ◌∷◌, arith, ltb, leb, All, any, slots, Bool-cases, ◌==◌, ==-true→eq,
  if◌then◌else◌,
}
use superscalar_oooprocessor.Config.{store_queue_size}
use superscalar_oooprocessor.LoadStoreQueue.{
  LoadStoreQueue, LoadEntry, StoreEntry, unresolved_from, has_unresolved_earlier_store, forwards,
  forward_from, find_load_by_seq, try_forward,
}

-- The `k`-th store from the oldest on, and all of them.
abbrev pub store_at : LoadStoreQueue → ℕ → StoreEntry
store_at q k = q.sq ((q.sq_head + k) % store_queue_size)

abbrev pub stores_from : LoadStoreQueue → ℕ → ℕ → List StoreEntry
stores_from q i n = slots (store_at q) i n

-- The sequence numbers grow from store to store.
abbrev pub AreAscending : List StoreEntry → Type 0
AreAscending [] = Unit
AreAscending (s ∷ ss) = All (λ (x : StoreEntry). s.seq < x.seq) ss × AreAscending ss

-- A store with a smaller sequence number whose address is not known.
abbrev pub is_unresolved : ℕ → StoreEntry → Bool
is_unresolved seq s = ltb s.seq seq && not s.addr_ready

none_unresolved :
    (seq bound : ℕ) (ss : List StoreEntry)
    → seq ≤ bound
    → All (λ (x : StoreEntry). bound < x.seq) ss
    → any (is_unresolved seq) ss ≡ false
none_unresolved seq bound [] le h = refl
none_unresolved seq bound (s ∷ ss) le h =
    let rest = none_unresolved seq bound ss le h.1 in let first = h.0 in ground arith

unresolved_from-any :
    (q : LoadStoreQueue) (seq n i : ℕ)
    → AreAscending (stores_from q i n)
    → unresolved_from q seq n i ≡ any (is_unresolved seq) (stores_from q i n)
unfolding unresolved_from
unresolved_from-any q seq zero i h = refl
unresolved_from-any q seq (suc n) i h = elim (Bool-cases (leb seq (store_at q i).seq)) [
  | inl e ↦
      let none_later =
        none_unresolved seq (store_at q i).seq (stores_from q (suc i) n) (ground arith) h.0 in
      ground arith
  | inr e ↦ let later = unresolved_from-any q seq n (suc i) h.1 in ground arith
]

-- The stores being in program order, the loop that stops at the first store that is not earlier finds
-- exactly whether any store with a smaller sequence number has no address yet.
pub has_unresolved_earlier_store_lem :
    (q : LoadStoreQueue) (load_seq : ℕ)
    → AreAscending (stores_from q 0 q.sq_size)
    → has_unresolved_earlier_store q load_seq
      ≡ any (is_unresolved load_seq) (stores_from q 0 q.sq_size)
unfolding has_unresolved_earlier_store
has_unresolved_earlier_store_lem q load_seq h = unresolved_from-any q load_seq q.sq_size 0 h

-- Among the first `n` stores either none passes the test, or the `k`-th does and no later.
abbrev Forwards : LoadStoreQueue → LoadEntry → ℕ → ℕ → Option ℕ → Type 0
Forwards q load seq n o =
    ((o ≡ none) × ((j : ℕ) → j < n → forwards load seq (store_at q j) ≡ false))
    ⊎ ((k : ℕ) × (k < n)
        × (o ≡ some (store_at q k).data_word)
        × (forwards load seq (store_at q k) ≡ true)
        × ((j : ℕ) → k < j → j < n → forwards load seq (store_at q j) ≡ false))

below-suc :
    (q : LoadStoreQueue) (load : LoadEntry) (seq n j : ℕ)
    → forwards load seq (store_at q n) ≡ false
    → (j < n → forwards load seq (store_at q j) ≡ false)
    → j < suc n
    → forwards load seq (store_at q j) ≡ false
below-suc q load seq n j last h lt = elim (Bool-cases (j == n)) [
  | inl e ↦ ap (λ i. forwards load seq (store_at q i)) (==-true→eq j n e) ∙ last
  | inr e ↦ h (ground arith)
]

earlier-Forwards :
    (q : LoadStoreQueue) (load : LoadEntry) (seq n : ℕ) (o : Option ℕ)
    → forwards load seq (store_at q n) ≡ false
    → Forwards q load seq n o
    → Forwards q load seq (suc n) o
earlier-Forwards q load seq n o last (inl (e, h)) =
    inl (e, λ j lt. below-suc q load seq n j last (h j) lt)
earlier-Forwards q load seq n o last (inr (k, lt, e, found, h)) =
    inr (k, omega arith, e, found, λ j a b. below-suc q load seq n j last (h j a) b)

forward_from-Forwards :
    (q : LoadStoreQueue) (load : LoadEntry) (seq n : ℕ)
    → Forwards q load seq n (forward_from q load seq n)
unfolding forward_from
forward_from-Forwards q load seq zero = inl (refl, λ j lt. ground arith)
forward_from-Forwards q load seq (suc n) = elim (Bool-cases (forwards load seq (store_at q n))) [
  | inl e ↦ simp e (inr (n, omega arith, refl, e, λ j a b. ground arith))
  | inr e ↦ simp e (earlier-Forwards q load seq n _ e (forward_from-Forwards q load seq n))
]

-- A store that a load may take its value from: earlier in program order, its address and its data
-- known, and of the load's address and width.
pub record Supplies (load : LoadEntry) (load_seq : ℕ) (s : StoreEntry) : Type 0 where
  pub earlier : s.seq < load_seq
  pub addr_known : s.addr_ready ≡ true
  pub data_known : s.src_ready ≡ true
  pub same_addr : s.addr ≡ load.addr
  pub same_byte : s.byte ≡ load.byte
  pub same_halfword : s.halfword ≡ load.halfword

forwards-Supplies :
    (load : LoadEntry) (seq : ℕ) (s : StoreEntry) → forwards load seq s ≡ true → Supplies load seq s
forwards-Supplies load seq s e = ground arith

Supplies-forwards :
    (load : LoadEntry) (seq : ℕ) (s : StoreEntry) → Supplies load seq s → forwards load seq s ≡ true
Supplies-forwards load seq s h = ground arith

forwards-not :
    (load : LoadEntry) (seq : ℕ) (s : StoreEntry)
    → forwards load seq s ≡ false
    → ¬ Supplies load seq s
forwards-not load seq s e h = let yes = Supplies-forwards load seq s h in cc

-- Among the first `n` stores either none supplies the load, or the `k`-th does, with its data, and no
-- later one.
abbrev pub TakesYoungest : LoadStoreQueue → LoadEntry → ℕ → ℕ → Option ℕ → Type 0
TakesYoungest q load seq n o =
    ((o ≡ none) × ((j : ℕ) → j < n → ¬ Supplies load seq (store_at q j)))
    ⊎ ((k : ℕ) × (k < n)
        × (o ≡ some (store_at q k).data_word)
        × Supplies load seq (store_at q k)
        × ((j : ℕ) → k < j → j < n → ¬ Supplies load seq (store_at q j)))

Forwards-TakesYoungest :
    (q : LoadStoreQueue) (load : LoadEntry) (seq n : ℕ) (o : Option ℕ)
    → Forwards q load seq n o
    → TakesYoungest q load seq n o
Forwards-TakesYoungest q load seq n o (inl (e, h)) =
    inl (e, λ j lt. forwards-not load seq (store_at q j) (h j lt))
Forwards-TakesYoungest q load seq n o (inr (k, lt, e, found, h)) = inr (
  k,
  lt,
  e,
  forwards-Supplies load seq (store_at q k) found,
  λ j a b. forwards-not load seq (store_at q j) (h j a b),
)

-- What `try_forward` should give for a load: nothing if the load is not in the queue or has no
-- address, and otherwise the data of the youngest store that supplies it.
abbrev pub ForwardsTo : LoadStoreQueue → ℕ → Option ℕ → Option ℕ → Type 0
ForwardsTo q seq o none = o ≡ none
ForwardsTo q seq o (some i) =
    if (q.lq i).addr_ready then TakesYoungest q (q.lq i) seq q.sq_size o else (o ≡ none)

-- `try_forward` takes the data of the youngest store of the queue that is earlier than the load, has
-- its address and its data, and is of the load's address and width; it fails exactly if there is
-- none, or the load is not in the queue or has no address yet.
pub try_forward_lem :
    (q : LoadStoreQueue) (load_seq : ℕ)
    → ForwardsTo q load_seq (try_forward q load_seq) (find_load_by_seq q load_seq)
unfolding try_forward
try_forward_lem q load_seq = found (find_load_by_seq q load_seq)
  where
    found :
        (p : Option ℕ)
        → ForwardsTo q load_seq
            (elim p [
              | none ↦ none
              | some i ↦
                  if (q.lq i).addr_ready then forward_from q (q.lq i) load_seq q.sq_size else none
            ])
            p
    found none = refl
    found (some i) = elim (Bool-cases (q.lq i).addr_ready) [
      | inl e ↦ simp e (
          Forwards-TakesYoungest q (q.lq i) load_seq q.sq_size _
            (forward_from-Forwards q (q.lq i) load_seq q.sq_size))
      | inr e ↦ simp e refl
    ]
