-- ===== src/InstructionQueue/Select.antt =====
-- Which instruction `get_oldest_ready` selects.
use superscalar_oooprocessor.Base.{
  ℕ, suc, ◌+◌, ◌<◌, ◌≡◌, refl, sym, subst, ap, ◌∙◌, ◌⊎◌, inl, inr, true, false, Option, none, some,
  List, [], ◌∷◌, arith, Bool-cases, get_elem?, take, All, any,
}
use superscalar_oooprocessor.LoadStoreQueue.{StoreEntry, LoadStoreQueue}
use superscalar_oooprocessor.LoadStoreQueue.Forwarding.{
  stores_from, AreAscending, is_unresolved, has_unresolved_earlier_store_lem,
}
use superscalar_oooprocessor.InstructionQueue.{
  IqInstr, InstructionQueue, can_issue, oldest_from, get_oldest_ready,
}

-- Every one of the stores that is earlier than `seq` has its address.
abbrev pub EarlierHaveAddress : ℕ → List StoreEntry → Type 0
EarlierHaveAddress seq ss = All (λ (s : StoreEntry). s.seq < seq → s.addr_ready ≡ true) ss

-- Both operands are there, and for a load the addresses of all earlier stores are known.
pub record CanIssue (lsq : LoadStoreQueue) (x : IqInstr) : Type 0 where
  pub first_operand : x.rs_ready ≡ true
  pub second_operand : x.rt_ready ≡ true
  pub earlier_stores :
      x.control.mem_read ≡ true → EarlierHaveAddress x.seq (stores_from lsq 0 lsq.sq_size)

abbrev pub Waits : LoadStoreQueue → IqInstr → Type 0
Waits lsq x = ¬ CanIssue lsq x

-- Either every instruction has to wait, or the `i`-th can issue and all before it have to wait.
abbrev pub Selects : LoadStoreQueue → InstructionQueue → ℕ → Option ℕ → Type 0
Selects lsq iq j o =
    ((o ≡ none) × All (Waits lsq) iq)
    ⊎ ((i : ℕ) × (x : IqInstr) × (o ≡ some (j + i))
        × (get_elem? iq i ≡ some x)
        × CanIssue lsq x
        × All (Waits lsq) (take i iq))

any-EarlierHaveAddress :
    (seq : ℕ) (ss : List StoreEntry)
    → any (is_unresolved seq) ss ≡ false
    → EarlierHaveAddress seq ss
any-EarlierHaveAddress seq [] e = tt
any-EarlierHaveAddress seq (s ∷ ss) e =
    (λ lt. ground arith, any-EarlierHaveAddress seq ss (ground arith))

EarlierHaveAddress-any :
    (seq : ℕ) (ss : List StoreEntry)
    → EarlierHaveAddress seq ss
    → any (is_unresolved seq) ss ≡ false
EarlierHaveAddress-any seq [] h = refl
EarlierHaveAddress-any seq (s ∷ ss) (h, hs) =
    let rest = EarlierHaveAddress-any seq ss hs in ground arith

module _ (lsq : LoadStoreQueue) (ordered : AreAscending (stores_from lsq 0 lsq.sq_size)) where
  can_issue-CanIssue : (x : IqInstr) → can_issue lsq x ≡ true → CanIssue lsq x
  can_issue-CanIssue x e = record {
    first_operand = ground arith;
    second_operand = ground arith;
    earlier_stores = λ is_load.
        any-EarlierHaveAddress x.seq (stores_from lsq 0 lsq.sq_size)
          (sym (has_unresolved_earlier_store_lem lsq x.seq ordered) ∙ ground arith);
  }

  CanIssue-can_issue : (x : IqInstr) → CanIssue lsq x → can_issue lsq x ≡ true
  CanIssue-can_issue x h = elim (Bool-cases x.control.mem_read) [
    | inl is_load ↦
        (let resolved =
            has_unresolved_earlier_store_lem lsq x.seq ordered
            ∙ EarlierHaveAddress-any x.seq (stores_from lsq 0 lsq.sq_size)
                (h.earlier_stores is_load) in
          let rs = h.first_operand in let rt = h.second_operand in ground arith)
    | inr not_load ↦ (let rs = h.first_operand in let rt = h.second_operand in ground arith)
  ]

  can_issue-Waits : (x : IqInstr) → can_issue lsq x ≡ false → Waits lsq x
  can_issue-Waits x e h = let ready = CanIssue-can_issue x h in cc

later-Selects :
    (lsq : LoadStoreQueue) (x : IqInstr) (xs : List IqInstr) (j : ℕ) (o : Option ℕ)
    → Waits lsq x
    → Selects lsq xs (suc j) o
    → Selects lsq (x ∷ xs) j o
later-Selects lsq x xs j o w (inl (e, h)) = inl (e, (w, h))
later-Selects lsq x xs j o w (inr (i, y, e, at, ready, h)) =
    inr (suc i, y, ground arith, at, ready, (w, h))

oldest_from-Selects :
    (lsq : LoadStoreQueue) (ordered : AreAscending (stores_from lsq 0 lsq.sq_size))
    (iq : InstructionQueue) (j : ℕ)
    → Selects lsq iq j (oldest_from lsq iq j)
unfolding oldest_from
oldest_from-Selects lsq ordered [] j = inl (refl, tt)
oldest_from-Selects lsq ordered (x ∷ xs) j = elim (Bool-cases (can_issue lsq x)) [
  | inl ready ↦
      rw ready (inr (0, x, ground arith, refl, can_issue-CanIssue lsq ordered x ready, tt))
  | inr waits ↦ subst (Selects lsq (x ∷ xs) j) (sym (skip waits)) (
      later-Selects lsq x xs j _ (can_issue-Waits lsq ordered x waits)
        (oldest_from-Selects lsq ordered xs (suc j)))
]
  where
    skip : can_issue lsq x ≡ false → oldest_from lsq (x ∷ xs) j ≡ oldest_from lsq xs (suc j)
    skip waits = rw waits refl

-- The stores of the queue being in program order, `get_oldest_ready` yields the index of the first
-- instruction whose two operands are ready and which, if it is a load, has no earlier store in the
-- queue with an unknown address; it yields -1 exactly if there is none.
pub get_oldest_ready_lem :
    (lsq : LoadStoreQueue) (iq : InstructionQueue)
    → AreAscending (stores_from lsq 0 lsq.sq_size)
    → Selects lsq iq 0 (get_oldest_ready iq lsq)
unfolding get_oldest_ready
get_oldest_ready_lem lsq iq ordered = oldest_from-Selects lsq ordered iq 0

oldest_from-get_elem? :
    (lsq : LoadStoreQueue) (iq : InstructionQueue) (j : ℕ)
    → (oldest_from lsq iq j ≡ none)
      ⊎ ((i : ℕ) × (x : IqInstr) × (oldest_from lsq iq j ≡ some (j + i))
          × (get_elem? iq i ≡ some x))
unfolding oldest_from
oldest_from-get_elem? lsq [] j = inl refl
oldest_from-get_elem? lsq (x ∷ xs) j = elim (Bool-cases (can_issue lsq x)) [
  | inl ready ↦ rw ready (inr (0, x, ground arith, refl))
  | inr waits ↦ elim (oldest_from-get_elem? lsq xs (suc j)) [
    | inl e ↦ rw (waits, oldest_from, e) (inl refl)
    | inr (i, y, e, at) ↦ rw (waits, oldest_from, e) (inr (suc i, y, ground arith, at))
  ]
]

-- In whatever order the stores are, an index that `get_oldest_ready` yields is in the queue.
pub get_oldest_ready-get_elem? :
    (lsq : LoadStoreQueue) (iq : InstructionQueue)
    → (get_oldest_ready iq lsq ≡ none)
      ⊎ ((i : ℕ) × (x : IqInstr) × (get_oldest_ready iq lsq ≡ some i) × (get_elem? iq i ≡ some x))
unfolding get_oldest_ready
get_oldest_ready-get_elem? lsq iq = elim (oldest_from-get_elem? lsq iq 0) [
  | inl e ↦ inl e
  | inr (i, x, e, at) ↦ inr (i, x, e ∙ ap some (omega arith), at)
]
