-- ===== src/BranchPredictor/Learning.antt =====
-- What the branch predictor (branch_predictor.h) has learnt after `update`.
use superscalar_oooprocessor.Base.{ℕ, ◌≤◌, ◌≡◌, ◌≢◌, Bool, true, false, ◌==◌, arith, if-both}
use superscalar_oooprocessor.BranchPredictor.{
  BtbEntry, BranchPredictor, index_of, tag_of, is_branch, predict, train, update_entry,
  target_match,
}

-- Every counter is one of 0, 1, 2 and 3, and so not negative.
abbrev pub IsSaturated : BranchPredictor → Type 0
IsSaturated b = (i : ℕ) → (b.btb i).bimodal_counter ≤ 3

train-le :
    (e : BtbEntry) (taken : Bool) (tag target : ℕ)
    → e.bimodal_counter ≤ 3
    → (train e taken tag target).bimodal_counter ≤ 3
unfolding train
train-le e taken tag target h = ground arith

-- `update` keeps every counter of the table between 0 and 3: it neither goes beyond 3 nor becomes
-- negative.
pub update_entry-IsSaturated :
    (b : BranchPredictor) (taken : Bool) (pc target : ℕ)
    → IsSaturated b
    → IsSaturated (update_entry b taken pc target)
unfolding update_entry
update_entry-IsSaturated b taken pc target h i =
    if-both (λ (e : BtbEntry). e.bimodal_counter ≤ 3) (i == index_of pc)
      (train-le (b.btb (index_of pc)) taken (tag_of pc) target (h (index_of pc))) (h i)

-- After a taken branch was learnt, the table knows the branch and its target.
pub target_match-update_entry :
    (b : BranchPredictor) (pc target : ℕ)
    → target_match (update_entry b true pc target) pc target ≡ true
unfolding target_match update_entry train
target_match-update_entry b pc target = ground arith

-- Whatever the state of the table, its counters having two bits: after two equal outcomes of a branch
-- in a row the predictor knows the branch and predicts that outcome.
pub predict-update_entry_twice :
    (b : BranchPredictor) (taken : Bool) (pc target1 target2 : ℕ)
    → IsSaturated b
    → let b' = update_entry (update_entry b taken pc target1) taken pc target2 in
      (is_branch b' pc ≡ true) × ((predict b' pc).taken ≡ taken)
unfolding is_branch predict update_entry train
predict-update_entry_twice b true pc target1 target2 h = let k = h (index_of pc) in ground arith
predict-update_entry_twice b false pc target1 target2 h = let k = h (index_of pc) in ground arith

-- `update` for one branch leaves what is predicted at every address of another index.
pub predict-update_entry_other :
    (b : BranchPredictor) (taken : Bool) (pc target pc' : ℕ)
    → index_of pc' ≢ index_of pc
    → let b' = update_entry b taken pc target in
      (predict b' pc' ≡ predict b pc') × (is_branch b' pc' ≡ is_branch b pc')
unfolding is_branch predict update_entry
predict-update_entry_other b taken pc target pc' ne = ground arith
