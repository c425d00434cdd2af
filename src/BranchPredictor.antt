-- ===== src/BranchPredictor.antt =====
-- branch_predictor.h: a branch target buffer of 256 entries with two-bit counters. A program counter,
-- a target and a counter are `int` in the source and 32-bit patterns here: a counter decremented at 0
-- is the pattern of -1.
pub mod Learning
use superscalar_oooprocessor.Base.{
  ℕ, ◌+◌, ◌-◌, ◌*◌, ◌/◌, ◌%◌, ◌^◌, Bool, true, false, not, ◌&&◌, ◌||◌, ltb, leb, ◌==◌,
  if◌then◌else◌, update,
}
use superscalar_oooprocessor.Config.{btb_bits}

pub record BtbEntry : Type 0 where
  pub valid : Bool
  pub tag : ℕ
  pub target : ℕ
  pub bimodal_counter : ℕ

pub record BtbResult : Type 0 where
  pub taken : Bool
  pub target : ℕ

pub record BranchPredictor : Type 0 where
  pub btb : ℕ → BtbEntry
  pub total_branches : ℕ
  pub mispredictions : ℕ

unfoldable pub init : BranchPredictor
init = record {
  btb = λ i. record { valid = false; tag = 0; target = 0; bimodal_counter = 0 };
  total_branches = 0;
  mispredictions = 0;
}

-- `pc >> 2` of an `int`, which copies the sign bit.
abbrev pub word_of : ℕ → ℕ
word_of pc = if ltb pc (2 ^ 31) then pc / 4 else pc / 4 + 3 * 2 ^ 30

-- `~(~0 << BTB_BITS) & pc` and `(~0 << BTB_BITS) & pc` after the shift.
unfoldable pub index_of : ℕ → ℕ
index_of pc = word_of pc % 2 ^ btb_bits

unfoldable pub tag_of : ℕ → ℕ
tag_of pc = word_of pc - word_of pc % 2 ^ btb_bits

unfoldable pub is_branch : BranchPredictor → ℕ → Bool
is_branch b pc = let e = b.btb (index_of pc) in e.valid && (e.tag == tag_of pc)

-- `counter < limit` and `counter > 0` of an `int`, for a limit that is not negative.
abbrev pub counter_below : ℕ → ℕ → Bool
counter_below counter limit = leb (2 ^ 31) counter || ltb counter limit

abbrev pub counter_positive : ℕ → Bool
counter_positive counter = ltb 0 counter && ltb counter (2 ^ 31)

unfoldable pub predict : BranchPredictor → ℕ → BtbResult
predict b pc =
    let e = b.btb (index_of pc) in
    record { taken = not (counter_below e.bimodal_counter 2); target = e.target }

-- The new entry of `update`.
unfoldable pub train : BtbEntry → Bool → ℕ → ℕ → BtbEntry
train e taken tag target =
    if not e.valid || not (e.tag == tag)
    then record {
      valid = true;
      tag = tag;
      target = target;
      bimodal_counter = if taken then 2 else 1;
    }
    else if taken
    then record e {
      bimodal_counter =
          if counter_below e.bimodal_counter 3
          then (e.bimodal_counter + 1) % 2 ^ 32
          else e.bimodal_counter;
      target = target;
    }
    else record e {
      bimodal_counter =
          if counter_positive e.bimodal_counter
          then (e.bimodal_counter + (2 ^ 32 - 1)) % 2 ^ 32
          else e.bimodal_counter;
    }

-- `BranchPredictor::update`
unfoldable pub update_entry : BranchPredictor → Bool → ℕ → ℕ → BranchPredictor
unfolding train
update_entry b taken pc target = record b {
  btb = update b.btb (index_of pc) (train (b.btb (index_of pc)) taken (tag_of pc) target);
}

unfoldable pub target_match : BranchPredictor → ℕ → ℕ → Bool
target_match b pc target =
    let e = b.btb (index_of pc) in e.valid && (e.tag == tag_of pc) && (e.target == target)
