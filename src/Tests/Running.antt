-- ===== src/Tests/Running.antt =====
-- A core in the middle of a program, for the tests of the stages.
use superscalar_oooprocessor.Base.{true, false, some, [], ◌∷◌, ◌==◌, if◌then◌else◌, arith}
use superscalar_oooprocessor.Control.{reset}
use superscalar_oooprocessor.InstructionQueue.{IqInstr}
use superscalar_oooprocessor.FunctionalUnits.{FunctionalUnit}
use superscalar_oooprocessor.ProcessorOoo.State.{Core}
use superscalar_oooprocessor.ProcessorOoo.Decode.{decode_slot}
use superscalar_oooprocessor.ProcessorOoo.Start.{start}
use superscalar_oooprocessor.ProcessorOoo.Safety.Invariant.{IsPlaced, IsSafe}
use superscalar_oooprocessor.ProcessorOoo.Safety.Run.{decode_slot-IsDecoded}
use superscalar_oooprocessor.Tests.Data.{
  add_word, load_instruction, program, blank_instr, garbage, slot_of, two_entries, renamed_file,
  two_entries-AreSound, two_stores, two_stores-IsValid,
}

abbrev load_instr : IqInstr
load_instr = record blank_instr {
  seq = 9;
  control = record reset { mem_read = true; mem_to_reg = true; alu_src = true; reg_write = true };
  load_index = some 0;
}

abbrev unit : IqInstr → FunctionalUnit
unit i = record {
  ready = false;
  instr = i;
  has_result = true;
  result_instr = blank_instr;
  result = 5;
}

-- Eight decoded instructions, one waiting, a load and an addition in the units, two entries of the
-- reorder buffer that can commit, two stores to drain, and an answered load.
abbrev pub running : Core
running = record (start garbage program 8) {
  id_rn_buffer = λ i. decode_slot (slot_of (if i == 1 then load_instruction else add_word));
  rob = two_entries;
  prf = renamed_file;
  iq = blank_instr ∷ [];
  fu = unit load_instr ∷ unit blank_instr ∷ [];
  lsq = two_stores;
  d_nbc = record {
    mshrs =
        record {
          block_addr = 64;
          valid = true;
          countdown = 0;
          fill_pending = true;
          targets = record { rob_index = some 2; reg = 41; addr = 68; seq = 8 } ∷ [];
        }
        ∷ [];
    miss_penalty = 12;
    ready_responses = record { rob_index = some 1; reg = 42; data_word = 7 } ∷ [];
  };
}

blank_instr-IsPlaced : IsPlaced blank_instr
blank_instr-IsPlaced = record {
  rob_place = omega arith;
  load_place = λ e. cc;
  store_place = λ e f. cc;
}

load_instr-IsPlaced : IsPlaced load_instr
load_instr-IsPlaced = record {
  rob_place = omega arith;
  load_place = λ e. omega arith;
  store_place = λ e f. cc;
}

pub running-IsSafe : IsSafe running
unfolding start
running-IsSafe = record {
  registers = two_entries-AreSound;
  queues = two_stores-IsValid;
  waiting = (blank_instr-IsPlaced, tt);
  running = (
    record { waiting = λ e. load_instr-IsPlaced; finished = λ e. omega arith },
    (record { waiting = λ e. blank_instr-IsPlaced; finished = λ e. omega arith }, tt),
  );
  missing = ((omega arith, tt), tt);
  answered = (omega arith, tt);
  decoded = λ i. decode_slot-IsDecoded _;
}
