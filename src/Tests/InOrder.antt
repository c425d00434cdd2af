-- ===== src/Tests/InOrder.antt =====
-- The in-order processors and the answers of the non-blocking cache at concrete states.
use superscalar_oooprocessor.Base.{
  ℕ, ◌-◌, ◌^◌, ◌≡◌, refl, arith, true, false, List, [], ◌∷◌, none, inl, ◌==◌, if◌then◌else◌,
}
use superscalar_oooprocessor.Memory.{Memory}
use superscalar_oooprocessor.Memory
use superscalar_oooprocessor.MemoryOoo.Unique.{AreUnique, after_accesses, after_accesses-AreUnique}
use superscalar_oooprocessor.MemoryOoo.Unique
use superscalar_oooprocessor.MemoryOoo.{MemoryOoo}
use superscalar_oooprocessor.MemoryOoo
use superscalar_oooprocessor.NonBlockingCache.{MshrEntry, MshrTarget}
use superscalar_oooprocessor.NonBlockingCache.Answers.{IsAnswered, rounds, rounds-IsAnswered}
use superscalar_oooprocessor.MemoryOoo.{Request, reading, writing}
use superscalar_oooprocessor.Memory.Waiting.{answered_within}
use superscalar_oooprocessor.Memory.Order.{loaded, after_calls, after_calls-answered}
use superscalar_oooprocessor.Processor.SingleCycle.{single_cycle_processor_advance}
use superscalar_oooprocessor.Processor.Jumps.{jump-zero}
use superscalar_oooprocessor.Registers.{Registers}
use superscalar_oooprocessor.Registers
use superscalar_oooprocessor.Processor.Isa
use superscalar_oooprocessor.Processor.Isa.{
  Instr, step, encode, IsEncodable, addiu, addu, operate, immediate, load, store, word, byte, nop,
  add,
}
use superscalar_oooprocessor.Processor.Outcome.{machine_of}
use superscalar_oooprocessor.Processor.Manual.{prescribed, IsLow}
use superscalar_oooprocessor.Processor.Programs.{done, next, cycles, cycles-Runs}
use superscalar_oooprocessor.Processor.State.{start}
use superscalar_oooprocessor.Control.{decode}
use superscalar_oooprocessor.Processor.Pipeline.{
  writeback_stage, memory_stage, execute_stage, decode_stage, fetch_stage,
  pipelined_processor_advance, forward,
}
use superscalar_oooprocessor.Processor.Forwarding.{
  before_execute, pipelined_cycles, AreCurrent, run-AreCurrent,
}
use superscalar_oooprocessor.Tests.Data.{blank_line}

-- `addiu $8, $0, 5`, `addu $9, $8, $8`, `sw $9, 64($0)` and `lbu $10, 64($0)`
abbrev five : Instr
five = immediate addiu 8 0 5

abbrev double : Instr
double = operate addu 9 8 8

abbrev save : Instr
save = store word 9 0 64

abbrev fetch_byte : Instr
fetch_byte = load byte 10 0 64

abbrev in_order_memory : Memory
in_order_memory = record (Memory.init blank_line (λ i. blank_line) (λ i. blank_line)) {
  mem = λ i.
      if i == 0
      then 0x24080005
      else if i == 1
      then 0x01084821
      else if i == 2
      then 0xac090040
      else if i == 3
      then 0x900a0040
      else 0;
}

abbrev after_store : Isa.Machine
after_store = step save (step double (step five (machine_of (in_order_memory, Registers.init))))

cycles-Runs_example :
    machine_of (cycles 5 (in_order_memory, Registers.init)) ≡ step nop (step fetch_byte after_store)
unfolding Memory.init Registers.init step encode IsEncodable prescribed IsLow
cycles-Runs_example =
    cycles-Runs 5 in_order_memory Registers.init refl
      (record { regs_words = λ i. omega arith; mem_words = λ i. ground arith })
      (next five (omega arith, omega arith, omega arith, omega arith) refl refl tt refl
        (next double (omega arith, omega arith, omega arith, omega arith) refl refl tt refl
          (next save (omega arith, omega arith, omega arith) refl refl tt refl
            (next fetch_byte (omega arith, omega arith, omega arith, omega arith) refl refl refl
              refl (next nop tt refl refl tt refl done)))))

-- By the manual `add` traps where 1 is added to the largest number.
prescribed_overflow :
    prescribed
      (operate add 10 8 9)
      (record { regs = λ i. if i == 8 then 2 ^ 31 - 1 else 1; mem = λ i. 0; pc = 0 })
    ≡ none
unfolding prescribed
prescribed_overflow = refl

run-AreCurrent_example : AreCurrent (before_execute (pipelined_cycles 3 (start in_order_memory)))
unfolding Memory.init Memory.access Registers.init Registers.access start writeback_stage
    memory_stage execute_stage decode_stage fetch_stage pipelined_processor_advance forward decode
run-AreCurrent_example = run-AreCurrent 3 in_order_memory refl

abbrev load_target : MshrTarget
load_target = record { rob_index = none; reg = 40; addr = 128; seq = 3 }

abbrev waiting_mshr : MshrEntry
waiting_mshr = record {
  block_addr = 128;
  valid = true;
  countdown = 2;
  fill_pending = false;
  targets = load_target ∷ [];
}

rounds-IsAnswered_example :
    IsAnswered
      (MemoryOoo.init blank_line)
      (rounds (λ i. MemoryOoo.init blank_line) 2 waiting_mshr)
      (load_target ∷ [])
unfolding MemoryOoo.init
rounds-IsAnswered_example =
    rounds-IsAnswered (λ i. MemoryOoo.init blank_line) (MemoryOoo.init blank_line) waiting_mshr refl
      refl (record { l1_ways = omega arith; l2_ways = omega arith })

abbrev two_calls : List (ℕ × ℕ × Request)
two_calls = (128, 0, reading) ∷ (4096, 0, writing 7) ∷ []

after_calls-answered_example :
    answered_within 72
      (after_calls two_calls
        (loaded blank_line (λ i. blank_line) (λ i. blank_line) in_order_memory.mem 1))
      64
    ≡ true
after_calls-answered_example =
    after_calls-answered blank_line (λ i. blank_line) (λ i. blank_line) in_order_memory.mem 1
      two_calls 64

-- `j 0x40`
abbrev jumping : Memory
jumping = record in_order_memory { mem = λ i. 0x08000010 }

jump-zero_example : (single_cycle_processor_advance jumping Registers.init).1.pc ≡ 0
unfolding Memory.init
jump-zero_example = jump-zero jumping Registers.init refl (inl refl)

after_accesses-AreUnique_example :
    AreUnique (after_accesses two_calls (Unique.loaded blank_line in_order_memory.mem 2))
after_accesses-AreUnique_example =
    after_accesses-AreUnique blank_line in_order_memory.mem 2 two_calls
