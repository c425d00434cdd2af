-- ===== src/Lib.antt =====
-- A model of the MIPS processors of this repository, and what it guarantees.
--
-- The program simulates one of three processors: a single-cycle one, one of five stages with stalling
-- caches, and one that fetches, decodes and renames eight instructions a cycle in order, executes them
-- out of order, and commits them in order. The model follows its classes:
--
--   processor.h, processor.cpp   Processor: State has the pipeline registers, SingleCycle and Pipeline
--       the two in-order processors. Isa has the instructions, their encoding and what the processor
--       makes of them, Manual what the MIPS manual prescribes; Outcome, Encoding, Steps, Refines and
--       Programs compare the single-cycle processor with both. Jumps is about j and jal; Hazards and
--       Forwarding follow the operands of the five stages.
--   memory.h, memory.cpp   StallCache (`Cache`; Ranks, Victims, Replaced, Edited and Reads follow the
--       replacement bits) and Memory, with Nearer and Waiting (a repeated read) and Order (any
--       accesses).
--   regfile.h   Registers.
--   processorOOO.h, processorOOO.cpp   ProcessorOoo and the modules below it: State has the pipeline
--       registers and the parts, Start the constructors and `initialize`, and Fetch, Decode, Rename,
--       Dispatch, Execute and Retire have one function for each stage and for the parts of a stage.
--       `out_of_order_advance` composes them in the order of the source, `get_pc` is `getPC`.
--   reorder_buffer.h, reorder_buffer.cpp   ReorderBuffer. Queue and Squash compare it with a list;
--       Renaming, Conservation and Sound follow every physical register through it.
--   prf.h   PhysicalRegisterFile.
--   instruction_queue.h, instruction_queue.cpp   InstructionQueue, with Select.
--   load_store_queue.h, load_store_queue.cpp   LoadStoreQueue, with Bounds, Contents and Forwarding.
--   functional_units.h   FunctionalUnits, with Flight.
--   branch_predictor.h   BranchPredictor, with Learning.
--   memory_ooo.h, memory_ooo.cpp   Cache (`NBCacheLevel`), MemoryOoo (`MemoryOOO`) and
--       NonBlockingCache, with Answers, Words and Filed. Hits, Fills, Edits and Unique of Cache follow
--       the ways of a level; Contents says which entry a level has of each block, and Touched,
--       Accesses, Sweeps, Moves and Swaps what each operation does to the entries. Shelves, Fills and
--       Stores of MemoryOoo are about two such levels over a memory; Walks, Coherence and Evictions
--       say that `access` moves lines between them, and Flat, Refines and Runs compare it with a
--       memory without caches. Fetched and Progress follow a read that is repeated, Lost is about the
--       stores that are forgotten, and Unique about the tags after any accesses.
--   non_blocking_cache.h, non_blocking_cache.cpp   OlderCache, with Balance: an older copy of
--       `NonBlockingCache`, which no other file includes.
--   main.cpp   Main: Loader is `load`, CommandLine is `main`. Mirror and Options follow what the
--       options and the loader leave, Text compares `load` with the words of a file, and Endless is
--       about the levels 3 and 4.
--   control.h   Control, with Classes.
--   ALU.h   Alu, with Laws.
--   config.h   Config.
--
-- ProcessorOoo.Safety has the invariant of the whole core and a lemma for each stage. Base has the shared
-- definitions: tests on numbers, lists, arrays and bits. Tests has concrete states and runs.
--
-- How the code is read:
--
--   - Words, addresses and counters are natural numbers. An operation that can leave the range of its
--     type has the wrap-around written out, with `% 2 ^ 32` or `% 2 ^ 64`; signed values are their bit
--     patterns, and a signed comparison is one of bit patterns.
--   - An index that can be -1 is an option; a use of such an index, the front of an empty free list and
--     an index out of the issue queue give `none`, which is undefined behaviour or an exception. An
--     array is a function of the index; the size of the memory array, 2 ^ 21 words, is not modelled, so
--     an address beyond it is not noticed.
--   - What a constructor leaves uninitialised is a parameter (`Garbage`, and `indeterminate` of the
--     memory, the cache line that `access` declares without a value: a new one in each call, here one
--     of any value for all calls).
--   - The memory is one object that the core and both non-blocking caches point to; it is passed along.
--   - A `while` or `for` loop is recursion on the number of its rounds. The loop of `dispatch_stage`,
--     whose counter does not count, has one more round than the issue queue has entries: each round
--     takes one out, so the loop is over before. `log2` of a number has that number as fuel. The bound
--     of four accesses for a fill is the source's. A caller of `Memory` that repeats a read is recursion
--     on the number of its calls; 72 are the two penalties, 59 and 12, and one more. The loop of `main`
--     is run for a number of rounds, and has not ended when they are used up.
--   - A file is the list of its bytes: `fseek` to a place and `fread` of some bytes are `drop` and
--     `take`. What elf.h declares is a parameter (`ElfFormat`), and so are the results of
--     `getopt_long`, as a list. The word that `fread` fills is that of a little-endian machine.
--
-- Not modelled: printing and logging, the help text among it; the scripts and test programs. Isa has
-- no j, jal, sltu and sltiu, with which the processor does not do what the manual says. Nor does it
-- where an instruction other than nop has the destination 0, a byte or a halfword is within its word,
-- an instruction would trap, or a branch has a delay slot: runs with these are outside the comparison.
pub mod Base
pub mod Config
pub mod Control
pub mod Alu
pub mod PhysicalRegisterFile
pub mod Cache
pub mod MemoryOoo
pub mod LoadStoreQueue
pub mod ReorderBuffer
pub mod InstructionQueue
pub mod FunctionalUnits
pub mod BranchPredictor
pub mod NonBlockingCache
pub mod ProcessorOoo
pub mod Registers
pub mod StallCache
pub mod Memory
pub mod OlderCache
pub mod Processor
pub mod Main
pub mod Tests
