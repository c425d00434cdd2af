-- ===== src/Tests/Caches.antt =====
-- The caches at concrete states: those of the out-of-order core, and the older non-blocking one.
use superscalar_oooprocessor.Base.{true, false, none, ℕ, ◌+◌, ◌≡◌, refl, arith, List, [], ◌∷◌, ◌==◌}
use superscalar_oooprocessor.Cache.{get_tag, log2}
use superscalar_oooprocessor.Cache
use superscalar_oooprocessor.MemoryOoo
use superscalar_oooprocessor.MemoryOoo.{MemoryOoo, Request, reading, writing, access}
use superscalar_oooprocessor.MemoryOoo.Unique.{loaded}
use superscalar_oooprocessor.MemoryOoo.Walks.{read, write}
use superscalar_oooprocessor.MemoryOoo.Evictions.{loses_store}
use superscalar_oooprocessor.MemoryOoo.Runs.{
  Call, AllKeepStores, FlatRun, answers, answers-FlatRun, memory_after, loaded-IsCoherent,
  memory_after-IsCoherent,
}
use superscalar_oooprocessor.MemoryOoo.Lost.{IsForgotten, access-IsForgotten}
use superscalar_oooprocessor.NonBlockingCache
use superscalar_oooprocessor.NonBlockingCache.{MshrEntry, check_mshr}
use superscalar_oooprocessor.NonBlockingCache.Answers.{rounds}
use superscalar_oooprocessor.NonBlockingCache.Words.{IsFilled, rounds-IsFilled}
use superscalar_oooprocessor.NonBlockingCache.Filed
use superscalar_oooprocessor.NonBlockingCache.Filed.{
  AreFiled, allocate, squashed, after_events, after_events-AreFiled,
}
use superscalar_oooprocessor.Memory.{Memory}
use superscalar_oooprocessor.Memory
use superscalar_oooprocessor.OlderCache
use superscalar_oooprocessor.OlderCache.Balance
use superscalar_oooprocessor.OlderCache.Balance.{
  request, check, run, waiting, answered, targets_of, run-balanced,
}
use superscalar_oooprocessor.Tests.Data.{blank_line}

abbrev words_of_index : ℕ → ℕ
words_of_index i = i + 100

-- A write that needs three calls, and a read of the next word.
abbrev four_calls : List Call
four_calls =
    (256, 0, writing 7) ∷ (256, 0, writing 7) ∷ (256, 0, writing 7) ∷ (260, 0, reading) ∷ []

answers-FlatRun_example :
    FlatRun words_of_index four_calls (answers four_calls (loaded blank_line words_of_index 2))
unfolding MemoryOoo.init loses_store access MemoryOoo.try_level MemoryOoo.fill_l1 MemoryOoo.fill_l2
    Cache.read Cache.write Cache.is_hit Cache.read_line Cache.write_back_line Cache.replace
    Cache.invalidate_line Cache.find_way Cache.find_victim Cache.update_replacement_bits
    Cache.age_ways Cache.get_index Cache.get_tag Cache.log2 Cache.write_back_ways
    Cache.invalidate_ways
answers-FlatRun_example =
    answers-FlatRun blank_line words_of_index 2 four_calls (omega arith)
      (write 7, refl, (write 7, refl, (write 7, refl, (read, refl, tt))))

-- Then seven other blocks of its set of L2 are fetched.
abbrev full_set : List Call
full_set =
    (256, 0, writing 7)
    ∷ ((256, 0, writing 7)
        ∷ ((256, 0, writing 8)
            ∷ ((33024, 0, reading)
                ∷ ((65792, 0, reading)
                    ∷ ((98560, 0, reading)
                        ∷ ((131328, 0, reading)
                            ∷ ((164096, 0, reading)
                                ∷ ((196864, 0, reading) ∷ ((229632, 0, reading) ∷ [])))))))))

abbrev started : MemoryOoo
started = loaded blank_line words_of_index 2

full_set-AllKeepStores : AllKeepStores full_set started
unfolding MemoryOoo.init loses_store access MemoryOoo.try_level MemoryOoo.fill_l1 MemoryOoo.fill_l2
    Cache.read Cache.write Cache.is_hit Cache.read_line Cache.write_back_line Cache.replace
    Cache.invalidate_line Cache.find_way Cache.find_victim Cache.update_replacement_bits
    Cache.age_ways Cache.get_index Cache.get_tag Cache.log2 Cache.write_back_ways
    Cache.invalidate_ways
full_set-AllKeepStores = (
  write 7,
  refl,
  (
    write 7,
    refl,
    (
      write 8,
      refl,
      (
        read,
        refl,
        (read, refl, (read, refl, (read, refl, (read, refl, (read, refl, (read, refl, tt)))))),
      ),
    ),
  ),
)

access-IsForgotten_example :
    (k : ℕ) × IsForgotten
      (memory_after full_set started)
      (access (memory_after full_set started) 262400 0 reading).2
      k
unfolding memory_after MemoryOoo.init loses_store access MemoryOoo.try_level MemoryOoo.fill_l1
    MemoryOoo.fill_l2 Cache.read Cache.write Cache.is_hit Cache.read_line Cache.write_back_line
    Cache.replace Cache.invalidate_line Cache.find_way Cache.find_victim
    Cache.update_replacement_bits Cache.age_ways Cache.get_index Cache.get_tag Cache.log2
    Cache.write_back_ways Cache.invalidate_ways
access-IsForgotten_example =
    access-IsForgotten (memory_after full_set started) 262400 0 reading
      (memory_after-IsCoherent full_set started
        (loaded-IsCoherent blank_line words_of_index 2 (omega arith)) full_set-AllKeepStores)
      read refl refl

-- Two targets of one block, which the memory of level 0 answers at once.
abbrev two_requests : List Balance.Event
two_requests = request 64 3 40 ∷ (request 64 4 41 ∷ (check ∷ []))

abbrev no_cache : OlderCache.NonBlockingCache
no_cache = record { mshrs = []; ready_responses = [] }

abbrev plain_memory : Memory
plain_memory = Memory.init blank_line (λ i. blank_line) (λ i. blank_line)

run-balanced_example :
    let (c', _, accepted) = run two_requests (OlderCache.initialize no_cache) plain_memory in
    waiting (λ r d. r == 3) c'.mshrs + answered (λ r d. r == 3) c'.ready_responses
    ≡ 0 + targets_of (λ r d. r == 3) accepted
run-balanced_example = run-balanced (λ r d. r == 3) two_requests no_cache plain_memory

-- An entry that waits for two more rounds, with a target in its block.
abbrev waiting_entry : MshrEntry
waiting_entry = record {
  block_addr = 256;
  valid = true;
  countdown = 2;
  fill_pending = false;
  targets = record { rob_index = none; reg = 40; addr = 260; seq = 3 } ∷ [];
}

rounds-IsFilled_example :
    IsFilled started waiting_entry
      (check_mshr started (rounds (λ i. started) waiting_entry.countdown waiting_entry))
unfolding MemoryOoo.init loses_store access MemoryOoo.try_level MemoryOoo.fill_l1 MemoryOoo.fill_l2
    Cache.read Cache.write Cache.is_hit Cache.read_line Cache.write_back_line Cache.replace
    Cache.invalidate_line Cache.find_way Cache.find_victim Cache.update_replacement_bits
    Cache.age_ways Cache.get_index Cache.get_tag Cache.log2 Cache.write_back_ways
    Cache.invalidate_ways
rounds-IsFilled_example =
    rounds-IsFilled (λ i. started) started waiting_entry refl refl
      (loaded-IsCoherent blank_line words_of_index 2 (omega arith)) refl (refl, tt)

after_events-AreFiled_example : AreFiled (
    after_events
      (allocate 260 none 40 3
        ∷ (allocate 264 none 41 4 ∷ (squashed 3 ∷ (Filed.check started ∷ []))))
      (NonBlockingCache.initialize (λ i. waiting_entry) 12))
after_events-AreFiled_example =
    after_events-AreFiled (λ i. waiting_entry) 12
      (allocate 260 none 40 3
        ∷ (allocate 264 none 41 4 ∷ (squashed 3 ∷ (Filed.check started ∷ []))))
