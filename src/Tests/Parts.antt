-- ===== src/Tests/Parts.antt =====
-- The theorems about the parts of the core at concrete states.
use superscalar_oooprocessor.Base.{
  keep, not, ltb, List, [], ◌∷◌, ◌+◌, ◌%◌, ◌^◌, ◌<◌, true, false, none, some, ◌≡◌, ◌≢◌, refl, arith,
  length, leb, if◌then◌else◌, any,
}
use superscalar_oooprocessor.Config.{reorder_buffer_size, u32_mod}
use superscalar_oooprocessor.Control.{decode}
use superscalar_oooprocessor.Control.Classes.{IsExclusive, decode-IsExclusive}
use superscalar_oooprocessor.Alu.{execute, extend_imm}
use superscalar_oooprocessor.Alu.Laws.{execute-slt, extend_imm_signed}
use superscalar_oooprocessor.Cache.{CacheLevel, replace, read, write}
use superscalar_oooprocessor.Cache.Hits.{read-write}
use superscalar_oooprocessor.LoadStoreQueue.{
  squash, try_forward, find_load_by_seq, has_unresolved_earlier_store, evict_commited_stores,
}
use superscalar_oooprocessor.LoadStoreQueue.Bounds
use superscalar_oooprocessor.LoadStoreQueue.Forwarding.{
  ForwardsTo, AreAscending, stores_from, is_unresolved, try_forward_lem,
  has_unresolved_earlier_store_lem,
}
use superscalar_oooprocessor.ReorderBuffer.{insert, commit}
use superscalar_oooprocessor.ReorderBuffer
use superscalar_oooprocessor.ReorderBuffer.Queue.{
  IsValid, contents, append_bounded, fresh, commit_oldest, insert_refines, commit_refines,
}
use superscalar_oooprocessor.ReorderBuffer.Squash.{IsSquashed, squash_lem}
use superscalar_oooprocessor.ReorderBuffer.Sound.{AreSound, squash-AreSound, commit-AreSound}
use superscalar_oooprocessor.InstructionQueue.{IqInstr, get_oldest_ready}
use superscalar_oooprocessor.LoadStoreQueue.Contents.{loads, stores}
use superscalar_oooprocessor.InstructionQueue.Select.{Selects, get_oldest_ready_lem}
use superscalar_oooprocessor.FunctionalUnits.{FunctionalUnit, issue_to_unit}
use superscalar_oooprocessor.FunctionalUnits
use superscalar_oooprocessor.FunctionalUnits.Flight.{
  Issues, in_flight, finished, issue_to_unit_lem, in_flight-squash,
}
use superscalar_oooprocessor.BranchPredictor.{
  init, index_of, update_entry, predict, is_branch, target_match,
}
use superscalar_oooprocessor.BranchPredictor.Learning.{
  IsSaturated, update_entry-IsSaturated, target_match-update_entry, predict-update_entry_twice,
}
use superscalar_oooprocessor.Tests.Data.{
  garbage, blank_line, program, add_word, two_entries, renamed_file, two_entries-IsValid,
  two_entries-IsAscending, two_entries-AreSound, two_stores, two_stores-IsValid, blank_instr,
}

squash_lem_example :
    IsSquashed 4
      (contents two_entries)
      renamed_file
      (ReorderBuffer.squash two_entries 4 renamed_file)
squash_lem_example = squash_lem 4 renamed_file two_entries-IsValid two_entries-IsAscending

-- The oldest entry is that of the first of the two stores.
abbrev store_first : ReorderBuffer.ReorderBuffer
store_first = record two_entries {
  buffer = λ i. record (two_entries.buffer i) { seq = 5; store_index = some 63 };
}

commit_refines_example :
    (let (done, r', p', q') = commit store_first renamed_file two_stores in
      (done, contents r', p', loads q', stores q'))
    ≡ commit_oldest (contents store_first) renamed_file (loads two_stores) (stores two_stores)
commit_refines_example = commit_refines renamed_file two_stores (ground arith) two_stores-IsValid

insert_refines_example :
    let (index, r') = insert two_entries 7 10 34 10 none none in
    (contents r' ≡ append_bounded (contents two_entries) (fresh 7 10 34 10 none none))
    × (index ≡ (
        if leb reorder_buffer_size (length (contents two_entries))
        then none
        else some two_entries.tail))
    × IsValid r'
insert_refines_example = insert_refines 7 10 34 10 none none two_entries-IsValid

squash-AreSound_example :
    AreSound
      (ReorderBuffer.squash two_entries 4 renamed_file).0
      (ReorderBuffer.squash two_entries 4 renamed_file).1
squash-AreSound_example = squash-AreSound 4 two_entries-AreSound

commit-AreSound_example :
    AreSound
      (commit two_entries renamed_file two_stores).1
      (commit two_entries renamed_file two_stores).2
commit-AreSound_example = commit-AreSound renamed_file two_stores two_entries-AreSound

try_forward_lem_example :
    ForwardsTo two_stores 9 (try_forward two_stores 9) (find_load_by_seq two_stores 9)
try_forward_lem_example = try_forward_lem two_stores 9

try_forward_youngest : try_forward two_stores 9 ≡ some 22
unfolding try_forward find_load_by_seq
try_forward_youngest = refl

two_stores-AreAscending : AreAscending (stores_from two_stores 0 two_stores.sq_size)
two_stores-AreAscending = ground arith

has_unresolved_earlier_store_lem_example :
    has_unresolved_earlier_store two_stores 9
    ≡ any (is_unresolved 9) (stores_from two_stores 0 two_stores.sq_size)
has_unresolved_earlier_store_lem_example =
    has_unresolved_earlier_store_lem two_stores 9 two_stores-AreAscending

lsq_squash-IsValid_example : Bounds.IsValid (squash two_stores 5)
lsq_squash-IsValid_example = Bounds.squash-IsValid two_stores 5 two_stores-IsValid

evict_commited_stores-IsValid_example :
    Bounds.IsValid (evict_commited_stores two_stores program 8).1
evict_commited_stores-IsValid_example =
    Bounds.evict_commited_stores-IsValid two_stores program 8 two_stores-IsValid

-- A load with both operands, later than the two stores.
abbrev waiting_load : IqInstr
waiting_load = record blank_instr {
  seq = 9;
  rs_ready = true;
  rt_ready = true;
  control = record blank_instr.control { mem_read = true };
}

get_oldest_ready_lem_example :
    Selects two_stores
      (waiting_load ∷ (blank_instr ∷ []))
      0
      (get_oldest_ready (waiting_load ∷ (blank_instr ∷ [])) two_stores)
get_oldest_ready_lem_example =
    get_oldest_ready_lem two_stores (waiting_load ∷ (blank_instr ∷ [])) two_stores-AreAscending

init-IsSaturated : IsSaturated init
unfolding init
init-IsSaturated i = omega arith

update_entry-IsSaturated_example : IsSaturated (update_entry init true 64 128)
update_entry-IsSaturated_example = update_entry-IsSaturated init true 64 128 init-IsSaturated

target_match-update_entry_example : target_match (update_entry init true 64 128) 64 128 ≡ true
target_match-update_entry_example = target_match-update_entry init 64 128

predict-update_entry_twice_example :
    let b' = update_entry (update_entry init false 64 68) false 64 68 in
    (is_branch b' 64 ≡ true) × ((predict b' 64).taken ≡ false)
predict-update_entry_twice_example = predict-update_entry_twice init false 64 68 68 init-IsSaturated

elsewhere : index_of 68 ≢ index_of 64
unfolding index_of
elsewhere = omega arith

decode-IsExclusive_example : IsExclusive (decode add_word)
decode-IsExclusive_example = decode-IsExclusive add_word

execute-slt_example : (execute 7 (2 ^ 31) 1).0 ≡ (
    if ltb (2 ^ 31) (2 ^ 31)
    then (if ltb 1 (2 ^ 31) then (if ltb (2 ^ 31) 1 then 1 else 0) else 0)
    else if ltb 1 (2 ^ 31)
    then 1
    else if ltb (2 ^ 31) 1
    then 1
    else 0)
execute-slt_example = execute-slt (2 ^ 31) 1 (omega arith) (omega arith)

extend_imm_signed_example :
    (extend_imm false 0xfffc < u32_mod)
    × (extend_imm false 0xfffc % 2 ^ 16 ≡ 0xfffc)
    × ((extend_imm false 0xfffc + 2 ^ 15) % u32_mod ≡ (0xfffc + 2 ^ 15) % 2 ^ 16)
extend_imm_signed_example = extend_imm_signed 0xfffc (omega arith)

-- A level that holds the line of the address 128.
abbrev one_line : CacheLevel
one_line = (replace program.l1 128 blank_line).1

read-write_example :
    let (hit, c') = write one_line 132 77 in (read c' 132).0 ≡ (if hit then some 77 else none)
read-write_example = read-write one_line 132 77

-- A busy unit, and a free one whose result is not written back.
abbrev two_units : List FunctionalUnit
two_units =
    record (garbage.units 0) { has_result = false } ∷ record (garbage.units 1) { ready = true } ∷ []

issue_to_unit_lem_example : Issues two_units blank_instr (issue_to_unit two_units blank_instr)
issue_to_unit_lem_example = issue_to_unit_lem two_units blank_instr

in_flight-squash_example :
    (in_flight (FunctionalUnits.squash two_units 6)
      ≡ keep (λ i. not (ltb 6 i.seq)) (in_flight two_units))
    × (finished (FunctionalUnits.squash two_units 6)
        ≡ keep (λ i. not (ltb 6 i.seq)) (finished two_units))
in_flight-squash_example = in_flight-squash two_units 6
