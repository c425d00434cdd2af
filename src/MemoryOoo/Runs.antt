-- ===== src/MemoryOoo/Runs.antt =====
-- Runs of `MemoryOOO` (memory_ooo.cpp) from a loaded program on, and what the caches forget.
use superscalar_oooprocessor.Base.{
  ℕ, ◌+◌, ◌*◌, ◌/◌, ◌%◌, ◌≡◌, ◌≢◌, refl, ap, ap₂, subst, ◌∙◌, Bool, false, none, List, [], ◌∷◌,
  arith, fun_ext, ne→==-false,
}
use superscalar_oooprocessor.Cache.{CacheLine, CacheLevel, get_tag, log2}
use superscalar_oooprocessor.Cache.Contents.{entry_at, entries, IsLevel, find_way-none}
use superscalar_oooprocessor.MemoryOoo.{MemoryOoo, Request, access, init, init_level}
use superscalar_oooprocessor.MemoryOoo.Unique.{loaded}
use superscalar_oooprocessor.MemoryOoo.Shelves.{pick}
use superscalar_oooprocessor.MemoryOoo.Walks.{IsPlain}
use superscalar_oooprocessor.MemoryOoo.Coherence.{IsCoherent}
use superscalar_oooprocessor.MemoryOoo.Evictions.{loses_store}
use superscalar_oooprocessor.MemoryOoo.Flat.{view, FlatStep}
use superscalar_oooprocessor.MemoryOoo.Refines.{access-IsServed}

-- A level without valid lines holds nothing.
abbrev empty_level : CacheLine → ℕ → ℕ → ℕ → CacheLevel
empty_level blank size assoc penalty = record {
  line = λ i. record blank { valid = false };
  size = size;
  assoc = assoc;
  miss_penalty = penalty;
}

entries-empty_level :
    (sets : ℕ) (blank : CacheLine) (size assoc penalty b : ℕ)
    → entries sets (empty_level blank size assoc penalty) b ≡ none
entries-empty_level sets blank size assoc penalty b =
    let c = empty_level blank size assoc penalty in
    ap (entry_at c (b % sets)) (find_way-none c (b % sets) (b / sets) assoc 0 (λ v l. refl))

module _ (blank : CacheLine) (penalty : ℕ) where
  l1-IsLevel : IsLevel 64 (empty_level blank 32768 8 penalty)
  unfolding get_tag log2
  l1-IsLevel = record {
    ways = omega arith;
    sets_eq = refl;
    tag_eq = λ a. omega arith;
    unique = λ idx tag v w _ _ m _. absurd (ground (arith, m));
    addressed = λ idx v l valid. absurd (ground (arith, valid));
  }

  l2-IsLevel : IsLevel 512 (empty_level blank 262144 8 penalty)
  unfolding get_tag log2
  l2-IsLevel = record {
    ways = omega arith;
    sets_eq = refl;
    tag_eq = λ a. omega arith;
    unique = λ idx tag v w _ _ m _. absurd (ground (arith, m));
    addressed = λ idx v l valid. absurd (ground (arith, valid));
  }

pub loaded-IsCoherent :
    (blank : CacheLine) (mem : ℕ → ℕ) (level : ℕ) → level ≢ 0 → IsCoherent (loaded blank mem level)
unfolding init init_level
loaded-IsCoherent blank mem level on = record {
  caches = ne→==-false level 0 on;
  l1_level = l1-IsLevel blank 12;
  l2_level = l2-IsLevel blank 59;
  backing = record {
    included = λ b e at. absurd (ground (arith, at, entries-empty_level 64 blank 32768 8 12 b));
    backed = λ b g at. absurd (ground (arith, at, entries-empty_level 512 blank 262144 8 59 b));
  };
}

view-loaded : (blank : CacheLine) (mem : ℕ → ℕ) (level : ℕ) → view (loaded blank mem level) ≡ mem
unfolding view init init_level
view-loaded blank mem level = fun_ext (λ i.
    ap₂ (λ o p. pick o p (i % 16) (mem (16 * (i / 16) + i % 16)))
      (entries-empty_level 64 blank 32768 8 12 (i / 16))
      (entries-empty_level 512 blank 262144 8 59 (i / 16))
    ∙ ap mem (omega arith))

-- A call of `access`: the address, `read_data` before the call, and the flags with their data.
abbrev pub Call : Type 0
Call = ℕ × ℕ × Request

-- The answers to calls, one after the other: whether each is done, and `read_data`.
unfoldable pub answers : List Call → MemoryOoo → List (Bool × ℕ)
answers [] m = []
answers ((a, read_data, q) ∷ calls) m =
    let (ready, word, m') = access m a read_data q in (ready, word) ∷ answers calls m'

-- Each call reads or writes, and none of them loses a store.
abbrev pub AllKeepStores : List Call → MemoryOoo → Type 0
AllKeepStores [] m = Unit
AllKeepStores ((a, read_data, q) ∷ calls) m =
    IsPlain q × (loses_store m a ≡ false) × AllKeepStores calls (access m a read_data q).2

-- The same calls on a memory without caches that holds `f`.
pub data FlatRun : (ℕ → ℕ) → List Call → List (Bool × ℕ) → Type 0 where
  stop : {f : ℕ → ℕ} → FlatRun f [] []
  next :
      {f g : ℕ → ℕ} {a read_data word : ℕ} {q : Request} {ready : Bool} {calls : List Call}
      {rest : List (Bool × ℕ)}
      → FlatStep f a q ready word g
      → FlatRun g calls rest
      → FlatRun f ((a, read_data, q) ∷ calls) ((ready, word) ∷ rest)

answers_coherent :
    (calls : List Call) (m : MemoryOoo)
    → IsCoherent m
    → AllKeepStores calls m
    → FlatRun (view m) calls (answers calls m)
unfolding answers
answers_coherent [] m h k = stop
answers_coherent ((a, read_data, q) ∷ calls) m h (plain, kept, k) =
    let served = access-IsServed m a read_data q h plain kept in
    next served.step (answers_coherent calls (access m a read_data q).2 served.coherent k)

-- The memory after the calls.
unfoldable pub memory_after : List Call → MemoryOoo → MemoryOoo
memory_after [] m = m
memory_after ((a, read_data, q) ∷ calls) m = memory_after calls (access m a read_data q).2

pub memory_after-IsCoherent :
    (calls : List Call) (m : MemoryOoo)
    → IsCoherent m
    → AllKeepStores calls m
    → IsCoherent (memory_after calls m)
unfolding memory_after
memory_after-IsCoherent [] m h k = h
memory_after-IsCoherent ((a, read_data, q) ∷ calls) m h (plain, kept, k) =
    memory_after-IsCoherent calls (access m a read_data q).2
      (access-IsServed m a read_data q h plain kept).coherent k

-- From a program loaded into the memory of the out-of-order core, with the caches on and whatever the
-- uninitialised lines hold: calls that read or write, none of which loses a store, are answered as by a
-- memory without caches that starts with the words loaded.
pub answers-FlatRun :
    (blank : CacheLine) (mem : ℕ → ℕ) (level : ℕ) (calls : List Call)
    → level ≢ 0
    → AllKeepStores calls (loaded blank mem level)
    → FlatRun mem calls (answers calls (loaded blank mem level))
answers-FlatRun blank mem level calls on k =
    subst (λ f. FlatRun f calls (answers calls (loaded blank mem level)))
      (view-loaded blank mem level)
      (answers_coherent calls (loaded blank mem level) (loaded-IsCoherent blank mem level on) k)
