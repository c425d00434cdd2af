-- ===== src/NonBlockingCache/Words.antt =====
-- The words that the non-blocking cache answers with (memory_ooo.cpp).
use superscalar_oooprocessor.Base.{
  ℕ, ◌/◌, ◌≡◌, refl, sym, ap, ap₂, subst, ◌∙◌, Bool, true, false, some, List, [], ◌∷◌,
  if◌then◌else◌, map, All, arith,
}
use superscalar_oooprocessor.Cache.Contents.{Entry, entries}
use superscalar_oooprocessor.MemoryOoo.{MemoryOoo, access, reading}
use superscalar_oooprocessor.MemoryOoo.Coherence.{IsCoherent, IsMoved}
use superscalar_oooprocessor.MemoryOoo.Evictions.{loses_store}
use superscalar_oooprocessor.MemoryOoo.Flat.{view, Keeps-view}
use superscalar_oooprocessor.MemoryOoo.Fetched.{IsMoved-trans, access-IsHit, drive_fill-IsFetched}
use superscalar_oooprocessor.NonBlockingCache.{
  MshrTarget, MshrEntry, CacheResponse, answer_targets, drive_fill, fill_mshr, check_mshr,
}
use superscalar_oooprocessor.NonBlockingCache.Answers.{
  rounds, waiting, rounds-waiting, check_mshr-due,
}

-- The response that a memory without caches would give a target.
abbrev pub answer_of : (ℕ → ℕ) → MshrTarget → CacheResponse
answer_of f t = record { rob_index = t.rob_index; reg = t.reg; data_word = f (t.addr / 4) }

-- The targets of an entry lie in its block.
abbrev pub InBlock : ℕ → MshrTarget → Type 0
InBlock block_addr t = t.addr / 64 ≡ block_addr / 64

-- The targets of a block that is in L1 are answered with the words in view.
record AreAnswered (m : MemoryOoo) (ts : List MshrTarget) (r : List CacheResponse × MemoryOoo)
    : Type 0 where
  words : r.0 ≡ map (answer_of (view m)) ts
  moved : IsMoved m r.1

answer_targets-AreAnswered :
    (m : MemoryOoo) (block_addr : ℕ) (e : Entry) (ts : List MshrTarget)
    → IsMoved m m
    → entries 64 m.l1 (block_addr / 64) ≡ some e
    → All (InBlock block_addr) ts
    → AreAnswered m ts (answer_targets m ts)
unfolding answer_targets
answer_targets-AreAnswered m block_addr e [] h held all = record { words = refl; moved = h }
answer_targets-AreAnswered m block_addr e (t ∷ ts) h held (inside, all) =
    let hit = access-IsHit m t.addr 0 e h.coherent (ap (entries 64 m.l1) inside ∙ held) in
    let m' = (access m t.addr 0 reading).2 in
    let same = Keeps-view m m' hit.moved.keeps in
    let rest =
      answer_targets-AreAnswered m' block_addr e ts
        (record {
          coherent = hit.moved.coherent;
          keeps = record { backing = hit.moved.coherent.backing; view = λ b j l. refl };
        })
        (hit.stays (block_addr / 64) ∙ held) all in
    record {
      words =
          ap₂
            (λ (w : ℕ) (rs : List CacheResponse).
              record { rob_index = t.rob_index; reg = t.reg; data_word = w } ∷ rs)
            hit.word (rest.words ∙ ap (λ f. map (answer_of f) ts) same);
      moved = IsMoved-trans m m' (answer_targets m' ts).1 hit.moved rest.moved;
    }

-- What a fill answers, and what it leaves.
pub record IsFilled (mem : MemoryOoo) (m : MshrEntry)
    (r : List CacheResponse × MshrEntry × MemoryOoo) : Type 0 where
  pub words : r.0 ≡ map (answer_of (view mem)) m.targets
  pub freed : r.1.valid ≡ false
  pub moved : IsMoved mem r.2

fill_mshr-IsFilled :
    (mem : MemoryOoo) (m : MshrEntry)
    → IsCoherent mem
    → loses_store mem m.block_addr ≡ false
    → All (InBlock m.block_addr) m.targets
    → IsFilled mem m (fill_mshr mem m)
unfolding fill_mshr
fill_mshr-IsFilled mem m h kept inside =
    let f = drive_fill-IsFetched 1 mem m.block_addr h kept in
    let mem' = (drive_fill 4 mem m.block_addr).1 in
    let a =
      answer_targets-AreAnswered mem' m.block_addr f.entry m.targets
        (record {
          coherent = f.moved.coherent;
          keeps = record { backing = f.moved.coherent.backing; view = λ b j l. refl };
        })
        f.held inside in
    let out = answer_targets mem' m.targets in
    subst
      (λ (b : Bool). IsFilled mem m (
        if b
        then (out.0, record m { valid = false; fill_pending = false; targets = [] }, out.1)
        else ([], record m { fill_pending = true }, mem')))
      (sym f.ready)
      (record {
        words = a.words ∙ ap (λ g. map (answer_of g) m.targets) (Keeps-view mem mem' f.moved.keeps);
        freed = refl;
        moved = IsMoved-trans mem mem' out.1 f.moved a.moved;
      })

-- A valid MSHR that is not pending, with its targets in its block: after as many rounds of `checkReady` as
-- its countdown says, whatever the memories in these rounds, the next one over a coherent memory answers each
-- target with the word in view of that memory at the target's address, frees the entry, and leaves
-- the memory coherent with the same words in view, if the fill loses no store.
pub rounds-IsFilled :
    (mems : ℕ → MemoryOoo) (mem : MemoryOoo) (m : MshrEntry)
    → m.valid ≡ true
    → m.fill_pending ≡ false
    → IsCoherent mem
    → loses_store mem m.block_addr ≡ false
    → All (InBlock m.block_addr) m.targets
    → IsFilled mem m (check_mshr mem (rounds mems m.countdown m))
rounds-IsFilled mems mem m v p h kept inside =
    let due = rounds-waiting mems m.countdown 0 m v p (omega arith) in
    let filled = fill_mshr-IsFilled mem (waiting m 0) h kept inside in
    subst (λ k. IsFilled mem m (check_mshr mem k)) (sym due)
      (subst (IsFilled mem m) (sym (check_mshr-due mem m v))
        (record { words = filled.words; freed = filled.freed; moved = filled.moved }))
