-- ===== src/MemoryOoo/Walks.antt =====
-- The three outcomes of an access with the caches on: a hit in L1, a hit in L2, and none
-- (`MemoryOOO::access` of memory_ooo.cpp).
use superscalar_oooprocessor.Base.{
  ℕ, ◌/◌, ◌%◌, ◌≡◌, refl, sym, ap, ◌∙◌, Bool, true, false, Option, none, some, ◌==◌, if◌then◌else◌,
  Option-cases, inl, inr, arith,
}
use superscalar_oooprocessor.Cache.{CacheLine, CacheLevel, get_offset, get_index}
use superscalar_oooprocessor.Cache
use superscalar_oooprocessor.Cache.Hits.{is_hit-missed, read_at, write-miss}
use superscalar_oooprocessor.Cache.Fills.{looked_up}
use superscalar_oooprocessor.Cache.Contents.{Entry, entry_at, entries, IsLevel, looked_up-way_found}
use superscalar_oooprocessor.Cache.Accesses.{read-IsRead, write-IsWritten, word_of, is_some}
use superscalar_oooprocessor.MemoryOoo.{
  MemoryOoo, Request, reading, writing, try_level, fill_l1, fill_l2, access,
}

-- What is not among the entries is not found.
missed-looked_up :
    (sets : ℕ) (c : CacheLevel) (a : ℕ)
    → IsLevel sets c
    → entries sets c (a / 64) ≡ none
    → looked_up c a ≡ none
missed-looked_up sets c a h missed = elim (Option-cases (looked_up c a)) [
  | inl e ↦ e
  | inr (w, e) ↦ absurd (
      ground
        (arith, missed, ap (entry_at c (a / 64 % sets)) (sym (looked_up-way_found sets c a h) ∙ e)))
]

read-missed : (c : CacheLevel) (a : ℕ) → looked_up c a ≡ none → Cache.read c a ≡ (none, c)
unfolding Cache.read
read-missed c a e = ap (read_at (get_offset a / 4)) (is_hit-missed c a e)

-- The two kinds of access.
pub data IsPlain : Request → Type 0 where
  read : IsPlain reading
  write : (value : ℕ) → IsPlain (writing value)

-- What `try_level` answers a reader.
abbrev answer_read : ℕ → Option ℕ × CacheLevel → Bool × ℕ × CacheLevel
answer_read read_data r = elim r.0 [
  | some word ↦ (true, word, r.1)
  | none ↦ (false, read_data, r.1)
]

pub try_level-missed :
    (sets : ℕ) (c : CacheLevel) (a read_data : ℕ) {q : Request}
    → IsPlain q
    → IsLevel sets c
    → entries sets c (a / 64) ≡ none
    → try_level c a read_data q ≡ (false, read_data, c)
unfolding try_level
try_level-missed sets c a read_data read h missed =
    ap (answer_read read_data) (read-missed c a (missed-looked_up sets c a h missed))
try_level-missed sets c a read_data (write value) h missed =
    ap (λ (r : Bool × CacheLevel). (r.0, read_data, r.1))
      (write-miss c a value (missed-looked_up sets c a h missed))

pub try_level-read :
    (sets : ℕ) (c : CacheLevel) (a read_data : ℕ) {e : Entry}
    → IsLevel sets c
    → entries sets c (a / 64) ≡ some e
    → try_level c a read_data reading ≡ (true, e.words (get_offset a / 4), (Cache.read c a).1)
unfolding try_level
try_level-read sets c a read_data {e} h held =
    let got = (read-IsRead sets c a h).got ∙ ap (word_of (get_offset a / 4)) held in
    rw (got, try_level) refl

pub try_level-write :
    (sets : ℕ) (c : CacheLevel) (a value read_data : ℕ) {e : Entry}
    → IsLevel sets c
    → entries sets c (a / 64) ≡ some e
    → try_level c a read_data (writing value) ≡ (true, read_data, (Cache.write c a value).1)
unfolding try_level
try_level-write sets c a value read_data h held =
    let hit = (write-IsWritten sets c a value h).hit ∙ ap is_some held in
    ap (λ (b : Bool). (b, read_data, (Cache.write c a value).1)) hit

-- What `access` does with what the two levels answer.
abbrev answered :
    MemoryOoo → ℕ → Bool × ℕ × CacheLevel → Bool × ℕ × CacheLevel → Bool × ℕ × MemoryOoo
answered m a (hit1, data1, l1') (hit2, data2, l2') =
    let missed = record m { l1 = l1' } in
    if hit1
    then (true, data1, missed)
    else if hit2
    then (false, data2, fill_l1 (record missed { l2 = l2' }) a)
    else (false, data2, fill_l2 (record missed { l2 = l2' }) a)

access-answered :
    (m : MemoryOoo) (a read_data : ℕ) {q : Request}
    → IsPlain q
    → (m.opt_level == 0) ≡ false
    → (let r = try_level m.l1 a read_data q in
        access m a read_data q ≡ answered m a r (try_level m.l2 a r.1 q))
unfolding access
access-answered m a read_data read e = rw e refl
access-answered m a read_data (write value) e = rw e refl

module _ (m : MemoryOoo) (a read_data : ℕ) {q : Request} (plain : IsPlain q)
    (caches : (m.opt_level == 0) ≡ false) where
  pub access-near :
      {word : ℕ} {l1' : CacheLevel}
      → try_level m.l1 a read_data q ≡ (true, word, l1')
      → access m a read_data q ≡ (true, word, record m { l1 = l1' })
  access-near first =
      access-answered m a read_data plain caches
      ∙ ap (λ r. answered m a r (try_level m.l2 a r.1 q)) first

  pub access-far :
      {word : ℕ} {l2' : CacheLevel}
      → try_level m.l1 a read_data q ≡ (false, read_data, m.l1)
      → try_level m.l2 a read_data q ≡ (true, word, l2')
      → access m a read_data q ≡ (false, word, fill_l1 (record m { l2 = l2' }) a)
  access-far first second =
      access-answered m a read_data plain caches
      ∙ (ap (λ r. answered m a r (try_level m.l2 a r.1 q)) first
          ∙ ap (answered m a (false, read_data, m.l1)) second)

  pub access-missed :
      try_level m.l1 a read_data q ≡ (false, read_data, m.l1)
      → try_level m.l2 a read_data q ≡ (false, read_data, m.l2)
      → access m a read_data q ≡ (false, read_data, fill_l2 m a)
  access-missed first second =
      access-answered m a read_data plain caches
      ∙ (ap (λ r. answered m a r (try_level m.l2 a r.1 q)) first
          ∙ ap (answered m a (false, read_data, m.l1)) second)
