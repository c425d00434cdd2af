-- ===== src/Memory/Order.antt =====
-- Every access keeps both levels of `Memory` in order, reads and writes alike.
use superscalar_oooprocessor.Base.{
  ℕ, ◌/◌, ◌≡◌, refl, ◌∙◌, Bool, true, false, not, ◌&&◌, Option, none, some, ◌==◌, update, List, [],
  ◌∷◌, arith, if-both,
}
use superscalar_oooprocessor.Cache.{CacheLine, CacheLevel, get_offset, way_of}
use superscalar_oooprocessor.Cache.Hits.{update-keeps}
use superscalar_oooprocessor.MemoryOoo.{Request, fetch_words}
use superscalar_oooprocessor.StallCache.{StallCache, is_hit, start_miss, write}
use superscalar_oooprocessor.StallCache
use superscalar_oooprocessor.StallCache.Replaced.{IsLookedUp, is_hit-IsLookedUp, replace-IsReplaced}
use superscalar_oooprocessor.StallCache.Edited.{
  invalidate_line-IsOrdered, alike-IsOrdered, write_back_line-IsAlike,
}
use superscalar_oooprocessor.StallCache.Ranks.{invalid-IsRanked}
use superscalar_oooprocessor.StallCache.Victims.{IsRankedLevel}
use superscalar_oooprocessor.Cache.Edits.{IsAlike, IsAlike-refl}
use superscalar_oooprocessor.StallCache.Reads.{IsTimed, read-IsRead}
use superscalar_oooprocessor.Memory.{Memory, init, try_level, set_level, fill_l1, fill_l2, access}
use superscalar_oooprocessor.Memory.Waiting.{answered_within, read-answered}
use superscalar_oooprocessor.Memory.Nearer.{IsReady}

-- A word is written into a line of a level in order.
abbrev stored_word : CacheLevel → ℕ → ℕ → ℕ → ℕ → CacheLine
stored_word c l word write_data =
    update c.line l
      (record (c.line l) { words = update (c.line l).words word write_data; dirty = true })

-- What `write` does with the result of `isHit`.
abbrev write_at : StallCache → ℕ → ℕ → Option ℕ × CacheLevel → Bool × StallCache
write_at c word write_data o = elim o.0 [
  | none ↦ (false, start_miss c o.1)
  | some l ↦ (true, record c { level = record o.1 { line = stored_word o.1 l word write_data } })
]

write_at-IsTimed :
    (c : StallCache) (address word write_data penalty : ℕ) (o : Option ℕ × CacheLevel)
    → IsLookedUp c.level address o
    → IsTimed c penalty
    → IsTimed (write_at c word write_data o).1 penalty
write_at-IsTimed c address word write_data penalty (none, level) l t = record {
  ordered = l.ordered t.ordered;
  penalised = l.penalty ∙ t.penalised;
  countdown = omega (arith, l.penalty, t.penalised, t.countdown);
}
write_at-IsTimed c address word write_data penalty (some w, level) l t = record {
  ordered =
      alike-IsOrdered level (stored_word level w word write_data)
        (λ i.
          update-keeps IsAlike IsAlike-refl level.line w
            (record (level.line w) {
              words = update (level.line w).words word write_data;
              dirty = true;
            })
            i (record { block = record { valid = refl; tag = refl }; rank = refl }))
        (l.ordered t.ordered);
  penalised = l.penalty ∙ t.penalised;
  countdown = t.countdown;
}

write-IsTimed :
    (c : StallCache) (address write_data penalty : ℕ)
    → IsTimed c penalty
    → IsTimed (write c address write_data).1 penalty
unfolding write
write-IsTimed c address write_data penalty t =
    if-both (λ (o : Bool × StallCache). IsTimed o.1 penalty) (c.miss_countdown == 0)
      (write_at-IsTimed c address (get_offset address / 4) write_data penalty
        (is_hit c.level address) (is_hit-IsLookedUp c.level address) t)
      (record {
        ordered = t.ordered;
        penalised = t.penalised;
        countdown = omega (arith, t.countdown);
      })

option-both :
    {A B : Type 0} (P : B → Type 0) (o : Option A) {x : B} {f : A → B}
    → P x
    → ((a : A) → P (f a))
    → P (elim o [ none ↦ x | some a ↦ f a ])
option-both P none h k = h
option-both P (some a) h k = k a

try_level-IsTimed :
    (c : StallCache) (address read_data penalty : ℕ) (q : Request)
    → IsTimed c penalty
    → IsTimed (try_level c address read_data q).2 penalty
unfolding try_level
try_level-IsTimed c address read_data penalty q t =
    let (got, c1) = StallCache.read c address in
    let read_timed = (read-IsRead c address).timed penalty t in
    let P : Bool × ℕ × StallCache → Type 0 = λ o. IsTimed o.2 penalty in
    if-both P q.mem_read
      (option-both P got
        (if-both P q.mem_write (write-IsTimed c1 address q.write_data penalty read_timed)
          read_timed)
        (λ word. read_timed))
      (if-both P q.mem_write (write-IsTimed c address q.write_data penalty t) t)

fill_l1-IsReady :
    (m : Memory) (address p1 p2 : ℕ) → IsReady m p1 p2 → IsReady (fill_l1 m address) p1 p2
unfolding fill_l1 StallCache.write_back_line
fill_l1-IsReady m address p1 p2 h =
    let line = StallCache.read_line m.indeterminate m.l2.level address in
    let (out, l1') = StallCache.replace m.l1.level address line in
    let put = replace-IsReplaced m.l1.level address line h.l1_timed.ordered in
    let evicted : CacheLine = elim out [ none ↦ m.indeterminate | some e ↦ e ] in
    record {
      l1_timed = record {
        ordered = put.ordered;
        penalised = put.penalty ∙ h.l1_timed.penalised;
        countdown = h.l1_timed.countdown;
      };
      l2_timed =
          if-both (λ (c : StallCache). IsTimed c p2) (evicted.valid && evicted.dirty)
            (record {
              ordered =
                  alike-IsOrdered m.l2.level (StallCache.write_back_line m.l2.level evicted).line
                    (write_back_line-IsAlike m.l2.level evicted) h.l2_timed.ordered;
              penalised = h.l2_timed.penalised;
              countdown = h.l2_timed.countdown;
            })
            h.l2_timed;
    }

fill_l2-IsReady :
    (m : Memory) (address p1 p2 : ℕ) → IsReady m p1 p2 → IsReady (fill_l2 m address) p1 p2
unfolding fill_l2 StallCache.invalidate_line
fill_l2-IsReady m address p1 p2 h =
    let line : CacheLine = record m.indeterminate { words = fetch_words m.mem address } in
    let (out, l2') = StallCache.replace m.l2.level address line in
    let put = replace-IsReplaced m.l2.level address line h.l2_timed.ordered in
    let l2_timed : IsTimed (set_level m.l2 l2') p2 = record {
      ordered = put.ordered;
      penalised = put.penalty ∙ h.l2_timed.penalised;
      countdown = h.l2_timed.countdown;
    } in
    let P : Memory → Type 0 = λ x. IsReady x p1 p2 in
    option-both P out (record { l1_timed = h.l1_timed; l2_timed = l2_timed })
      (λ evicted.
        if-both P evicted.valid
          (record {
            l1_timed = record {
              ordered = invalidate_line-IsOrdered m.l1.level evicted.address h.l1_timed.ordered;
              penalised = h.l1_timed.penalised;
              countdown = h.l1_timed.countdown;
            };
            l2_timed = l2_timed;
          })
          (record { l1_timed = h.l1_timed; l2_timed = l2_timed }))

access-IsReady :
    (m : Memory) (address read_data p1 p2 : ℕ) (q : Request)
    → IsReady m p1 p2
    → IsReady (access m address read_data q).2 p1 p2
unfolding access
access-IsReady m address read_data p1 p2 q h =
    let (hit1, data1, l1') = try_level m.l1 address read_data q in
    let (hit2, data2, l2') = try_level m.l2 address data1 q in
    let missed : Memory = record m { l1 = l1'; l2 = l2' } in
    let first = try_level-IsTimed m.l1 address read_data p1 q h.l1_timed in
    let second = try_level-IsTimed m.l2 address data1 p2 q h.l2_timed in
    let both : IsReady missed p1 p2 = record { l1_timed = first; l2_timed = second } in
    let P : Bool × ℕ × Memory → Type 0 = λ o. IsReady o.2 p1 p2 in
    if-both P (m.opt_level == 0)
      (if-both (λ (x : Memory). IsReady x p1 p2) q.mem_write
        (record { l1_timed = h.l1_timed; l2_timed = h.l2_timed }) h)
      (if-both P (not q.mem_read && not q.mem_write) h (
        if-both P hit1 (record { l1_timed = first; l2_timed = h.l2_timed })
          (if-both P hit2 (fill_l1-IsReady missed address p1 p2 both)
            (fill_l2-IsReady missed address p1 p2 both))))

-- The constructor's memory, with any words in it and any level of optimisation.
abbrev pub loaded : CacheLine → (ℕ → CacheLine) → (ℕ → CacheLine) → (ℕ → ℕ) → ℕ → Memory
loaded indeterminate blank1 blank2 mem level = record (init indeterminate blank1 blank2) {
  mem = mem;
  opt_level = level;
}

loaded-IsReady :
    (indeterminate : CacheLine) (blank1 blank2 : ℕ → CacheLine) (mem : ℕ → ℕ) (level : ℕ)
    → IsReady (loaded indeterminate blank1 blank2 mem level) 12 59
unfolding init StallCache.init
loaded-IsReady indeterminate blank1 blank2 mem level =
    let m = loaded indeterminate blank1 blank2 mem level in
    record {
      l1_timed = record {
        ordered = record {
          ways = omega arith;
          ranked = λ idx. invalid-IsRanked (way_of m.l1.level idx) 8 (λ w. refl);
        };
        penalised = refl;
        countdown = omega arith;
      };
      l2_timed = record {
        ordered = record {
          ways = omega arith;
          ranked = λ idx. invalid-IsRanked (way_of m.l2.level idx) 8 (λ w. refl);
        };
        penalised = refl;
        countdown = omega arith;
      };
    }

-- Calls of `access`: the address, `read_data` before the call, and the flags with their data.
abbrev pub after_calls : List (ℕ × ℕ × Request) → Memory → Memory
after_calls [] m = m
after_calls ((address, read_data, q) ∷ calls) m = after_calls calls (access m address read_data q).2

after_calls-IsReady :
    (calls : List (ℕ × ℕ × Request)) (m : Memory) (p1 p2 : ℕ)
    → IsReady m p1 p2
    → IsReady (after_calls calls m) p1 p2
after_calls-IsReady [] m p1 p2 h = h
after_calls-IsReady ((address, read_data, q) ∷ calls) m p1 p2 h =
    after_calls-IsReady calls (access m address read_data q).2 p1 p2
      (access-IsReady m address read_data p1 p2 q h)

-- From the constructor's memory, with any words loaded, at any level and whatever the uninitialised
-- lines hold, and after any accesses: a read that the caller repeats is answered within 72 calls.
pub after_calls-answered :
    (indeterminate : CacheLine) (blank1 blank2 : ℕ → CacheLine) (mem : ℕ → ℕ) (level : ℕ)
    (calls : List (ℕ × ℕ × Request)) (address : ℕ)
    → answered_within 72 (after_calls calls (loaded indeterminate blank1 blank2 mem level)) address
      ≡ true
after_calls-answered indeterminate blank1 blank2 mem level calls address =
    let m = loaded indeterminate blank1 blank2 mem level in
    read-answered (after_calls calls m) address 12 59
      (after_calls-IsReady calls m 12 59 (loaded-IsReady indeterminate blank1 blank2 mem level))

-- From the constructor's memory and after any accesses, every set of both caches stays ranked: for
-- every `k`, at most `assoc - k` of its valid lines have at least `k` replacement bits.
pub after_calls-IsRankedLevel :
    (indeterminate : CacheLine) (blank1 blank2 : ℕ → CacheLine) (mem : ℕ → ℕ) (level : ℕ)
    (calls : List (ℕ × ℕ × Request))
    → IsRankedLevel (after_calls calls (loaded indeterminate blank1 blank2 mem level)).l1.level
      × IsRankedLevel (after_calls calls (loaded indeterminate blank1 blank2 mem level)).l2.level
after_calls-IsRankedLevel indeterminate blank1 blank2 mem level calls =
    let m = loaded indeterminate blank1 blank2 mem level in
    let h =
      after_calls-IsReady calls m 12 59 (loaded-IsReady indeterminate blank1 blank2 mem level) in
    (h.l1_timed.ordered.ranked, h.l2_timed.ordered.ranked)
