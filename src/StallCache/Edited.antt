-- ===== src/StallCache/Edited.antt =====
-- Writing a line back into a stalling cache and invalidating one keep its order.
use superscalar_oooprocessor.Base.{ℕ, ◌+◌, ◌*◌, ◌≡◌, sym, ap, ◌∙◌, arith}
use superscalar_oooprocessor.Cache.{CacheLine, CacheLevel, get_index, way_of}
use superscalar_oooprocessor.Cache.Hits.{find_way-same}
use superscalar_oooprocessor.Cache.Edits.{
  IsNoMore, IsAlike, invalidate_ways-IsNoMore, write_back_ways-IsAlike,
}
use superscalar_oooprocessor.Cache.Fills.{found}
use superscalar_oooprocessor.StallCache.{get_tag, lookup, write_back_line, invalidate_line}
use superscalar_oooprocessor.StallCache.Ranks.{shrink-IsRanked}
use superscalar_oooprocessor.StallCache.Replaced.{holds, IsOrdered}

-- Lines that are no more than they were keep the order.
edited-IsOrdered :
    (c : CacheLevel) (line : ℕ → CacheLine)
    → ((i : ℕ) → IsNoMore (line i) (c.line i))
    → IsOrdered c
    → IsOrdered (record c { line = line })
edited-IsOrdered c line h o = record {
  ways = o.ways;
  ranked = λ idx.
      shrink-IsRanked (way_of c idx) (λ w. line (idx * c.assoc + w)) c.assoc
        (λ k w _ _ a. let n = h (idx * c.assoc + w) in ground (arith, a, n.validity, n.rank))
        (o.ranked idx);
}

-- Alike lines keep the order and what the level holds.
pub alike-IsOrdered :
    (c : CacheLevel) (line : ℕ → CacheLine)
    → ((i : ℕ) → IsAlike (line i) (c.line i))
    → IsOrdered c
    → IsOrdered (record c { line = line })
alike-IsOrdered c line h = edited-IsOrdered c line (λ i. record {
  validity = λ v. sym (h i).block.valid ∙ v;
  tag = (h i).block.tag;
  rank = (h i).rank;
})

pub alike-holds :
    (c : CacheLevel) (line : ℕ → CacheLine) (address : ℕ)
    → ((i : ℕ) → IsAlike (line i) (c.line i))
    → holds (record c { line = line }) address ≡ holds c address
unfolding lookup get_index get_tag
alike-holds c line address h =
    ap found
      (find_way-same c line (λ i. (h i).block) (get_index c address) (get_tag c address) c.assoc 0)

pub invalidate_line-IsOrdered :
    (c : CacheLevel) (address : ℕ) → IsOrdered c → IsOrdered (invalidate_line c address)
unfolding invalidate_line
invalidate_line-IsOrdered c address =
    edited-IsOrdered c (invalidate_line c address).line (
      invalidate_ways-IsNoMore c.line (get_index c address * c.assoc) (get_tag c address) c.assoc 0)

pub write_back_line-IsAlike :
    (c : CacheLevel) (evicted : CacheLine) (i : ℕ)
    → IsAlike ((write_back_line c evicted).line i) (c.line i)
unfolding write_back_line
write_back_line-IsAlike c evicted =
    write_back_ways-IsAlike evicted c.line (get_index c evicted.address * c.assoc)
      (get_tag c evicted.address) c.assoc 0
