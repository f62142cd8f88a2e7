-- ===== src/Core/RpsRing.antt =====
-- src/core/execution-budget.ts, the class `RpsRingBuffer`: the times of the last requests, in an
-- array with one slot more than `maxRps`.
pub mod Indices
pub mod Refines
use roboppi.Base.{
  ℕ, zero, suc, ◌+◌, ◌-◌, ◌%◌, Bool, true, false, List, [], ◌∷◌, get_or, set, replicate,
  if◌then◌else◌,
}
use roboppi.Base.Int.{ℤ, pos, ltb_ℤ}

pub record RpsRing : Type 0 where
  pub buffer : List ℕ
  pub head : ℕ
  pub count : ℕ
  pub capacity : ℕ

unfoldable pub new : ℕ → RpsRing
new capacity = record {
  buffer = replicate (capacity + 1) 0;
  head = 0;
  count = 0;
  capacity = capacity + 1;
}

-- The index of the oldest entry; `count` is at most `capacity`.
abbrev pub tail : RpsRing → ℕ
tail r = (r.head + r.capacity - r.count) % r.capacity

-- The loop of `countInWindow` with `n` rounds left, at round `i`: how many entries it evicts.
unfoldable pub evicted : RpsRing → ℤ → ℕ → ℕ → ℕ
evicted r window_start zero i = 0
evicted r window_start (suc n) i =
    let rest = evicted r window_start n (i + 1) in
    if ltb_ℤ window_start (pos (get_or r.buffer ((tail r + i) % r.capacity) 0)) then 0 else suc rest

unfoldable pub count_in_window : ℤ → RpsRing → ℕ × RpsRing
unfolding evicted
count_in_window window_start r =
    let count = r.count - evicted r window_start r.count 0 in (count, record r { count = count })

unfoldable pub push : ℕ → RpsRing → RpsRing
push timestamp r = record r {
  buffer = set r.buffer r.head timestamp;
  head = (r.head + 1) % r.capacity;
  count = r.count + 1;
}
