-- ===== src/Base/Memory.antt =====
-- Memory as it is counted: an `Allocator` says which call of malloc or realloc succeeds, and a
-- `Heap` how many calls were made and how many blocks live.
use Prim.Native.Nat.{ℕ, ◌+◌, ◌-◌}
use mathlib.Core.Bool.{Bool, true, false}
use libusby.Base.Tests.{if◌then◌else◌}

abbrev pub Allocator : Type 0
Allocator = ℕ → Bool

pub record Heap : Type 0 where
  pub calls : ℕ
  pub live : ℕ

-- A new block, or the null pointer.
abbrev pub malloc : Allocator → Heap → Bool × Heap
malloc succeeds h =
    if succeeds h.calls
    then (true, record { calls = h.calls + 1; live = h.live + 1 })
    else (false, record { calls = h.calls + 1; live = h.live })

-- A block grown in place or moved; the old one stays where that fails. At NULL it is `malloc`.
abbrev pub realloc : Allocator → (is_null : Bool) → Heap → Bool × Heap
realloc succeeds true h = malloc succeeds h
realloc succeeds false h = (succeeds h.calls, record { calls = h.calls + 1; live = h.live })

-- `free` of a block.
abbrev pub free : Heap → Heap
free h = record { calls = h.calls; live = h.live - 1 }
