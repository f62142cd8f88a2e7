-- ===== src/Tui/RingBuffer.antt =====
-- src/tui/ring-buffer.ts. A line is the list of its UTF-16 code units, as `item.length` counts them.
pub mod Newest
mod Examples
use roboppi.Base.{
  ℕ, ◌+◌, ◌-◌, ◌*◌, Bool, Option, none, some, List, [], ◌∷◌, ◌++◌, length, ltb, or_default,
  if◌then◌else◌,
}

abbrev pub Line : Type 0
Line = List ℕ

abbrev pub default_max_lines : ℕ
default_max_lines = 5000

abbrev pub default_max_bytes : ℕ
default_max_bytes = 2 * 1024 * 1024

pub record RingBufferOptions : Type 0 where
  pub max_lines : Option ℕ
  pub max_bytes : Option ℕ

pub record RingBuffer : Type 0 where
  pub buf : List Line
  pub total_bytes : ℕ
  pub max_lines : ℕ
  pub max_bytes : ℕ

unfoldable pub new : RingBufferOptions → RingBuffer
new opts = record {
  buf = [];
  total_bytes = 0;
  max_lines = or_default opts.max_lines default_max_lines;
  max_bytes = or_default opts.max_bytes default_max_bytes;
}

-- The two loops, on the lines that are left and the bytes that they count.
unfoldable pub evict_lines : ℕ → List Line → ℕ → List Line × ℕ
evict_lines max_lines [] total = ([], total)
evict_lines max_lines (line ∷ lines) total =
    let rest = evict_lines max_lines lines (total - length line) in
    if ltb max_lines (length (line ∷ lines)) then rest else (line ∷ lines, total)

unfoldable pub evict_bytes : ℕ → List Line → ℕ → List Line × ℕ
evict_bytes max_bytes [] total = ([], total)
evict_bytes max_bytes (line ∷ lines) total =
    let rest = evict_bytes max_bytes lines (total - length line) in
    if ltb max_bytes total then rest else (line ∷ lines, total)

unfoldable pub push : Line → RingBuffer → RingBuffer
push item r =
    let (kept, total) =
      evict_lines r.max_lines (r.buf ++ item ∷ []) (r.total_bytes + length item) in
    let (left, bytes) = evict_bytes r.max_bytes kept total in
    record r { buf = left; total_bytes = bytes }

last_of : List Line → Option Line
last_of [] = none
last_of (line ∷ []) = some line
last_of (_ ∷ line ∷ lines) = last_of (line ∷ lines)

unfoldable pub last : RingBuffer → Option Line
unfolding last_of
last r = last_of r.buf

unfoldable pub lines : RingBuffer → List Line
lines r = r.buf

unfoldable pub clear : RingBuffer → RingBuffer
clear r = record r { buf = []; total_bytes = 0 }

-- The calls of a buffer in use.
pub data Call : Type 0 where
  pushes : Line → Call
  clears : Call

unfoldable pub run : List Call → RingBuffer → RingBuffer
run [] r = r
run (pushes item ∷ calls) r = run calls (push item r)
run (clears ∷ calls) r = run calls (clear r)
