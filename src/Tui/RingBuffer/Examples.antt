-- ===== src/Tui/RingBuffer/Examples.antt =====
-- Buffers of src/tui/ring-buffer.ts that hold little.
use roboppi.Base.{◌≡◌, refl, some, List, [], ◌∷◌, ◌++◌}
use roboppi.Tui.RingBuffer.{
  Line, RingBuffer, RingBufferOptions, Call, pushes, new, push, run, lines, last, clear,
}
use roboppi.Tui.RingBuffer.Newest.{IsNewest, bytes, push-run-IsNewest}

abbrev three_lines : RingBufferOptions
three_lines = record { max_lines = some 3; max_bytes = some 5 }

abbrev two_pushes : List Call
two_pushes = pushes (1 ∷ 2 ∷ []) ∷ pushes (3 ∷ []) ∷ []

byte_limit :
    lines (push (7 ∷ 8 ∷ 9 ∷ []) (run two_pushes (new three_lines)))
    ≡ (3 ∷ []) ∷ (7 ∷ 8 ∷ 9 ∷ []) ∷ []
unfolding lines push run new roboppi.Tui.RingBuffer.evict_lines roboppi.Tui.RingBuffer.evict_bytes
byte_limit = refl

too_long : lines (push (1 ∷ 2 ∷ 3 ∷ 4 ∷ 5 ∷ 6 ∷ []) (new three_lines)) ≡ []
unfolding lines push new roboppi.Tui.RingBuffer.evict_lines roboppi.Tui.RingBuffer.evict_bytes
too_long = refl

push-run-IsNewest_example :
    let r = run two_pushes (new three_lines) in
    IsNewest r.max_lines r.max_bytes (lines r ++ (7 ∷ []) ∷ []) (lines (push (7 ∷ []) r))
    × ((push (7 ∷ []) r).total_bytes ≡ bytes (lines (push (7 ∷ []) r)))
push-run-IsNewest_example = push-run-IsNewest three_lines two_pushes (7 ∷ [])
