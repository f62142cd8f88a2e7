-- ===== src/Core/EventText.antt =====
-- src/core/job-event-throttle.ts, truncateString: texts are lists of code points, lone
-- surrogates among them, and `Buffer` is there.
pub mod Truncation
mod Examples
use roboppi.Base.{ℕ, ◌+◌, ◌-◌, List, [], ◌∷◌, ◌++◌, ◌&&◌, ltb, leb, ◌==◌, if◌then◌else◌}

abbrev pub Text : Type 0
Text = List ℕ

-- The bytes of a code point in UTF-8.
unfoldable pub point_bytes : ℕ → ℕ
point_bytes c = if ltb c 128 then 1 else if ltb c 2048 then 2 else if ltb c 65536 then 3 else 4

unfoldable pub byte_length : Text → ℕ
byte_length [] = 0
byte_length (c ∷ cs) = point_bytes c + byte_length cs

-- U+FFFD, which stands for bytes that are no whole code point.
abbrev pub replacement : ℕ
replacement = 65533

-- "...(truncated)"
abbrev pub truncation_suffix : Text
truncation_suffix = 46 ∷ 46 ∷ 46 ∷ 40 ∷ 116 ∷ 114 ∷ 117 ∷ 110 ∷ 99 ∷ 97 ∷ 116 ∷ 101 ∷ 100 ∷ 41 ∷ []

-- A code point as it reads back from UTF-8: a lone surrogate has no encoding.
unfoldable pub decode_point : ℕ → ℕ
decode_point c = if leb 55296 c && leb c 57343 then replacement else c

-- The first `max` bytes read as UTF-8.
unfoldable pub decode_prefix : ℕ → Text → Text
decode_prefix max [] = []
decode_prefix max (c ∷ cs) =
    let rest = decode_prefix (max - point_bytes c) cs in
    if leb (point_bytes c) max
    then decode_point c ∷ rest
    else if max == 0
    then []
    else replacement ∷ []

unfoldable pub drop_replacement : Text → Text
drop_replacement [] = []
drop_replacement (c ∷ []) = if c == replacement then [] else c ∷ []
drop_replacement (c ∷ d ∷ cs) = c ∷ drop_replacement (d ∷ cs)

unfoldable pub truncate_string : Text → ℕ → Text
truncate_string s max =
    if leb (byte_length s) max
    then s
    else drop_replacement (decode_prefix max s) ++ truncation_suffix
