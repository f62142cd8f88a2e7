-- ===== src/Core/EventText/Examples.antt =====
-- Texts that src/core/job-event-throttle.ts cuts inside a code point.
use roboppi.Base.{◌≡◌, refl, ◌⊎◌, ◌≤◌, ◌<◌, [], ◌∷◌, ◌++◌}
use roboppi.Core.EventText.{
  Text, byte_length, point_bytes, truncation_suffix, truncate_string, decode_prefix,
  drop_replacement,
}
use roboppi.Core.EventText.Truncation.{Fits, truncate_string_lem}

-- "aあé"
abbrev mixed : Text
mixed = 97 ∷ 12354 ∷ 233 ∷ []

cuts_inside : truncate_string mixed 3 ≡ 97 ∷ truncation_suffix
unfolding roboppi.Core.EventText.truncate_string roboppi.Core.EventText.byte_length
    roboppi.Core.EventText.point_bytes roboppi.Core.EventText.decode_prefix
    roboppi.Core.EventText.drop_replacement roboppi.Core.EventText.decode_point
cuts_inside = refl

truncate_string_lem_example :
    (byte_length mixed ≤ 3) × (truncate_string mixed 3 ≡ mixed)
    ⊎ (3 < byte_length mixed)
      × (kept : Text) × Fits 3 mixed kept
      × (truncate_string mixed 3 ≡ kept ++ truncation_suffix)
truncate_string_lem_example = truncate_string_lem mixed 3
