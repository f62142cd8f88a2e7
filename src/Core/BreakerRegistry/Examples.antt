-- ===== src/Core/BreakerRegistry/Examples.antt =====
-- Two providers, and the theorems at them.
use roboppi.Base.{none, [], ◌∷◌}
use roboppi.Core.CircuitBreaker.{CircuitBreaker, half_open, default_config, new}
use roboppi.Core.BreakerRegistry.{Registry}

abbrev probing : CircuitBreaker
probing = record (new default_config) { state = half_open }

abbrev two : Registry
two = record {
  breakers = ("CODEX", probing) ∷ ("OPENCODE", new default_config) ∷ [];
  default = none;
}
