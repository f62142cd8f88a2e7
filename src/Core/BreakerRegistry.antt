-- ===== src/Core/BreakerRegistry.antt =====
-- src/core/circuit-breaker.ts, the class `CircuitBreakerRegistry`. The breakers are objects that the
-- registry shares with its callers, so a change of one is written back under its provider.
pub mod Providers
mod Examples
use roboppi.Base.{or_default, ℕ, Bool, true, false, ◌||◌, Option, none, some, List, [], ◌∷◌, String}
use roboppi.Base.Dict
use roboppi.Base.Dict.{Dict}
use roboppi.Core.CircuitBreaker
use roboppi.Core.CircuitBreaker.{
  CircuitState, CircuitBreaker, CircuitBreakerConfig, default_config, new, should_reject, is_open,
  is_opened,
}

pub record Registry : Type 0 where
  pub breakers : Dict CircuitBreaker
  pub default : Option CircuitBreakerConfig

unfoldable pub get : String → Registry → Option CircuitBreaker
get provider r = Dict.get provider r.breakers

-- `config ?? this.defaultConfig ?? DEFAULT_CONFIG`.
abbrev pub initial : Option CircuitBreakerConfig → Registry → CircuitBreakerConfig
initial config r = or_default config (or_default r.default default_config)

create : String → CircuitBreakerConfig → Registry → CircuitBreaker × Registry
create provider c r = (new c, record r { breakers = Dict.set provider (new c) r.breakers })

unfoldable pub get_or_create :
    String → Option CircuitBreakerConfig → Registry → CircuitBreaker × Registry
unfolding create
get_or_create provider config r = elim (Dict.get provider r.breakers) [
  | none ↦ create provider (initial config r) r
  | some b ↦ (b, r)
]

-- A method called on the breaker that `get_or_create` hands out.
unfoldable pub update :
    String → Option CircuitBreakerConfig → (CircuitBreaker → CircuitBreaker) → Registry → Registry
unfolding get_or_create
update provider config f r =
    let (b, s) = get_or_create provider config r in
    record s { breakers = Dict.set provider (f b) s.breakers }

any_open : Dict CircuitBreaker → Bool
any_open [] = false
any_open ((_, b) ∷ m) = is_open b || any_open m

unfoldable pub is_any_open : Registry → Bool
unfolding any_open is_open
is_any_open r = any_open r.breakers

-- `breaker?.shouldReject() ?? false`: the question may take the one probe.
unfoldable pub is_provider_open : String → Registry → Bool × Registry
is_provider_open provider r = elim (Dict.get provider r.breakers) [
  | none ↦ (false, r)
  | some b ↦
      let (rejected, c) = should_reject b in
      (rejected, record r { breakers = Dict.set provider c r.breakers })
]

states : Dict CircuitBreaker → Dict CircuitState
states [] = []
states ((provider, b) ∷ m) = (provider, b.state) ∷ states m

unfoldable pub get_snapshot : Registry → Dict CircuitState
unfolding states
get_snapshot r = states r.breakers

unfoldable pub dispose : Registry → Registry
dispose r = record r { breakers = [] }
