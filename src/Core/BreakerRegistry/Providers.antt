-- ===== src/Core/BreakerRegistry/Providers.antt =====
-- Providers do not disturb one another, and the snapshot shows their states.
use roboppi.Base.{
  or_default, Option-cases, ◌≡◌, refl, inl, inr, false, Option, none, some, [], ◌∷◌, String, arith,
  str_eq, if◌then◌else◌,
}
use mathlib.Core.Option
use roboppi.Base.Dict
use roboppi.Base.Dict.{Dict, get-set}
use roboppi.Core.CircuitBreaker.{CircuitBreaker, CircuitBreakerConfig, new, should_reject}
use roboppi.Core.BreakerRegistry.{
  Registry, initial, get_or_create, get, update, is_provider_open, get_snapshot,
}

get_states :
    (provider : String) (m : Dict CircuitBreaker)
    → Dict.get provider (get_snapshot (record { breakers = m; default = none }))
      ≡ Option.map (λ (b : CircuitBreaker). b.state) (Dict.get provider m)
unfolding get_snapshot Dict.get
get_states provider [] = refl
get_states provider ((p, b) ∷ m) = ground (arith, get_states provider m)

-- The snapshot has exactly the registered providers, each with the state of its breaker.
pub get-get_snapshot :
    (provider : String) (r : Registry)
    → Dict.get provider (get_snapshot r)
      ≡ Option.map (λ (b : CircuitBreaker). b.state) (get provider r)
unfolding get_snapshot get
get-get_snapshot provider r = get_states provider r.breakers

-- A breaker is made once, by the given configuration, else the registry's, else the default one;
-- a method on it changes that provider and no other.
pub get-update :
    (p q : String) (config : Option CircuitBreakerConfig) (f : CircuitBreaker → CircuitBreaker)
    (r : Registry)
    → get q (update p config f r)
      ≡ (if str_eq p q then some (f (or_default (get p r) (new (initial config r)))) else get q r)
unfolding get update
get-update p q config f r = elim (Option-cases (Dict.get p r.breakers)) [
  | inl e ↦
      rw (e, update, get_or_create)
        (ground
          (arith, get-set p q (f made) (Dict.set p made r.breakers), get-set p q made r.breakers))
  | inr (b, e) ↦ rw (e, update, get_or_create) (get-set p q (f b) r.breakers)
]
  where
    made : CircuitBreaker
    made = new (initial config r)

-- Asking about a provider with no breaker rejects nothing and changes nothing. Of one with a
-- breaker it gives that breaker's answer, and leaves the others as they were.
pub is_provider_open_lem :
    (p q : String) (r : Registry)
    → (get p r ≡ none → is_provider_open p r ≡ (false, r))
      × ((b : CircuitBreaker)
          → get p r ≡ some b
          → ((is_provider_open p r).0 ≡ (should_reject b).0)
            × (get q (is_provider_open p r).1
                ≡ (if str_eq p q then some (should_reject b).1 else get q r)))
unfolding get is_provider_open
is_provider_open_lem p q r = (
  λ e. rw (e, is_provider_open) refl,
  λ b e. (
    rw (e, is_provider_open) refl,
    rw (e, is_provider_open) (get-set p q (should_reject b).1 r.breakers),
  ),
)
