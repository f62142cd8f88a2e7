-- ===== src/Core/Budget/Window.antt =====
-- The rate limit over a sliding window of one second.
use roboppi.Base.{
  ℕ, suc, ◌+◌, ◌≤◌, ◌<◌, ◌≡◌, refl, ap, ◌∙◌, inl, inr, Bool, true, false, List, [], ◌∷◌, ◌++◌,
  arith, length, ltb, if◌then◌else◌, Bool-cases,
}
use roboppi.Base.Int.{ℤ, pos, negsuc, ltb_ℤ-sub_ℕ}
use roboppi.Types.{Job, PermitTokens}
use roboppi.Core.RpsRing.{RpsRing, count_in_window, push}
use roboppi.Core.RpsRing.Refines.{
  entries, length-entries, drop_expired, entries-count_in_window, entries-push,
}
use roboppi.Core.Budget.{
  after_cost, ExecutionBudgetConfig, ExecutionBudget, Call, acquires_slot, releases_slot,
  acquires_rate, acquires_cost, releases_cost, issues, consumes, releases, new, window_start,
  try_acquire_slot, release_slot, try_acquire_rate, try_acquire_cost, release_cost, can_issue,
  consume, release, step,
}
use roboppi.Core.Budget.Invariant.{IsWithinLimits, new-IsWithinLimits, step-IsWithinLimits, counted}

abbrev granted_if : Bool → ℕ → List ℕ
granted_if true now = now ∷ []
granted_if false now = []

-- The time of the rate token that a call is granted, if it is.
abbrev pub granted : Call → ExecutionBudget → List ℕ
granted (acquires_rate now) b = granted_if (try_acquire_rate now b).0 now
granted (consumes tokens now) b = granted_if (consume tokens now b).0 now
granted _ b = []

-- The times of all the tokens that the calls are granted.
unfoldable pub issued : List Call → ExecutionBudget → List ℕ
issued [] b = []
issued (c ∷ cs) b = granted c b ++ issued cs (step c b)

-- The clock after a call, and after all.
abbrev pub clock : ℕ → Call → ℕ
clock last (acquires_rate now) = now
clock last (issues _ _ now) = now
clock last (consumes _ now) = now
clock last _ = last

abbrev pub final_clock : ℕ → List Call → ℕ
final_clock last [] = last
final_clock last (c ∷ cs) = final_clock (clock last c) cs

-- The clock does not run backwards.
abbrev pub IsRising : ℕ → List Call → Type 0
IsRising last [] = Unit
IsRising last (c ∷ cs) = (last ≤ clock last c) × IsRising (clock last c) cs

-- How many of the times lie in the second before `now`.
abbrev pub recent : ℕ → List ℕ → ℕ
recent now [] = 0
recent now (t ∷ ts) = if ltb now (t + 1000) then suc (recent now ts) else recent now ts

recent-append : (now : ℕ) (xs ys : List ℕ) → recent now (xs ++ ys) ≡ recent now xs + recent now ys
recent-append now [] ys = omega arith
recent-append now (x ∷ xs) ys = ground (arith, recent-append now xs ys)

recent-le-length : (now : ℕ) (xs : List ℕ) → recent now xs ≤ length xs
recent-le-length now [] = omega arith
recent-le-length now (x ∷ xs) = ground (arith, recent-le-length now xs)

-- What has expired at an earlier time is not recent.
recent-drop_expired :
    (s now : ℕ) (xs : List ℕ)
    → s ≤ now
    → recent now (drop_expired (window_start s) xs) ≡ recent now xs
unfolding drop_expired
recent-drop_expired s now [] h = refl
recent-drop_expired s now (x ∷ xs) h = elim (Bool-cases (ltb s (x + 1000))) [
  | inl young ↦ rw (ltb_ℤ-sub_ℕ s 1000 x, young) refl
  | inr old ↦ rw (ltb_ℤ-sub_ℕ s 1000 x, old) (ground (arith, recent-drop_expired s now xs h))
]

-- The ring after a count at `s`, seen later.
module _ (b : ExecutionBudget) (s : ℕ) (v : IsWithinLimits b) where
  abbrev ring : RpsRing
  ring = (count_in_window (window_start s) b.rps_ring).1

  recent_counted : (now : ℕ) → s ≤ now → recent now (entries ring) ≡ recent now (entries b.rps_ring)
  recent_counted now h =
      ap (recent now) (entries-count_in_window b.rps_ring (window_start s) v.ring).0
      ∙ recent-drop_expired s now (entries b.rps_ring) h

  recent_pushed :
      (now : ℕ)
      → s ≤ now
      → ring.count < b.max_rps
      → recent now (entries (push s ring)) ≡ recent now (s ∷ []) + recent now (entries b.rps_ring)
  recent_pushed now h room = omega (
    arith,
    ap (recent now) (
        entries-push ring s (counted b s v).ring
          (omega (arith, (counted b s v).capacity, v.slots))),
    recent-append now (entries ring) (s ∷ []),
    recent_counted now h,
  )

  try_acquire_rate-recent :
      (now : ℕ)
      → s ≤ now
      → recent now (granted_if (try_acquire_rate s b).0 s) + recent now (entries b.rps_ring)
        ≡ recent now (entries (try_acquire_rate s b).1.rps_ring)
  unfolding try_acquire_rate
  try_acquire_rate-recent now h =
      ground (arith, (counted b s v).answer, recent_counted now h, recent_pushed now h)

  can_issue-recent :
      (job : Job) (attempt now : ℕ)
      → s ≤ now
      → recent now (entries b.rps_ring)
        ≡ recent now (entries (can_issue job attempt s b).1.rps_ring)
  unfolding can_issue
  can_issue-recent job attempt now h = ground (arith, recent_counted now h)

  consume-recent :
      (tokens : PermitTokens) (now : ℕ)
      → s ≤ now
      → recent now (granted_if (consume tokens s b).0 s) + recent now (entries b.rps_ring)
        ≡ recent now (entries (consume tokens s b).1.rps_ring)
  unfolding consume
  consume-recent tokens now h =
      ground (arith, (counted b s v).answer, recent_counted now h, recent_pushed now h)

try_acquire_cost-ring :
    (cost : ℤ) (b : ExecutionBudget)
    → (after_cost b (try_acquire_cost cost b)).rps_ring ≡ b.rps_ring
unfolding try_acquire_cost
try_acquire_cost-ring (negsuc _) b = refl
try_acquire_cost-ring (pos cost) b = ground arith

-- A call adds the token that it grants to what the ring shows as recent, and takes nothing recent
-- away.
recent-step :
    (c : Call) (b : ExecutionBudget) (last now : ℕ)
    → IsWithinLimits b
    → clock last c ≤ now
    → recent now (granted c b) + recent now (entries b.rps_ring)
      ≡ recent now (entries (step c b).rps_ring)
unfolding step try_acquire_slot release_slot release_cost release
recent-step acquires_slot b last now v h = ground arith
recent-step releases_slot b last now v h = ground arith
recent-step (acquires_rate s) b last now v h = try_acquire_rate-recent b s v now h
recent-step (acquires_cost cost) b last now v h = ground (arith, try_acquire_cost-ring cost b)
recent-step (releases_cost cost) b last now v h = ground arith
recent-step (issues job attempt s) b last now v h =
    ground (arith, can_issue-recent b s v job attempt now h)
recent-step (consumes tokens s) b last now v h = consume-recent b s v tokens now h
recent-step (releases tokens) b last now v h = ground arith

le-final_clock : (last : ℕ) (cs : List Call) → IsRising last cs → last ≤ final_clock last cs
le-final_clock last [] r = omega arith
le-final_clock last (c ∷ cs) r = omega (arith, le-final_clock (clock last c) cs r.1)

step-max_rps : (c : Call) (b : ExecutionBudget) → (step c b).max_rps ≡ b.max_rps
unfolding step try_acquire_slot release_slot try_acquire_rate try_acquire_cost release_cost
    can_issue consume release
step-max_rps acquires_slot b = ground arith
step-max_rps releases_slot b = ground arith
step-max_rps (acquires_rate now) b = ground arith
step-max_rps (acquires_cost (pos cost)) b = ground arith
step-max_rps (acquires_cost (negsuc n)) b = refl
step-max_rps (releases_cost cost) b = refl
step-max_rps (issues job attempt now) b = ground arith
step-max_rps (consumes tokens now) b = ground arith
step-max_rps (releases tokens) b = refl

sliding_window :
    (cs : List Call) (b : ExecutionBudget) (last now : ℕ)
    → IsWithinLimits b
    → IsRising last cs
    → final_clock last cs ≤ now
    → recent now (issued cs b) + recent now (entries b.rps_ring) ≤ b.max_rps
unfolding issued
sliding_window [] b last now v r h =
    omega (arith, recent-le-length now (entries b.rps_ring), length-entries b.rps_ring, v.rate)
sliding_window (c ∷ cs) b last now v r h = omega (
  arith,
  recent-append now (granted c b) (issued cs (step c b)),
  recent-step c b last now v (omega (arith, le-final_clock (clock last c) cs r.1)),
  sliding_window cs (step c b) (clock last c) now (step-IsWithinLimits c b v) r.1 h,
  step-max_rps c b,
)

-- In any calls on a new budget, at times that never fall, no second has more than `max_rps` granted
-- rate tokens: whenever one looks, no earlier than at the last call, at most `max_rps` of all the
-- tokens granted so far are younger than 1000 ms.
pub rate_limited :
    (c : ExecutionBudgetConfig) (cs : List Call) (now : ℕ)
    → IsRising 0 cs
    → final_clock 0 cs ≤ now
    → recent now (issued cs (new c)) ≤ c.max_rps
unfolding new
rate_limited c cs now r h =
    omega (arith, sliding_window cs (new c) 0 now (new-IsWithinLimits c) r h)
