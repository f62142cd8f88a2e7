-- ===== src/Core/JobEventThrottle/Limits.antt =====
-- The other events that src/core/job-event-throttle.ts forwards: the first 500, and one notice.
use roboppi.Base.{
  ℕ, zero, suc, ◌+◌, ◌≡◌, refl, ap, ap₂, sym, ◌∙◌, inl, inr, Bool, true, false, not, ◌&&◌, ◌||◌,
  List, [], ◌∷◌, ◌++◌, arith, ltb, if◌then◌else◌, length, Bool-cases,
}
use roboppi.Core.JobEventThrottle.{
  WorkerEvent, JobEventThrottle, new, max_events, notice, truncate_event, is_stdio, is_progress,
  handle_progress, forward_with_limit, emit, flush_at, fire, Call, emitted, fired, step,
}
use roboppi.Core.JobEventThrottle.Sends.{
  is_progress_call, emit-progress, is_progress-truncate_event,
}

-- The events forwarded by the calls that emit no progress event.
unfoldable pub others : List Call → JobEventThrottle → List WorkerEvent
others [] t = []
others (c ∷ cs) t =
    let rest = others cs (step c t).0 in if is_progress_call c then rest else (step c t).1 ++ rest

abbrev is_filtered : Bool → Call → Bool
is_filtered forward_stdio (emitted now ev) = is_progress ev || (not forward_stdio && is_stdio ev)
is_filtered forward_stdio (fired now) = true

abbrev event_of : Call → List WorkerEvent
event_of (emitted now ev) = truncate_event ev ∷ []
event_of (fired now) = []

-- The other events that a caller emits and that are not filtered, truncated.
unfoldable pub accepted : Bool → List Call → List WorkerEvent
accepted forward_stdio [] = []
accepted forward_stdio (c ∷ cs) =
    let rest = accepted forward_stdio cs in
    if is_filtered forward_stdio c then rest else event_of c ++ rest

abbrev pub take : ℕ → List WorkerEvent → List WorkerEvent
take zero xs = []
take (suc n) [] = []
take (suc n) (x ∷ xs) = x ∷ take n xs

-- The first `n` events, and the notice if there are more and it was not sent.
abbrev pub cut : ℕ → Bool → List WorkerEvent → List WorkerEvent
cut n sent xs = take n xs ++ (if ltb n (length xs) && not sent then notice ∷ [] else [])

-- The notice is sent only when the limit is reached.
record IsCounted (t : JobEventThrottle) (n : ℕ) : Type 0 where
  count : t.event_count + n ≡ max_events
  sent : t.truncation_notice_sent ≡ true → n ≡ 0

-- A call that forwards none of the other events.
record Passes (t u : JobEventThrottle) : Type 0 where
  count : u.event_count ≡ t.event_count
  sent : u.truncation_notice_sent ≡ t.truncation_notice_sent
  stdio : u.forward_stdio ≡ t.forward_stdio

handle_progress-Passes :
    (now : ℕ) (ev : WorkerEvent) (t : JobEventThrottle) → Passes t (handle_progress now ev t).0
unfolding handle_progress
handle_progress-Passes now ev t = record {
  count = ground arith;
  sent = ground arith;
  stdio = ground arith;
}

fire-Passes : (now : ℕ) (t : JobEventThrottle) → Passes t (fire now t).0
unfolding fire flush_at
fire-Passes now t = record { count = ground arith; sent = ground arith; stdio = ground arith }

emit_dropped :
    (now : ℕ) (ev : WorkerEvent) (t : JobEventThrottle)
    → (not t.forward_stdio && is_stdio ev) ≡ true
    → emit now ev t ≡ (t, [])
unfolding emit
emit_dropped now ev t h = rw h refl

emit_limited :
    (now : ℕ) (ev : WorkerEvent) (t : JobEventThrottle)
    → is_progress ev ≡ false
    → (not t.forward_stdio && is_stdio ev) ≡ false
    → emit now ev t ≡ forward_with_limit (truncate_event ev) t
unfolding emit
emit_limited now ev t other kept = rw (kept, is_progress-truncate_event ev, other) refl

cut_nil : (n : ℕ) (sent : Bool) → cut n sent [] ≡ []
cut_nil zero sent = ground arith
cut_nil (suc n) sent = ground arith

cut-suc :
    (n : ℕ) (sent : Bool) (x : WorkerEvent) (xs : List WorkerEvent)
    → cut (suc n) sent (x ∷ xs) ≡ x ∷ cut n sent xs
cut-suc n sent x xs =
    let same : ltb (suc n) (suc (length xs)) ≡ ltb n (length xs) = ground arith in rw same refl

cut_sent : (xs : List WorkerEvent) → cut 0 true xs ≡ []
cut_sent xs = ground arith

cut-notice : (x : WorkerEvent) (xs : List WorkerEvent) → cut 0 false (x ∷ xs) ≡ notice ∷ []
cut-notice x xs = ground arith

Passes-IsCounted : (t u : JobEventThrottle) (n : ℕ) → Passes t u → IsCounted t n → IsCounted u n
Passes-IsCounted t u n p h = record {
  count = ground (arith, p.count, h.count);
  sent = λ e. ground (arith, p.sent, h.sent);
}

forward_full :
    (ev : WorkerEvent) (t : JobEventThrottle)
    → ltb t.event_count max_events ≡ false
    → t.truncation_notice_sent ≡ true
    → forward_with_limit ev t ≡ (t, [])
unfolding forward_with_limit
forward_full ev t full sent =
    let closed : not t.truncation_notice_sent ≡ false = ap not sent in rw (full, closed) refl

module _ (cs : List Call)
    (next : (t : JobEventThrottle) (n : ℕ)
      → IsCounted t n
      → others cs t ≡ cut n t.truncation_notice_sent (accepted t.forward_stdio cs)) where
  after_pass :
      (t u : JobEventThrottle) (n : ℕ)
      → Passes t u
      → IsCounted t n
      → others cs u ≡ cut n t.truncation_notice_sent (accepted t.forward_stdio cs)
  after_pass t u n p h =
      next u n (Passes-IsCounted t u n p h) ∙ ap₂ (λ s f. cut n s (accepted f cs)) p.sent p.stdio

  after_limit :
      (t : JobEventThrottle) (n : ℕ) (ev : WorkerEvent)
      → IsCounted t n
      → (forward_with_limit ev t).1 ++ others cs (forward_with_limit ev t).0
        ≡ cut n t.truncation_notice_sent (ev ∷ accepted t.forward_stdio cs)
  unfolding forward_with_limit
  after_limit t zero ev h =
      let full : ltb t.event_count max_events ≡ false = ground (arith, h.count) in
      let acc = accepted t.forward_stdio cs in
      elim (Bool-cases t.truncation_notice_sent) [
        | inl sent ↦ rw (forward_full ev t full sent) (
            next t zero h
            ∙ ap (λ s. cut 0 s acc) sent
            ∙ cut_sent acc
            ∙ sym (cut_sent (ev ∷ acc))
            ∙ ap (λ s. cut 0 s (ev ∷ acc)) (sym sent))
        | inr unsent ↦
            let u = record t { truncation_notice_sent = true } in
            rw (full, unsent)
              (ap (λ xs. notice ∷ xs)
                  (next u zero (record { count = h.count; sent = λ e. refl }) ∙ cut_sent acc)
                ∙ sym (cut-notice ev acc))
      ]
  after_limit t (suc n) ev h =
      let below : ltb t.event_count max_events ≡ true = ground (arith, h.count) in
      rw (below, cut-suc n t.truncation_notice_sent ev (accepted t.forward_stdio cs))
        (ap (λ xs. ev ∷ xs)
          (next (record t { event_count = t.event_count + 1 }) n
            (record {
              count = omega (arith, h.count);
              sent = λ e. absurd (omega (arith, h.sent e));
            })))

others-cut :
    (cs : List Call) (t : JobEventThrottle) (n : ℕ)
    → IsCounted t n
    → others cs t ≡ cut n t.truncation_notice_sent (accepted t.forward_stdio cs)
unfolding others accepted step
others-cut [] t n h = sym (cut_nil n t.truncation_notice_sent)
others-cut (emitted now ev ∷ cs) t n h = elim (Bool-cases (is_progress ev)) [
  | inl up ↦
      rw (up, emit-progress now ev t up)
        (after_pass cs (others-cut cs) t (handle_progress now (truncate_event ev) t).0 n
          (handle_progress-Passes now (truncate_event ev) t) h)
  | inr other ↦ elim (Bool-cases (not t.forward_stdio && is_stdio ev)) [
    | inl dropped ↦ rw (other, dropped, emit_dropped now ev t dropped) (others-cut cs t n h)
    | inr kept ↦
        rw (other, kept, emit_limited now ev t other kept)
          (after_limit cs (others-cut cs) t n (truncate_event ev) h)
  ]
]
others-cut (fired now ∷ cs) t n h =
    after_pass cs (others-cut cs) t (fire now t).0 n (fire-Passes now t) h

-- Of the patches, and of the output if it is forwarded at all, a new throttle forwards the first 500,
-- truncated and in order, then one notice if there are more, and nothing else.
pub first_500_forwarded :
    (forward_stdio : Bool) (cs : List Call)
    → others cs (new forward_stdio) ≡ cut 500 false (accepted forward_stdio cs)
unfolding new
first_500_forwarded forward_stdio cs =
    others-cut cs (new forward_stdio) 500
      (record { count = omega arith; sent = λ e. absurd (ground arith) })
