-- ===== src/Core/EscalationManager/Picked.antt =====
-- Some of the events of an evaluation of src/core/escalation-manager.ts.
use roboppi.Base.{◌≡◌, refl, Bool, List, [], ◌∷◌, ◌++◌, arith, if◌then◌else◌}
use roboppi.Core.Escalation.{EscalationEvent}

-- The events that pass a test, in order.
unfoldable pub pick : (EscalationEvent → Bool) → List EscalationEvent → List EscalationEvent
pick p [] = []
pick p (e ∷ es) = let rest = pick p es in if p e then e ∷ rest else rest

pub pick-append :
    (p : EscalationEvent → Bool) (xs ys : List EscalationEvent)
    → pick p (xs ++ ys) ≡ pick p xs ++ pick p ys
unfolding pick
pick-append p [] ys = refl
pick-append p (x ∷ xs) ys = ground (arith, pick-append p xs ys)
