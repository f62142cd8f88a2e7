-- ===== src/Core/EscalationManager/Failing.antt =====
-- When src/core/escalation-manager.ts stops the whole system.
use roboppi.Base.{Bool, true, false, ◌||◌, List, [], ◌∷◌}
use roboppi.Base.Dict.{Dict}
use roboppi.Core.Escalation.{EscalationScope, EscalationEvent, global}
use roboppi.Core.EscalationManager.{EscalationManager}

is_global : EscalationScope → Bool
is_global global = true
is_global _ = false

pub has_global : List EscalationEvent → Bool
has_global [] = false
has_global (e ∷ es) = is_global e.scope || has_global es
