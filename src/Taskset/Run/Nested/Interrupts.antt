-- ===== src/Taskset/Run/Nested/Interrupts.antt =====
-- taskset/taskset.go: how far an interrupt reaches among nested task sets.
use launce.Base.{◌≡◌, Bool, true, false, Option, none, some}
use launce.User.{
  Error, canceled, reschedule, reschedule_immediately, interrupt, interrupt_immediately, other,
}
use launce.Taskset.Run.{Outcome, returned, panicked, running}
use launce.Taskset.Run.Nested.{answer, Answers, nil, cons}

unfoldable pub is_interrupt : Error → Bool
is_interrupt interrupt = true
is_interrupt interrupt_immediately = true
is_interrupt e = false

-- What a context's `Err` may be: nothing, or an error that is none of this package or of launce.
unfoldable pub is_of_context : Option Error → Bool
is_of_context none = true
is_of_context (some canceled) = true
is_of_context (some (other n)) = true
is_of_context (some e) = false

-- The errors of contexts and waits, at all depths.
unfoldable pub AreOfContexts {ℓ} : {A : Type ℓ} → Answers A → Type 0
unfolding is_of_context
AreOfContexts nil = Unit
AreOfContexts (cons (answer r o inside) rest) =
    (is_of_context r.ctx_err ≡ true)
    × (is_of_context r.wait_err ≡ true)
    × (is_of_context o.ctx_err ≡ true)
    × AreOfContexts inside
    × AreOfContexts rest

-- A run does not end with an interrupt.
unfoldable pub IsContained : Outcome → Type 0
unfolding is_interrupt
IsContained (returned e) = is_interrupt e ≡ false
IsContained panicked = Unit
IsContained running = Unit

-- Whether there is an error, and it is one of the four of the package.
unfoldable pub is_of_taskset : Option Error → Bool
is_of_taskset (some reschedule) = true
is_of_taskset (some reschedule_immediately) = true
is_of_taskset (some interrupt) = true
is_of_taskset (some interrupt_immediately) = true
is_of_taskset p = false
