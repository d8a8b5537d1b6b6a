-- ===== src/Generator/SpawnFunc.antt =====
-- generator.go: the function that a spawned goroutine runs, behind the choice of its aggregator: the life of
-- the user, and the report of the error that it ends with.
pub mod Reported
mod Tests
use launce.Base.{ℕ, Bool, true, false, Option, none, some, List, [], ◌∷◌, ◌++◌}
use launce.User.{
  Error, canceled, Event, reported, processed, stopped, Round, Runner, Life, process_user,
}

abbrev is_canceled : Error → Bool
is_canceled canceled = true
is_canceled e = false

-- The errors among the events.
unfoldable pub reported_errors : List Event → List Error
reported_errors [] = []
reported_errors (reported e ∷ es) = e ∷ reported_errors es
reported_errors (processed ∷ es) = reported_errors es
reported_errors (stopped ∷ es) = reported_errors es

-- What is reported behind `processUser`; `none` is the call of a method of a nil runner, a panic.
unfoldable pub report_end : Runner → Option (Option Error) → Option (List Error)
report_end runner none = some []
report_end runner (some none) = some []
report_end runner (some (some e)) = elim (is_canceled e) [
  | true ↦ some []
  | false ↦ elim runner [ none ↦ none | some catches ↦ some (e ∷ []) ]
]

-- All that `ReportException` of the runner is called with for one spawned user.
unfoldable pub spawn_func : Runner → Option Error → Option Error → List Round → Option (List Error)
unfolding reported_errors report_end
spawn_func runner on_start on_stop rs =
    let life = process_user runner on_start on_stop rs in
    elim (report_end runner life.result) [
      | none ↦ none
      | some es ↦ some (reported_errors life.events ++ es)
    ]
