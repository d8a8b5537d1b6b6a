-- ===== src/Generator/SpawnFunc/Reported.antt =====
-- generator.go with user.go: which errors of a user the master gets to see.
use launce.Base.{
  ◌≡◌, inl, inr, Bool-cases, Option-cases, refl, ap, Bool, true, false, Option, none, some, List,
  [], ◌∷◌, ◌++◌, arith, take, if◌then◌else◌,
}
use launce.User.{Error, is_stop, Round, Life, loop, process_user}
use launce.User.Lifecycle.{is_last}
use launce.Generator.SpawnFunc.{reported_errors, report_end, spawn_func}

-- The turns before the one in which the context is done or `Process` says to stop.
unfoldable pub before_last : List Round → List Round
before_last [] = []
before_last (r ∷ rs) = if is_last r then [] else r ∷ before_last rs

-- The errors that `Process` returns in some turns.
unfoldable pub errors_of : List Round → List Error
errors_of [] = []
errors_of (r ∷ rs) = elim r.process [ none ↦ errors_of rs | some e ↦ e ∷ errors_of rs ]

abbrev reports : Bool → Life → Option (List Error)
reports catches l = elim (report_end (some catches) l.result) [
  | none ↦ none
  | some es ↦ some (reported_errors l.events ++ es)
]

-- What is reported at the end, behind other reports.
abbrev behind : List Error → Option (List Error) → Option (List Error)
behind es o = elim o [ none ↦ none | some fs ↦ some (es ++ fs) ]

behind_more :
    (e : Error) (es xs : List Error) (o : Option (List Error))
    → behind es o ≡ some xs
    → behind (e ∷ es) o ≡ some (e ∷ xs)
behind_more e es xs none h = cc
behind_more e es xs (some fs) h = ground (arith, h)

reports-catching :
    (rs : List Round) → reports true (loop (some true) none rs) ≡ some (errors_of (before_last rs))
unfolding loop before_last errors_of report_end reported_errors
reports-catching [] = refl
reports-catching (r ∷ rs) = elim (Bool-cases r.ctx_done) [
  | inl x ↦ rw (x, loop, before_last) refl
  | inr x ↦ elim (Option-cases r.process) [
    | inl y ↦ rw (x, y, loop, before_last) (reports-catching rs)
    | inr (e, y) ↦ elim (Bool-cases (is_stop e)) [
      | inl z ↦ rw (x, y, z, loop, before_last) refl
      | inr z ↦
          rw (x, y, z, loop, before_last)
            (behind_more e (reported_errors (loop (some true) none rs).events)
              (errors_of (before_last rs))
              (report_end (some true) (loop (some true) none rs).result) (reports-catching rs))
    ]
  ]
]

-- An error that is not caught ends the user.
report_uncaught :
    (e : Error) → is_stop e ≡ false → report_end (some false) (some (some e)) ≡ some (e ∷ [])
unfolding report_end
report_uncaught e h = ground (arith, h)

reports-passing :
    (rs : List Round)
    → reports false (loop (some false) none rs) ≡ some (take 1 (errors_of (before_last rs)))
unfolding loop before_last errors_of reported_errors
reports-passing [] = unfold report_end in refl
reports-passing (r ∷ rs) = elim (Bool-cases r.ctx_done) [
  | inl x ↦ rw (x, loop, before_last) (unfold report_end in refl)
  | inr x ↦ elim (Option-cases r.process) [
    | inl y ↦ rw (x, y, loop, before_last) (reports-passing rs)
    | inr (e, y) ↦ elim (Bool-cases (is_stop e)) [
      | inl z ↦ rw (x, y, z, loop, before_last) (unfold report_end in refl)
      | inr z ↦ rw (x, y, z, loop, before_last) (ap (behind []) (report_uncaught e z))
    ]
  ]
]

-- The errors of a user whose `OnStart` and `OnStop` return none. A worker that catches exceptions reports each error
-- that `Process` returned before the turn in which the user is stopped, once and in order; one that does not
-- catch them reports the first of these, if there is one, and no other.
pub spawn_func_lem :
    (rs : List Round)
    → (spawn_func (some true) none none rs ≡ some (errors_of (before_last rs)))
      × (spawn_func (some false) none none rs ≡ some (take 1 (errors_of (before_last rs))))
unfolding spawn_func process_user
spawn_func_lem rs = (reports-catching rs, reports-passing rs)
