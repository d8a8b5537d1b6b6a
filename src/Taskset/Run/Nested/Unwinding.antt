-- ===== src/Taskset/Run/Nested/Unwinding.antt =====
-- taskset/taskset.go: how an error that stops the user passes through nested task sets.
use launce.Base.{
  ℕ, zero, suc, ◌+◌, ◌≡◌, sym, ◌∙◌, ap, append_assoc, true, false, Option, none, some, List, [],
  ◌∷◌, ◌++◌, arith,
}
use launce.User.{Error, is_stop, Runner}
use launce.Taskset.Queue.{TaskQueue}
use launce.Taskset.Run.{Event, ran, stopped, returned, Round, react, schedule_each, choose, process}
use launce.Taskset.Run.Nested.{
  Opening, Answer, answer, Answers, cons, Deep, before, turn, go_on, after_set, early, loop,
}

process_stop : (e : Error) → is_stop e ≡ true → process (some e) ≡ some e
unfolding process
process_stop e h = ground (arith, h)

module _ {ℓ} {A : Type ℓ} where
  abbrev pub fresh : Opening A → TaskQueue A
  fresh o = schedule_each (record { tasks = []; current = none }) o.scheduled

  -- A task of the `k`-th set inside, and the calls of `OnStop` of the sets around it, from the one that it belongs to
  -- out to the one at the depth.
  unfoldable pub unwinding : A → ℕ → ℕ → List (ℕ × Event A)
  unwinding t d zero = (d, ran t) ∷ (d, stopped) ∷ []
  unwinding t d (suc k) = unwinding t (d + 1) k ++ (d, stopped) ∷ []

  -- An error that stops the user.
  go_on-stop :
      (d : ℕ) (runner : Runner) (r : Round A) (e : Error) (rest : Deep A)
      → is_stop e ≡ true
      → go_on d (turn runner r (some e)) rest
        ≡ record { events = (d, stopped) ∷ []; outcome = returned e }
  unfolding go_on react
  go_on-stop d runner r e rest h = ground (arith, h)

  module _ {κ} {S : Type κ} (next_task : S → Option (A × S)) (enter : A → Option S)
      (runner : Runner) (e : Error) where
    -- Behind these events the loop at depth `d` runs a task, in the `k`-th set inside, that returns the error: in this
    -- turn, in the set that is the task of this turn, or later, when the loop has gone on.
    pub data Reaches
        : A → List (ℕ × Event A) → ℕ → S → TaskQueue A → Answers A → ℕ → Type (ℓ ⊔ κ) where
      here :
          {d : ℕ} {s s' : S} {q q' : TaskQueue A} {r : Round A} {o : Opening A}
          {inside rest : Answers A} {t : A}
          → r.ctx_err ≡ none
          → r.stopping ≡ false
          → choose next_task s q ≡ some (t, q', s')
          → enter t ≡ none
          → r.result ≡ some e
          → Reaches t [] d s q (cons (answer r o inside) rest) 0
      deeper :
          {d k : ℕ} {s s' inner : S} {q q' : TaskQueue A} {r : Round A} {o : Opening A}
          {inside rest : Answers A} {t u : A} {es : List (ℕ × Event A)}
          → r.ctx_err ≡ none
          → r.stopping ≡ false
          → choose next_task s q ≡ some (u, q', s')
          → enter u ≡ some inner
          → early o ≡ none
          → Reaches t es (d + 1) inner (fresh o) inside k
          → Reaches t ((d, ran u) ∷ es) d s q (cons (answer r o inside) rest) (suc k)
      later :
          {d k : ℕ} {s s' : S} {q q' : TaskQueue A} {a : Answer A} {rest : Answers A} {t : A}
          {fs : List (ℕ × Event A)} (es : List (ℕ × Event A))
          → loop next_task enter d runner s q (cons a rest)
            ≡ before es (loop next_task enter d runner s' q' rest)
          → Reaches t fs d s' q' rest k
          → Reaches t (es ++ fs) d s q (cons a rest) k

    unwinds :
        {t : A} {es : List (ℕ × Event A)} {d k : ℕ} {s : S} {q : TaskQueue A} {answers : Answers A}
        → is_stop e ≡ true
        → Reaches t es d s q answers k
        → loop next_task enter d runner s q answers
          ≡ record { events = es ++ unwinding t d k; outcome = returned e }
    unfolding loop after_set unwinding
    unwinds h (here {d = d} {s' = s'} {q' = q'} {r = r} {rest = rest} {t = t} c y z u p) =
        let after = loop next_task enter d runner s' (schedule_each q' r.scheduled) rest in
        rw (c, y, z, u, loop)
          (ap (λ x. before ((d, ran t) ∷ []) (go_on d (turn runner r x) after)) p
            ∙ ap (before ((d, ran t) ∷ [])) (go_on-stop d runner r e after h))
    unwinds h
          (deeper {d = d} {k = k} {s' = s'} {q' = q'} {r = r} {rest = rest} {t = t} {u = u}
            {es = es} c y z i v x) =
        let after = loop next_task enter d runner s' q' rest in
        rw (c, y, z, i, v, loop)
          (ap (λ w. before ((d, ran u) ∷ []) (after_set d runner r w after)) (unwinds h x)
            ∙ ap (before ((d, ran u) ∷ es ++ unwinding t (d + 1) k))
                (go_on-stop d runner r e after h)
            ∙ ap (λ l. record { events = (d, ran u) ∷ l; outcome = returned e })
                (append_assoc es (unwinding t (d + 1) k) ((d, stopped) ∷ [])))
    unwinds h (later {d = d} {k = k} {t = t} {fs = fs} es g x) =
        g
        ∙ ap (before es) (unwinds h x)
        ∙ ap (λ l. record { events = l; outcome = returned e })
            (sym (append_assoc es fs (unwinding t d k)))

    -- Behind the events `es` a task in the `k`-th set inside runs and returns an error that stops the user. Then the
    -- run ends with this error, and its events are `es`, the task, and `OnStop` of each of the sets around
    -- it, from the inside out: nothing else comes behind the task. `Process` passes the error on to the
    -- user's loop.
    pub loop_unwinds :
        (t : A) (es : List (ℕ × Event A)) (d : ℕ) (s : S) (q : TaskQueue A) (answers : Answers A)
        (k : ℕ)
        → is_stop e ≡ true
        → Reaches t es d s q answers k
        → (loop next_task enter d runner s q answers
            ≡ record { events = es ++ unwinding t d k; outcome = returned e })
          × (process (some e) ≡ some e)
    loop_unwinds t es d s q answers k h x = (unwinds h x, process_stop e h)
