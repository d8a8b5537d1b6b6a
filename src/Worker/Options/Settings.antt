-- ===== src/Worker/Options/Settings.antt =====
-- worker_option.go and worker.go: which option counts, and which handlers are called.
use launce.Base.{
  ℕ, ◌≡◌, refl, sym, ◌∙◌, ap, Bool, true, false, Option, none, some, List, [], ◌∷◌, ◌++◌,
  append_assoc, append-nil, inl, inr, Option-cases, String, arith, if◌then◌else◌,
}
use mathlib.Core.Bool.{true≢false}
use launce.Base.Maps.{String-key, GoMap, lookup, lookup-store}
use launce.Spawner.Channel.{RestartMode}
use launce.LogCapture.{LogCapture}
use launce.Worker.Options.{
  Config, WorkerOption, with_version, with_client_id, with_catch_exceptions, with_restart_mode,
  with_heartbeat_interval, with_master_heartbeat_timeout, with_metrics_monitor_interval,
  with_stats_report_interval, with_stats_aggregation_interval, with_stats_aggregation_users,
  with_log_capture, with_log_report_interval, apply, defaults, apply_all, new_worker,
  register_message, handlers_of, dispatch,
}

-- The fields of the worker that options set, and their types.
pub data Field : Type 0 where
  version client_id catch_exceptions restart_mode heartbeat_interval master_heartbeat_timeout
        metrics_monitor_interval stats_report_interval stats_notify_interval stats_aggregation_users
        log_capture log_report_interval :
      Field

abbrev pub Value : Field → Type 0
Value version = String
Value client_id = String
Value catch_exceptions = Bool
Value restart_mode = RestartMode
Value heartbeat_interval = ℕ
Value master_heartbeat_timeout = ℕ
Value metrics_monitor_interval = ℕ
Value stats_report_interval = ℕ
Value stats_notify_interval = ℕ
Value stats_aggregation_users = ℕ
Value log_capture = Option LogCapture
Value log_report_interval = ℕ

unfoldable pub get : (f : Field) → Config → Value f
get version c = c.version
get client_id c = c.client_id
get catch_exceptions c = c.catch_exceptions
get restart_mode c = c.restart_mode
get heartbeat_interval c = c.heartbeat_interval
get master_heartbeat_timeout c = c.master_heartbeat_timeout
get metrics_monitor_interval c = c.metrics_monitor_interval
get stats_report_interval c = c.stats_report_interval
get stats_notify_interval c = c.stats_notify_interval
get stats_aggregation_users c = c.stats_aggregation_users
get log_capture c = c.log_capture
get log_report_interval c = c.log_report_interval

-- The value that an option gives to a field.
unfoldable pub value : (f : Field) → WorkerOption → Option (Value f)
value version (with_version x) = some x
value client_id (with_client_id x) = some x
value catch_exceptions (with_catch_exceptions x) = some x
value restart_mode (with_restart_mode x) = some x
value heartbeat_interval (with_heartbeat_interval x) = some x
value master_heartbeat_timeout (with_master_heartbeat_timeout x) = some x
value metrics_monitor_interval (with_metrics_monitor_interval x) = some x
value stats_report_interval (with_stats_report_interval x) = some x
value stats_notify_interval (with_stats_aggregation_interval x) = some x
value stats_aggregation_users (with_stats_aggregation_users x) = some x
value log_capture (with_log_capture x) = some x
value log_report_interval (with_log_report_interval x) = some x
value f o = none

-- The value of the last option for the field, or the default.
unfoldable pub last_value : (f : Field) → Value f → List WorkerOption → Value f
unfolding value
last_value f v [] = v
last_value f v (o ∷ os) = last_value f (elim (value f o) [ none ↦ v | some x ↦ x ]) os

get-apply :
    (f : Field) (o : WorkerOption) (c : Config)
    → get f (apply o c) ≡ elim (value f o) [ none ↦ get f c | some x ↦ x ]
unfolding get value apply
get-apply version o c = ground arith
get-apply client_id o c = ground arith
get-apply catch_exceptions o c = ground arith
get-apply restart_mode o c = ground arith
get-apply heartbeat_interval o c = ground arith
get-apply master_heartbeat_timeout o c = ground arith
get-apply metrics_monitor_interval o c = ground arith
get-apply stats_report_interval o c = ground arith
get-apply stats_notify_interval o c = ground arith
get-apply stats_aggregation_users o c = ground arith
get-apply log_capture o c = ground arith
get-apply log_report_interval o c = ground arith

get-apply_all :
    (f : Field) (os : List WorkerOption) (c : Config)
    → get f (apply_all os c) ≡ last_value f (get f c) os
unfolding apply_all last_value
get-apply_all f [] c = refl
get-apply_all f (o ∷ os) c =
    get-apply_all f os (apply o c) ∙ ap (λ v. last_value f v os) (get-apply f o c)

-- Whether an option of the list sets the field.
unfoldable pub sets : Field → List WorkerOption → Bool
unfolding value
sets f [] = false
sets f (o ∷ os) = elim (value f o) [ none ↦ sets f os | some x ↦ true ]

last_value-unset :
    (f : Field) (v : Value f) (os : List WorkerOption) → sets f os ≡ false → last_value f v os ≡ v
unfolding sets last_value
last_value-unset f v [] h = refl
last_value-unset f v (o ∷ os) h = elim (Option-cases (value f o)) [
  | inl e ↦ rw (e, last_value) (last_value-unset f v os (rw (e, sets) at h))
  | inr (x, e) ↦ absurd (true≢false (rw (e, sets) at h))
]

last_value-append :
    (f : Field) (v : Value f) (os : List WorkerOption) (o : WorkerOption)
    (after : List WorkerOption) (x : Value f)
    → value f o ≡ some x
    → sets f after ≡ false
    → last_value f v (os ++ o ∷ after) ≡ x
unfolding last_value
last_value-append f v [] o after x e h = rw (e, last_value) (last_value-unset f x after h)
last_value-append f v (p ∷ os) o after x e h = last_value-append f _ os o after x e h

-- The field of the worker, if there is one.
abbrev pub setting : (f : Field) → Option Config → Option (Value f)
setting f none = none
setting f (some c) = some (get f c)

-- What `NewWorker` makes with some options. A field that none of them sets has its default; a field that
-- some set has the value of the last of these, wherever the others for it and for other fields stand.
pub get-new_worker :
    (id : String) (before after : List WorkerOption) (o : WorkerOption) (f : Field) (x : Value f)
    → value f o ≡ some x
    → sets f after ≡ false
    → (setting f (new_worker (some id) true (before ++ o ∷ after)) ≡ some x)
      × (setting f (new_worker (some id) true after) ≡ some (get f (defaults id)))
unfolding new_worker
get-new_worker id before after o f x e h = (
  ap some (
      get-apply_all f (before ++ o ∷ after) (defaults id)
      ∙ last_value-append f _ before o after x e h),
  ap some (get-apply_all f after (defaults id) ∙ last_value-unset f _ after h),
)

module _ {ℓ} {H : Type ℓ} where
  -- The handlers of a type among calls of `RegisterMessage`.
  unfoldable pub registered : List (String × H) → String → List H
  registered [] typ = []
  registered ((t, h) ∷ rs) typ =
      if String-key.same t typ then h ∷ registered rs typ else registered rs typ

  unfoldable pub register_all : GoMap String (List H) → List (String × H) → GoMap String (List H)
  register_all m [] = m
  register_all m ((t, h) ∷ rs) = register_all (register_message m t h) rs

  dispatch-register_message :
      (m : GoMap String (List H)) (t typ : String) (h : H)
      → dispatch (register_message m t h) typ
        ≡ dispatch m typ ++ (if String-key.same t typ then h ∷ [] else [])
  unfolding dispatch register_message
  dispatch-register_message m t typ h = ground (
    arith,
    lookup-store t typ (handlers_of (lookup t m) ++ h ∷ []) m,
    String-key.same_iff t typ,
    append-nil (dispatch m typ),
  )

  dispatch_from :
      (m : GoMap String (List H)) (rs : List (String × H)) (typ : String)
      → dispatch (register_all m rs) typ ≡ dispatch m typ ++ registered rs typ
  unfolding register_all registered
  dispatch_from m [] typ = sym (append-nil (dispatch m typ))
  dispatch_from m ((t, h) ∷ rs) typ =
      dispatch_from (register_message m t h) rs typ
      ∙ ap (λ hs. hs ++ registered rs typ) (dispatch-register_message m t typ h)
      ∙ append_assoc (dispatch m typ) (if String-key.same t typ then h ∷ [] else [])
          (registered rs typ)
      ∙ ap (λ hs. dispatch m typ ++ hs) (ground arith)

  -- After any calls of `RegisterMessage`, a message of a type that the worker does not know goes to the handlers that
  -- were registered for just this type, in the order of the calls.
  pub dispatch-register_all :
      (rs : List (String × H)) (typ : String)
      → dispatch (register_all [] rs) typ ≡ registered rs typ
  unfolding dispatch lookup
  dispatch-register_all rs typ = dispatch_from [] rs typ
