-- ===== src/Stats/Counters.antt =====
-- stats/entry.go: the statistics of one kind of request.
use launce.Base.{ℕ, ◌&&◌, ◌||◌, Option, none, some, [], String, ◌==◌, if◌then◌else◌}
use launce.Base.Int64.{add64, lt64, le64, max64, minus_one}
use launce.Base.Maps.{ℕ-key, GoMap, store, read, add_at, add_all}
use launce.Stats.Round.{round_response_time}

-- A `time.Time`, by the two readings that are taken of it: seconds and nanoseconds since 1970.
pub record Time : Type 0 where
  pub unix : ℕ
  pub unix_nano : ℕ

-- All numbers are `int64`.
pub record Entry : Type 0 where
  pub start_time : ℕ
  pub num_requests : ℕ
  pub num_none_requests : ℕ
  pub num_requests_per_sec : GoMap ℕ ℕ
  pub num_failures : ℕ
  pub num_failures_per_sec : GoMap ℕ ℕ
  pub last_request_timestamp : ℕ
  pub total_response_time : ℕ
  pub min_response_time : ℕ
  pub max_response_time : ℕ
  pub total_content_length : ℕ
  pub response_times : GoMap ℕ ℕ

unfoldable pub new_entry : Entry
new_entry = record {
  start_time = 0;
  num_requests = 0;
  num_none_requests = 0;
  num_requests_per_sec = [];
  num_failures = 0;
  num_failures_per_sec = [];
  last_request_timestamp = 0;
  total_response_time = 0;
  min_response_time = minus_one;
  max_response_time = 0;
  total_content_length = 0;
  response_times = [];
}

-- `if s == 0 || s > t { s = t }`.
abbrev pub earliest : ℕ → ℕ → ℕ
earliest s t = if s == 0 || lt64 t s then t else s

-- `if s < t { s = t }`.
abbrev pub latest : ℕ → ℕ → ℕ
latest s t = if lt64 s t then t else s

-- `if m < 0 || (t >= 0 && m > t) { m = t }`.
abbrev pub least : ℕ → ℕ → ℕ
least m t = if lt64 m 0 || (le64 0 t && lt64 t m) then t else m

-- The branches of `Add` on the response time: one that is negative is none.
unfoldable pub add_response : Entry → ℕ → Entry
add_response e t =
    if lt64 t 0 then record e { num_none_requests = add64 e.num_none_requests 1 } else record e {
      total_response_time = add64 e.total_response_time t;
      min_response_time =
          if lt64 e.min_response_time 0 || lt64 t e.min_response_time
          then t
          else e.min_response_time;
      max_response_time = max64 e.max_response_time t;
      response_times = add_at (round_response_time t) 1 e.response_times;
    }

-- The last branch of `Add`. A read of a missing key is 0.
unfoldable pub add_failure : Entry → ℕ → Option String → Entry
add_failure e t none = e
add_failure e t (some err) = record e {
  num_failures = add64 e.num_failures 1;
  num_failures_per_sec = store t (add64 (read t e.num_failures_per_sec) 1) e.num_failures_per_sec;
}

-- The method `Add`. Of the error it matters only whether there is one.
unfoldable pub add : Entry → Time → ℕ → ℕ → Option String → Entry
unfolding add_response add_failure
add e now response_time content_length err =
    let timed = record e {
      start_time = earliest e.start_time now.unix_nano;
      last_request_timestamp = latest e.last_request_timestamp now.unix_nano;
      num_requests = add64 e.num_requests 1;
    } in
    let e' = add_response timed response_time in
    let counted = record e' {
      total_content_length = add64 e'.total_content_length content_length;
      num_requests_per_sec = add_at now.unix 1 e'.num_requests_per_sec;
    } in
    add_failure counted now.unix err

-- The method `Merge`.
unfoldable pub merge : Entry → Entry → Entry
merge e src = record {
  start_time = earliest e.start_time src.start_time;
  num_requests = add64 e.num_requests src.num_requests;
  num_none_requests = add64 e.num_none_requests src.num_none_requests;
  num_requests_per_sec = add_all e.num_requests_per_sec src.num_requests_per_sec;
  num_failures = add64 e.num_failures src.num_failures;
  num_failures_per_sec = add_all e.num_failures_per_sec src.num_failures_per_sec;
  last_request_timestamp = latest e.last_request_timestamp src.last_request_timestamp;
  total_response_time = add64 e.total_response_time src.total_response_time;
  min_response_time = least e.min_response_time src.min_response_time;
  max_response_time = latest e.max_response_time src.max_response_time;
  total_content_length = add64 e.total_content_length src.total_content_length;
  response_times = add_all e.response_times src.response_times;
}
