-- ===== src/Stats/Same.antt =====
-- stats/entry.go: valid entries, and entries with the same content.
use launce.Base.{ℕ, ◌<◌, ◌≡◌, refl, sym, ◌∙◌, ◌⊎◌, Option, List, [], ◌∷◌, String, arith}
use launce.Base.Int64.{add64, minus_one, IsNonneg, IsInt64}
use launce.Base.Maps.{ℕ-key, IsDistinct, count, read, add_at-IsDistinct, store-IsDistinct}
use launce.Stats.Round.{round_response_time}
use launce.Stats.Counters.{Time, Entry, new_entry, add}

-- The arguments of `Add`.
pub record Request : Type 0 where
  pub now : Time
  pub response_time : ℕ
  pub content_length : ℕ
  pub err : Option String

abbrev pub add_request : Entry → Request → Entry
add_request e r = add e r.now r.response_time r.content_length r.err

unfoldable pub add_requests : Entry → List Request → Entry
add_requests e [] = e
add_requests e (r ∷ rs) = add_requests (add_request e r) rs

-- The request is made after 1970, and its numbers are 64-bit integers.
pub record IsRequest (r : Request) : Type 0 where
  pub after_epoch : 0 < r.now.unix_nano
  pub nano_in_range : IsNonneg r.now.unix_nano
  pub response_in_range : IsInt64 r.response_time

pub record IsValid (e : Entry) : Type 0 where
  pub start_in_range : IsNonneg e.start_time
  pub last_in_range : IsNonneg e.last_request_timestamp
  pub min_in_range : (e.min_response_time ≡ minus_one) ⊎ IsNonneg e.min_response_time
  pub max_in_range : IsNonneg e.max_response_time
  pub seconds_distinct : IsDistinct e.num_requests_per_sec
  pub failures_distinct : IsDistinct e.num_failures_per_sec
  pub times_distinct : IsDistinct e.response_times

-- Two entries with the same numbers, whose maps read the same at every key.
pub record SameEntry (a b : Entry) : Type 0 where
  pub same_start : a.start_time ≡ b.start_time
  pub same_last : a.last_request_timestamp ≡ b.last_request_timestamp
  pub same_requests : add64 a.num_requests 0 ≡ add64 b.num_requests 0
  pub same_none : add64 a.num_none_requests 0 ≡ add64 b.num_none_requests 0
  pub same_failures : add64 a.num_failures 0 ≡ add64 b.num_failures 0
  pub same_total : add64 a.total_response_time 0 ≡ add64 b.total_response_time 0
  pub same_min : a.min_response_time ≡ b.min_response_time
  pub same_max : a.max_response_time ≡ b.max_response_time
  pub same_length : add64 a.total_content_length 0 ≡ add64 b.total_content_length 0
  pub same_seconds : (t : ℕ) → count t a.num_requests_per_sec ≡ count t b.num_requests_per_sec
  pub same_failing : (t : ℕ) → count t a.num_failures_per_sec ≡ count t b.num_failures_per_sec
  pub same_times : (t : ℕ) → count t a.response_times ≡ count t b.response_times

pub new_entry-IsValid : IsValid new_entry
unfolding new_entry
new_entry-IsValid = ground arith

pub add-IsValid : (e : Entry) (r : Request) → IsValid e → IsRequest r → IsValid (add_request e r)
unfolding add
add-IsValid e r v h = ground (
  arith,
  add_at-IsDistinct r.now.unix 1 e.num_requests_per_sec,
  add_at-IsDistinct (round_response_time r.response_time) 1 e.response_times,
  store-IsDistinct r.now.unix (add64 (read r.now.unix e.num_failures_per_sec) 1)
      e.num_failures_per_sec,
)

pub SameEntry-trans : (a b c : Entry) → SameEntry a b → SameEntry b c → SameEntry a c
SameEntry-trans a b c s t = record {
  same_start = s.same_start ∙ t.same_start;
  same_last = s.same_last ∙ t.same_last;
  same_requests = s.same_requests ∙ t.same_requests;
  same_none = s.same_none ∙ t.same_none;
  same_failures = s.same_failures ∙ t.same_failures;
  same_total = s.same_total ∙ t.same_total;
  same_min = s.same_min ∙ t.same_min;
  same_max = s.same_max ∙ t.same_max;
  same_length = s.same_length ∙ t.same_length;
  same_seconds = λ j. s.same_seconds j ∙ t.same_seconds j;
  same_failing = λ j. s.same_failing j ∙ t.same_failing j;
  same_times = λ j. s.same_times j ∙ t.same_times j;
}

pub SameEntry-sym : (a b : Entry) → SameEntry a b → SameEntry b a
SameEntry-sym a b s = record {
  same_start = sym s.same_start;
  same_last = sym s.same_last;
  same_requests = sym s.same_requests;
  same_none = sym s.same_none;
  same_failures = sym s.same_failures;
  same_total = sym s.same_total;
  same_min = sym s.same_min;
  same_max = sym s.same_max;
  same_length = sym s.same_length;
  same_seconds = λ j. sym (s.same_seconds j);
  same_failing = λ j. sym (s.same_failing j);
  same_times = λ j. sym (s.same_times j);
}

pub SameEntry-refl : (a : Entry) → SameEntry a a
SameEntry-refl a = record {
  same_start = refl;
  same_last = refl;
  same_requests = refl;
  same_none = refl;
  same_failures = refl;
  same_total = refl;
  same_min = refl;
  same_max = refl;
  same_length = refl;
  same_seconds = λ j. refl;
  same_failing = λ j. refl;
  same_times = λ j. refl;
}
