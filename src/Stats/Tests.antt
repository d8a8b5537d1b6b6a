-- ===== src/Stats/Tests.antt =====
-- The theorems on stats/ at concrete inputs.
use launce.Base.{String, ◌≡◌, refl, none, some, List, [], ◌∷◌, ◌++◌, arith}
use launce.Base.Int64.{add64}
use launce.Stats.Round.{round_response_time}
use launce.Stats.Counters.{Time, Entry, new_entry}
use launce.Stats.Counters
use launce.Stats.Same.{
  Request, add_request, add_requests, IsRequest, IsValid, SameEntry, new_entry-IsValid, add-IsValid,
}
use launce.Stats.Merging.{merge-split}
use launce.Stats.Failures.{ErrorKey, encode, ErrorKey-key, ErrorOccurrence, IsOccurrence}
use launce.Stats.Reports.{Report, report_all, entry_at-merge}
use launce.Stats.Totals.{sum_of, flush_totals}
use launce.Stats.{EntryKey, EntryKey-key, entry_at, Stats, flush, merge}
use launce.Stats

-- A minute after 1970, and 123.456 ms later.
abbrev t₁ : Time
t₁ = record { unix = 60; unix_nano = 60_000_000_000 }

abbrev t₂ : Time
t₂ = record { unix = 60; unix_nano = 60_123_456_000 }

abbrev login : EntryKey
login = record { method = "GET"; name = "/login" }

abbrev good : Request
good = record { now = t₁; response_time = 123_456_000; content_length = 10; err = none }

abbrev bad : Request
bad = record { now = t₂; response_time = 2_000_000; content_length = 0; err = some "timeout" }

good-IsRequest : IsRequest good
good-IsRequest = record {
  after_epoch = omega arith;
  nano_in_range = omega arith;
  response_in_range = omega arith;
}

bad-IsRequest : IsRequest bad
bad-IsRequest = record {
  after_epoch = omega arith;
  nano_in_range = omega arith;
  response_in_range = omega arith;
}

abbrev first_part : List Report
first_part = record { key = login; request = good } ∷ []

abbrev second_part : List Report
second_part = record { key = login; request = bad } ∷ record { key = login; request = good } ∷ []

entry_at-merge_example :
    SameEntry
      (entry_at login
        (merge
          (report_all (Stats.new t₁) first_part)
          (report_all (Stats.new t₂) second_part)).entries)
      (entry_at login (report_all (Stats.new t₁) (first_part ++ second_part)).entries)
entry_at-merge_example =
    entry_at-merge t₁ t₂ first_part second_part login (good-IsRequest, tt)
      (bad-IsRequest, (good-IsRequest, tt))

merge-split_example :
    SameEntry
      (Counters.merge
        (add_requests new_entry (good ∷ []))
        (add_requests new_entry (bad ∷ good ∷ [])))
      (add_requests new_entry (good ∷ bad ∷ good ∷ []))
merge-split_example =
    merge-split (good ∷ []) bad (good ∷ []) (good-IsRequest, tt)
      (bad-IsRequest, (good-IsRequest, tt))

abbrev once : Entry
once = add_request new_entry good

once-IsValid : IsValid once
once-IsValid = add-IsValid new_entry good new_entry-IsValid good-IsRequest

abbrev refused : ErrorKey
refused = record { method = "GET"; name = "/login"; error = "refused" }

abbrev early : ErrorOccurrence
early = record { count = 2; first_seen = 5; last_seen = 9 }

abbrev late : ErrorOccurrence
late = record { count = 1; first_seen = 7; last_seen = 7 }

early-IsOccurrence : IsOccurrence early
early-IsOccurrence = record {
  count_in_range = omega arith;
  first_in_range = omega arith;
  last_in_range = omega arith;
}

late-IsOccurrence : IsOccurrence late
late-IsOccurrence = record {
  count_in_range = omega arith;
  first_in_range = omega arith;
  last_in_range = omega arith;
}

abbrev collected : Stats
collected = record {
  entries = (login, record new_entry { num_requests = 3; total_response_time = 40 }) ∷ [];
  errors = (refused, early) ∷ [];
  start_time = 60_000_000_000;
}

flush_totals_example :
    let ((entries, total, errors), s') = flush collected t₂ in
    (entries ≡ collected.entries)
    × (errors ≡ collected.errors)
    × (add64 total.num_requests 0 ≡ sum_of (λ e. e.num_requests) collected.entries)
    × (add64 total.num_failures 0 ≡ sum_of (λ e. e.num_failures) collected.entries)
    × (add64 total.num_none_requests 0 ≡ sum_of (λ e. e.num_none_requests) collected.entries)
    × (add64 total.total_response_time 0 ≡ sum_of (λ e. e.total_response_time) collected.entries)
    × (add64 total.total_content_length 0 ≡ sum_of (λ e. e.total_content_length) collected.entries)
    × (total.start_time ≡ collected.start_time)
    × (s' ≡ record { entries = []; errors = []; start_time = t₂.unix_nano })
flush_totals_example = flush_totals collected t₂

-- 123.456 ms is counted as 120 ms, and 1.25 s as 1.3 s.
round_response_time-runs :
    (round_response_time 123_456_000 ≡ 120) × (round_response_time 1_250_000_000 ≡ 1300)
unfolding round_response_time
round_response_time-runs = (refl, refl)

-- Two keys with one code, whatever the hash.
encode_shared :
    (sum : String → String)
    → encode sum (record { method = "GET"; name = "/a.b"; error = "c" })
      ≡ encode sum (record { method = "GET"; name = "/a"; error = "b.c" })
unfolding encode
encode_shared sum = refl
