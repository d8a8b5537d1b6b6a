-- ===== src/Worker/Payload.antt =====
-- worker.go and worker_payload.go: what the worker sends of its statistics. A float64 is a value of an
-- abstract type, and `ratio` is the quotient of an int64 and a constant in it; the code of an error key,
-- a hash, is an argument.
use launce.Base.{
  ℕ, ◌≡◌, refl, ap, ◌∙◌, true, Option, none, some, List, [], ◌∷◌, String, arith, if◌then◌else◌,
  eq_iff, Bool-cases, subst, str_eq, map, inl, inr,
}
use launce.Base.Int64.{lt64}
use launce.Base.Maps.{String-key, GoMap, lookup, store, lookup-store, IsDistinct}
use launce.Stats.Counters.{Entry}
use launce.Stats.Failures.{
  ErrorKey, ErrorKey-key, ErrorOccurrence, Errors, same_error, same_error_iff,
}
use launce.Stats.{EntryKey, Entries}

-- `statsPayloadEntry`.
pub record StatsPayloadEntry {ℓ} (F : Type ℓ) : Type ℓ where
  pub name : String
  pub method : String
  pub last_request_timestamp : F
  pub start_time : F
  pub num_requests : ℕ
  pub num_none_requests : ℕ
  pub num_failures : ℕ
  pub total_response_time : F
  pub max_response_time : F
  pub min_response_time : Option F
  pub total_content_length : ℕ
  pub response_times : GoMap ℕ ℕ
  pub num_reqs_per_sec : GoMap ℕ ℕ
  pub num_fail_per_sec : GoMap ℕ ℕ

-- `statsPayloadError`.
pub record StatsPayloadError {ℓ} (F : Type ℓ) : Type ℓ where
  pub name : String
  pub method : String
  pub error : String
  pub occurrences : ℕ
  pub first_seen : F
  pub last_seen : F

-- `statsPayload` without the numbers of users, which its sender fills in.
pub record StatsPayload {ℓ} (F : Type ℓ) : Type ℓ where
  pub stats : List (StatsPayloadEntry F)
  pub stats_total : StatsPayloadEntry F
  pub errors : GoMap String (StatsPayloadError F)

module _ {ℓ} {F : Type ℓ} (ratio : ℕ → ℕ → F) where
  -- `convertStatisticsEntry`: times in seconds, and response times in milliseconds.
  unfoldable pub convert_entry : String → String → Entry → StatsPayloadEntry F
  convert_entry name method e = record {
    name = name;
    method = method;
    last_request_timestamp = ratio e.last_request_timestamp 1_000_000_000;
    start_time = ratio e.start_time 1_000_000_000;
    num_requests = e.num_requests;
    num_none_requests = e.num_none_requests;
    num_failures = e.num_failures;
    total_response_time = ratio e.total_response_time 1_000_000;
    max_response_time = ratio e.max_response_time 1_000_000;
    min_response_time =
        if lt64 e.min_response_time 0 then none else some (ratio e.min_response_time 1_000_000);
    total_content_length = e.total_content_length;
    response_times = e.response_times;
    num_reqs_per_sec = e.num_requests_per_sec;
    num_fail_per_sec = e.num_failures_per_sec;
  }

  -- `convertStatisticsError`.
  unfoldable pub convert_error : ErrorKey → ErrorOccurrence → StatsPayloadError F
  convert_error key o = record {
    name = key.name;
    method = key.method;
    error = key.error;
    occurrences = o.count;
    first_seen = ratio o.first_seen 1_000_000_000;
    last_seen = ratio o.last_seen 1_000_000_000;
  }

  -- The loops of `convertStatisticsPayload`.
  unfoldable pub convert_entries : Entries → List (StatsPayloadEntry F)
  convert_entries [] = []
  convert_entries ((key, e) ∷ m) = convert_entry key.name key.method e ∷ convert_entries m

  -- The fields of an entry that are sent as they are: its class, the numbers, and the maps.
  abbrev pub Plain : Type 0
  Plain = (String × String) × (ℕ × ℕ × ℕ × ℕ) × (GoMap ℕ ℕ × GoMap ℕ ℕ × GoMap ℕ ℕ)

  abbrev pub sent_plain : StatsPayloadEntry F → Plain
  sent_plain p = (
    (p.method, p.name),
    (p.num_requests, p.num_none_requests, p.num_failures, p.total_content_length),
    (p.response_times, p.num_reqs_per_sec, p.num_fail_per_sec),
  )

  abbrev pub plain : EntryKey × Entry → Plain
  plain p = (
    (p.0.method, p.0.name),
    (p.1.num_requests, p.1.num_none_requests, p.1.num_failures, p.1.total_content_length),
    (p.1.response_times, p.1.num_requests_per_sec, p.1.num_failures_per_sec),
  )

  -- The times, in seconds, and the response times, in milliseconds.
  abbrev pub sent_times : StatsPayloadEntry F → (F × F) × (F × F) × Option F
  sent_times p = (
    (p.start_time, p.last_request_timestamp),
    (p.total_response_time, p.max_response_time),
    p.min_response_time,
  )

  abbrev pub times : EntryKey × Entry → (F × F) × (F × F) × Option F
  times p = (
    (ratio p.1.start_time 1_000_000_000, ratio p.1.last_request_timestamp 1_000_000_000),
    (ratio p.1.total_response_time 1_000_000, ratio p.1.max_response_time 1_000_000),
    if lt64 p.1.min_response_time 0 then none else some (ratio p.1.min_response_time 1_000_000),
  )

  -- The total as an entry.
  abbrev pub aggregated : Entry → EntryKey × Entry
  aggregated total = (record { method = ""; name = "Aggregated" }, total)

  -- The fields of an error, its times in seconds.
  abbrev pub sent_error : StatsPayloadError F → (String × String × String) × ℕ × F × F
  sent_error p = ((p.method, p.name, p.error), p.occurrences, p.first_seen, p.last_seen)

  abbrev pub seen_error : ErrorKey → ErrorOccurrence → (String × String × String) × ℕ × F × F
  seen_error k o = (
    (k.method, k.name, k.error),
    o.count,
    ratio o.first_seen 1_000_000_000,
    ratio o.last_seen 1_000_000_000,
  )

  sent-aggregated :
      (total : Entry)
      → (sent_plain (convert_entry "Aggregated" "" total) ≡ plain (aggregated total))
        × (sent_times (convert_entry "Aggregated" "" total) ≡ times (aggregated total))
  unfolding convert_entry
  sent-aggregated total = (refl, refl)

  sent_plain-convert_entries :
      (entries : Entries) → map sent_plain (convert_entries entries) ≡ map plain entries
  unfolding convert_entries convert_entry
  sent_plain-convert_entries [] = refl
  sent_plain-convert_entries (p ∷ m) = ap (λ l. plain p ∷ l) (sent_plain-convert_entries m)

  sent_times-convert_entries :
      (entries : Entries) → map sent_times (convert_entries entries) ≡ map times entries
  unfolding convert_entries convert_entry
  sent_times-convert_entries [] = refl
  sent_times-convert_entries (p ∷ m) = ap (λ l. times p ∷ l) (sent_times-convert_entries m)

  module _ (encode : ErrorKey → String) where
    unfoldable pub convert_errors :
        GoMap String (StatsPayloadError F) → Errors → GoMap String (StatsPayloadError F)
    convert_errors sent [] = sent
    convert_errors sent ((key, o) ∷ m) =
        convert_errors (store (encode key) (convert_error key o) sent) m

    -- `convertStatisticsPayload`.
    unfoldable pub convert_payload : Entries → Entry → Errors → StatsPayload F
    unfolding convert_entry convert_entries convert_errors
    convert_payload entries total errors = record {
      stats = convert_entries entries;
      stats_total = convert_entry "Aggregated" "" total;
      errors = convert_errors [] errors;
    }

    -- No other key of the map has the code of a key.
    abbrev pub IsApart : ErrorKey → Errors → Type 0
    IsApart k [] = Unit
    IsApart k ((j, o) ∷ m) = (encode j ≡ encode k → j ≡ k) × IsApart k m

    lookup-convert_errors :
        (sent : GoMap String (StatsPayloadError F)) (errors : Errors) (k : ErrorKey)
        → IsDistinct errors
        → IsApart k errors
        → lookup (encode k) (convert_errors sent errors) ≡ elim (lookup k errors) [
          | none ↦ lookup (encode k) sent
          | some o ↦ some (convert_error k o)
        ]
    unfolding convert_errors lookup
    lookup-convert_errors sent [] k d h = refl
    lookup-convert_errors sent ((j, o) ∷ m) k d h =
        lookup-convert_errors (store (encode j) (convert_error j o) sent) m k d.1 h.1
        ∙ elim (Bool-cases (same_error j k)) [
          | inl e ↦
              let q = (same_error_iff j k).0 e in
              let gone : lookup k m ≡ none = subst (λ i. lookup i m ≡ none) q d.0 in
              let hit : str_eq (encode j) (encode k) ≡ true =
                (eq_iff (encode j) (encode k)).1 (ap encode q) in
              rw (gone, e)
                (lookup-store (encode j) (encode k) (convert_error j o) sent
                  ∙ rw hit (ap (λ i. some (convert_error i o)) q))
          | inr e ↦ ground (
            arith,
            e,
            h.0,
            same_error_iff j k,
            eq_iff (encode j) (encode k),
            lookup-store (encode j) (encode k) (convert_error j o) sent,
          )
        ]

    error_of :
        (sent : Option (StatsPayloadError F)) (seen : Option ErrorOccurrence) (k : ErrorKey)
        → sent ≡ elim seen [ none ↦ none | some o ↦ some (convert_error k o) ]
        → elim sent [ none ↦ none | some p ↦ some (sent_error p) ]
          ≡ elim seen [ none ↦ none | some o ↦ some (seen_error k o) ]
    unfolding convert_error
    error_of sent none k h = ap (λ s. elim s [ none ↦ none | some p ↦ some (sent_error p) ]) h
    error_of sent (some o) k h = ap (λ s. elim s [ none ↦ none | some p ↦ some (sent_error p) ]) h

    -- For a map of errors in which no key stands twice: the payload has, in order, one entry for each
    -- entry of the statistics, with its method and name, its numbers and maps as they are, its times
    -- in seconds and its response times in milliseconds; the least one is left out if it is negative,
    -- as it is before the first response. The total is sent likewise, as `Aggregated` without a method.
    -- Under the code of an error key that no other key of the map shares, it has that error if it was
    -- seen, with the key's method, name and text, its occurrences and its times in seconds, and else nothing.
    pub convert_payload_lem :
        (entries : Entries) (total : Entry) (errors : Errors) (k : ErrorKey)
        → IsDistinct errors
        → IsApart k errors
        → let p = convert_payload entries total errors in
          (map sent_plain p.stats ≡ map plain entries)
          × (map sent_times p.stats ≡ map times entries)
          × (sent_plain p.stats_total ≡ plain (aggregated total))
          × (sent_times p.stats_total ≡ times (aggregated total))
          × (elim (lookup (encode k) p.errors) [ none ↦ none | some e ↦ some (sent_error e) ]
              ≡ elim (lookup k errors) [ none ↦ none | some o ↦ some (seen_error k o) ])
    unfolding convert_payload lookup
    convert_payload_lem entries total errors k d h = (
      sent_plain-convert_entries entries,
      sent_times-convert_entries entries,
      (sent-aggregated total).0,
      (sent-aggregated total).1,
      error_of (lookup (encode k) (convert_errors [] errors)) (lookup k errors) k
          (lookup-convert_errors [] errors k d h),
    )
