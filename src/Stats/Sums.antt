-- ===== src/Stats/Sums.antt =====
-- stats/: numbers that add up, per key, whatever way reports are collected and merged.
use launce.Base.{
  ℕ, ◌+◌, ◌%◌, ◌^◌, ◌≡◌, refl, ap, ◌∙◌, inl, inr, none, some, List, [], ◌∷◌, ◌++◌, arith,
  Bool-cases, Option-cases, if◌then◌else◌,
}
use launce.Base.Int64.{lt64}
use launce.Base.Maps.{IsDistinct, lookup}
use launce.Stats.Counters.{Entry, new_entry}
use launce.Stats.Counters
use launce.Stats.Same.{Request, add_request}
use launce.Stats.Reports.{
  or_new, Report, report, lookup-report, entry_at-merge-none, entry_at-merge-some,
}
use launce.Stats.{
  EntryKey, EntryKey-key, same_entry, same_entry_iff, Entries, entry_at, Stats, merge,
}

-- A number of an entry, as 64 bits, that grows by the weight of each request and adds up in merges.
pub record Additive : Type 0 where
  pub measure : Entry → ℕ
  pub weight : Request → ℕ
  pub measure-new : measure new_entry ≡ 0
  pub measure-add :
      (e : Entry) (r : Request)
      → measure (add_request e r) % 2 ^ 64 ≡ (measure e + weight r) % 2 ^ 64
  pub measure-merge :
      (e f : Entry) → measure (Counters.merge e f) % 2 ^ 64 ≡ (measure e + measure f) % 2 ^ 64

abbrev pub no_failure : Request → ℕ
no_failure r = elim r.err [ none ↦ 0 | some e ↦ 1 ]

abbrev pub response : Request → ℕ
response r = if lt64 r.response_time 0 then 0 else r.response_time

pub add-sums :
    (e : Entry) (r : Request)
    → ((add_request e r).num_requests % 2 ^ 64 ≡ (e.num_requests + 1) % 2 ^ 64)
      × ((add_request e r).num_failures % 2 ^ 64 ≡ (e.num_failures + no_failure r) % 2 ^ 64)
      × ((add_request e r).total_content_length % 2 ^ 64
          ≡ (e.total_content_length + r.content_length) % 2 ^ 64)
      × ((add_request e r).total_response_time % 2 ^ 64
          ≡ (e.total_response_time + response r) % 2 ^ 64)
unfolding Counters.add
add-sums e r = ground arith

pub merge-sums :
    (e f : Entry)
    → let m = Counters.merge e f in
      (m.num_requests % 2 ^ 64 ≡ (e.num_requests + f.num_requests) % 2 ^ 64)
      × (m.num_failures % 2 ^ 64 ≡ (e.num_failures + f.num_failures) % 2 ^ 64)
      × (m.total_content_length % 2 ^ 64
          ≡ (e.total_content_length + f.total_content_length) % 2 ^ 64)
      × (m.total_response_time % 2 ^ 64 ≡ (e.total_response_time + f.total_response_time) % 2 ^ 64)
unfolding Counters.merge
merge-sums e f = omega arith

pub new-sums :
    (new_entry.num_requests ≡ 0)
    × (new_entry.num_failures ≡ 0)
    × (new_entry.total_content_length ≡ 0)
    × (new_entry.total_response_time ≡ 0)
unfolding new_entry
new-sums = (refl, refl, refl, refl)

-- The numbers of requests and of failures, and the sums of the contents' lengths and of the response
-- times.
abbrev pub requests : Additive
requests = record {
  measure = λ e. e.num_requests;
  weight = λ r. 1;
  measure-new = new-sums.0;
  measure-add = λ e r. (add-sums e r).0;
  measure-merge = λ e f. (merge-sums e f).0;
}

abbrev pub failures : Additive
failures = record {
  measure = λ e. e.num_failures;
  weight = no_failure;
  measure-new = new-sums.1;
  measure-add = λ e r. (add-sums e r).1;
  measure-merge = λ e f. (merge-sums e f).1;
}

abbrev pub content : Additive
content = record {
  measure = λ e. e.total_content_length;
  weight = λ r. r.content_length;
  measure-new = new-sums.2;
  measure-add = λ e r. (add-sums e r).2;
  measure-merge = λ e f. (merge-sums e f).2;
}

abbrev pub responses : Additive
responses = record {
  measure = λ e. e.total_response_time;
  weight = response;
  measure-new = new-sums.3;
  measure-add = λ e r. (add-sums e r).3;
  measure-merge = λ e f. (merge-sums e f).3;
}

entry_at-none : (k : EntryKey) (e : Entries) → lookup k e ≡ none → entry_at k e ≡ new_entry
unfolding entry_at
entry_at-none k e h = rw (h, entry_at) refl

entry_at-some : (k : EntryKey) (e : Entries) (v : Entry) → lookup k e ≡ some v → entry_at k e ≡ v
unfolding entry_at
entry_at-some k e v h = rw (h, entry_at) refl

-- What a report makes of the entry of a key.
entry_at-report :
    (s : Stats) (r : Report) (k : EntryKey)
    → entry_at k (report s r).entries ≡ (
        if same_entry r.key k
        then add_request (entry_at k s.entries) r.request
        else entry_at k s.entries)
unfolding entry_at
entry_at-report s r k = elim (Bool-cases (same_entry r.key k)) [
  | inl e ↦
      entry_at-some k (report s r).entries (add_request (entry_at r.key s.entries) r.request)
        (lookup-report s r k ∙ rw e refl)
      ∙ rw e (ap (λ j. add_request (entry_at j s.entries) r.request) ((same_entry_iff r.key k).0 e))
  | inr e ↦ rw e (ap or_new {y = lookup k s.entries} (lookup-report s r k ∙ rw e refl))
]

module _ (a : Additive) (k : EntryKey) where
  -- What entries say of the key.
  abbrev pub stored : Entries → ℕ
  stored e = a.measure (entry_at k e)

  -- What reports add to it.
  abbrev pub weigh : Report → ℕ
  weigh r = if same_entry r.key k then a.weight r.request else 0

  unfoldable pub weigh_all : List Report → ℕ
  weigh_all [] = 0
  weigh_all (r ∷ rs) = weigh r + weigh_all rs

  pub weigh_all-append : (rs qs : List Report) → weigh_all (rs ++ qs) ≡ weigh_all rs + weigh_all qs
  unfolding weigh_all
  weigh_all-append [] qs = omega arith
  weigh_all-append (r ∷ rs) qs = omega (arith, weigh_all-append rs qs)

  pub stored-report :
      (s : Stats) (r : Report)
      → stored (report s r).entries % 2 ^ 64 ≡ (stored s.entries + weigh r) % 2 ^ 64
  stored-report s r =
      ground (
        arith,
        ap a.measure (entry_at-report s r k),
        a.measure-add (entry_at k s.entries) r.request,
      )

  pub stored-merge :
      (s src : Stats)
      → IsDistinct src.entries
      → stored (merge s src).entries % 2 ^ 64 ≡ (stored s.entries + stored src.entries) % 2 ^ 64
  stored-merge s src d = elim (Option-cases (lookup k src.entries)) [
    | inl h ↦ omega (
      arith,
      ap a.measure (entry_at-merge-none s src k d h),
      ap a.measure (entry_at-none k src.entries h),
      a.measure-new,
    )
    | inr (v, h) ↦ omega (
      arith,
      ap a.measure (entry_at-merge-some s src k v d h),
      ap a.measure (entry_at-some k src.entries v h),
      a.measure-merge (entry_at k s.entries) v,
    )
  ]

  pub stored-none : (e : Entries) → lookup k e ≡ none → stored e ≡ 0
  stored-none e h = omega (arith, ap a.measure (entry_at-none k e h), a.measure-new)
