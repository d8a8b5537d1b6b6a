-- ===== src/Stats/Algebra.antt =====
-- stats/entry.go: `Add` as a merge, and the laws of `Merge`.
use launce.Base.{
  ℕ, ◌<◌, ◌≡◌, ap, ap₂, ◌∙◌, ◌&&◌, Bool, Option, none, some, String, true, false, not, arith,
  if◌then◌else◌, ◌==◌,
}
use launce.Base.Int64.{add64, lt64}
use launce.Base.Maps.{
  ℕ-key, GoMap, IsDistinct, lookup, count, add_at, add_all, count-add_at, count-add_all,
  add_all-IsDistinct, count-store-read,
}
use launce.Stats.Bounds.{earliest_assoc, latest_assoc, least_assoc, least-IsMin}
use launce.Stats.Round.{round_response_time}
use launce.Stats.Counters.{Entry, new_entry, earliest, latest, least, add, merge}
use launce.Stats.Same.{
  Request, add_request, IsRequest, IsValid, SameEntry, new_entry-IsValid, add-IsValid,
}

pub merge-IsValid : (e f : Entry) → IsValid e → IsValid f → IsValid (merge e f)
unfolding merge
merge-IsValid e f v w = record {
  start_in_range = ground arith;
  last_in_range = ground arith;
  min_in_range = least-IsMin _ _ v.min_in_range w.min_in_range;
  max_in_range = ground arith;
  seconds_distinct = add_all-IsDistinct _ f.num_requests_per_sec v.seconds_distinct;
  failures_distinct = add_all-IsDistinct _ f.num_failures_per_sec v.failures_distinct;
  times_distinct = add_all-IsDistinct _ f.response_times v.times_distinct;
}

abbrev failed : Option String → Bool
failed none = false
failed (some x) = true

-- What `Add` does to the three maps.
count-seconds-add :
    (e : Entry) (r : Request) (t : ℕ)
    → count t (add_request e r).num_requests_per_sec ≡ (
        if r.now.unix == t
        then add64 (count t e.num_requests_per_sec) 1
        else count t e.num_requests_per_sec)
count-seconds-add e r t = ap (count t) field ∙ count-add_at r.now.unix t 1 e.num_requests_per_sec
  where
    field : (add_request e r).num_requests_per_sec ≡ add_at r.now.unix 1 e.num_requests_per_sec
    field = unfold add in ground arith

count-failing-add :
    (e : Entry) (r : Request) (t : ℕ)
    → count t (add_request e r).num_failures_per_sec ≡ (
        if failed r.err && (r.now.unix == t)
        then add64 (count t e.num_failures_per_sec) 1
        else count t e.num_failures_per_sec)
unfolding add
count-failing-add e r t = ground (arith, count-store-read r.now.unix t 1 e.num_failures_per_sec)

count-times-add :
    (e : Entry) (r : Request) (t : ℕ)
    → count t (add_request e r).response_times ≡ (
        if not (lt64 r.response_time 0) && (round_response_time r.response_time == t)
        then add64 (count t e.response_times) 1
        else count t e.response_times)
unfolding add
count-times-add e r t =
    ground (arith, count-add_at (round_response_time r.response_time) t 1 e.response_times)

-- Adding a request is merging the entry of this request alone.
module _ (e : Entry) (r : Request) (v : IsValid e) (h : IsRequest r) where
  alone : IsValid (add_request new_entry r)
  alone = add-IsValid new_entry r new_entry-IsValid h

  merge-new_seconds :
      (t : ℕ)
      → count t (merge e (add_request new_entry r)).num_requests_per_sec
        ≡ count t (add_request e r).num_requests_per_sec
  unfolding merge new_entry lookup
  merge-new_seconds t =
      count-add_all t e.num_requests_per_sec _ alone.seconds_distinct
      ∙ ground (arith, count-seconds-add e r t, count-seconds-add new_entry r t)

  merge-new_failing :
      (t : ℕ)
      → count t (merge e (add_request new_entry r)).num_failures_per_sec
        ≡ count t (add_request e r).num_failures_per_sec
  unfolding merge new_entry lookup
  merge-new_failing t =
      count-add_all t e.num_failures_per_sec _ alone.failures_distinct
      ∙ ground (arith, count-failing-add e r t, count-failing-add new_entry r t)

  merge-new_times :
      (t : ℕ)
      → count t (merge e (add_request new_entry r)).response_times
        ≡ count t (add_request e r).response_times
  unfolding merge new_entry lookup
  merge-new_times t =
      count-add_all t e.response_times _ alone.times_distinct
      ∙ ground (arith, count-times-add e r t, count-times-add new_entry r t)

  pub merge-new : SameEntry (merge e (add_request new_entry r)) (add_request e r)
  unfolding add new_entry merge
  merge-new = record {
    same_start = ground arith;
    same_last = ground arith;
    same_requests = ground arith;
    same_none = ground arith;
    same_failures = ground arith;
    same_total = ground arith;
    same_min = ground arith;
    same_max = ground arith;
    same_length = ground arith;
    same_seconds = merge-new_seconds;
    same_failing = merge-new_failing;
    same_times = merge-new_times;
  }

-- Merging maps is adding counts, and so associative.
count-add_all_assoc :
    (t : ℕ) (a b c : GoMap ℕ ℕ)
    → IsDistinct b
    → IsDistinct c
    → count t (add_all (add_all a b) c) ≡ count t (add_all a (add_all b c))
count-add_all_assoc t a b c hb hc = omega (
  arith,
  count-add_all t (add_all a b) c hc,
  count-add_all t a b hb,
  count-add_all t a (add_all b c) (add_all-IsDistinct b c hb),
  count-add_all t b c hc,
)

count-add_all_congr :
    (t : ℕ) (a b c d : GoMap ℕ ℕ)
    → IsDistinct c
    → IsDistinct d
    → count t a ≡ count t b
    → count t c ≡ count t d
    → count t (add_all a c) ≡ count t (add_all b d)
count-add_all_congr t a b c d hc hd e f =
    omega (arith, count-add_all t a c hc, count-add_all t b d hd)

-- Merging valid entries is associative, if the middle entry is not empty: the numbers are the same,
-- and the maps read the same.
pub merge_assoc :
    (a b c : Entry)
    → IsValid a
    → IsValid b
    → IsValid c
    → 0 < b.start_time
    → SameEntry (merge (merge a b) c) (merge a (merge b c))
unfolding merge
merge_assoc a b c va vb vc h = record {
  same_start = earliest_assoc _ _ _ va.start_in_range vb.start_in_range vc.start_in_range h;
  same_last = latest_assoc _ _ _ va.last_in_range vb.last_in_range vc.last_in_range;
  same_requests = omega arith;
  same_none = omega arith;
  same_failures = omega arith;
  same_total = omega arith;
  same_min = least_assoc _ _ _ va.min_in_range vb.min_in_range vc.min_in_range;
  same_max = latest_assoc _ _ _ va.max_in_range vb.max_in_range vc.max_in_range;
  same_length = omega arith;
  same_seconds = λ t. count-add_all_assoc t _ _ _ vb.seconds_distinct vc.seconds_distinct;
  same_failing = λ t. count-add_all_assoc t _ _ _ vb.failures_distinct vc.failures_distinct;
  same_times = λ t. count-add_all_assoc t _ _ _ vb.times_distinct vc.times_distinct;
}

-- Merging does not tell equal entries apart.
pub merge_congr :
    (a b c d : Entry)
    → IsValid c
    → IsValid d
    → SameEntry a b
    → SameEntry c d
    → SameEntry (merge a c) (merge b d)
unfolding merge
merge_congr a b c d vc vd s t = record {
  same_start = ap₂ earliest s.same_start t.same_start;
  same_last = ap₂ latest s.same_last t.same_last;
  same_requests = omega arith;
  same_none = omega arith;
  same_failures = omega arith;
  same_total = omega arith;
  same_min = ap₂ least s.same_min t.same_min;
  same_max = ap₂ latest s.same_max t.same_max;
  same_length = omega arith;
  same_seconds = λ j.
      count-add_all_congr j _ _ _ _ vc.seconds_distinct vd.seconds_distinct (s.same_seconds j)
        (t.same_seconds j);
  same_failing = λ j.
      count-add_all_congr j _ _ _ _ vc.failures_distinct vd.failures_distinct (s.same_failing j)
        (t.same_failing j);
  same_times = λ j.
      count-add_all_congr j _ _ _ _ vc.times_distinct vd.times_distinct (s.same_times j)
        (t.same_times j);
}
