-- ===== src/Stats/Totals.antt =====
-- stats/stats.go and stats/entry.go: what `Flush` and `Aggregate` hand over.
use launce.Base.{ℕ, ◌≡◌, refl, ap, ◌∙◌, [], ◌∷◌, arith}
use launce.Base.Int64.{add64}
use launce.Stats.Counters.{Time, Entry, new_entry}
use launce.Stats.Counters
use launce.Stats.{Entries, aggregate, aggregate_into, Stats, clear, flush}

-- The sum over all entries of one of their numbers, as a 64-bit integer.
abbrev pub sum_of : (Entry → ℕ) → Entries → ℕ
sum_of f [] = 0
sum_of f ((k, n) ∷ e) = add64 (f n) (sum_of f e)

-- A number that `Merge` adds up.
abbrev IsSum : (Entry → ℕ) → Type 0
IsSum f = (a b : Entry) → f (Counters.merge a b) ≡ add64 (f a) (f b)

aggregate_into-sum :
    (f : Entry → ℕ)
    → IsSum f
    → (total : Entry) (e : Entries)
    → add64 (f (aggregate_into total e)) 0 ≡ add64 (f total) (sum_of f e)
unfolding aggregate_into
aggregate_into-sum f h total [] = refl
aggregate_into-sum f h total ((k, n) ∷ e) =
    omega (arith, aggregate_into-sum f h (Counters.merge total n) e, h total n)

sum_of-lt : (f : Entry → ℕ) (e : Entries) → add64 0 (sum_of f e) ≡ sum_of f e
sum_of-lt f [] = refl
sum_of-lt f ((k, n) ∷ e) = omega arith

aggregate-sum :
    (f : Entry → ℕ)
    → IsSum f
    → f new_entry ≡ 0
    → (e : Entries) → add64 (f (aggregate e)) 0 ≡ sum_of f e
unfolding aggregate
aggregate-sum f h z e =
    aggregate_into-sum f h new_entry e ∙ ap (λ n. add64 n (sum_of f e)) z ∙ sum_of-lt f e

-- `Flush` hands over the entries and the errors as they were, with a total whose counts are the sums
-- over the entries and whose start is that of the statistics, and begins anew at the present time.
pub flush_totals :
    (s : Stats) (now : Time)
    → let ((entries, total, errors), s') = flush s now in
      (entries ≡ s.entries)
      × (errors ≡ s.errors)
      × (add64 total.num_requests 0 ≡ sum_of (λ e. e.num_requests) s.entries)
      × (add64 total.num_failures 0 ≡ sum_of (λ e. e.num_failures) s.entries)
      × (add64 total.num_none_requests 0 ≡ sum_of (λ e. e.num_none_requests) s.entries)
      × (add64 total.total_response_time 0 ≡ sum_of (λ e. e.total_response_time) s.entries)
      × (add64 total.total_content_length 0 ≡ sum_of (λ e. e.total_content_length) s.entries)
      × (total.start_time ≡ s.start_time)
      × (s' ≡ record { entries = []; errors = []; start_time = now.unix_nano })
unfolding flush clear
flush_totals s now = (
  refl,
  refl,
  aggregate-sum (λ e. e.num_requests) (λ a b. unfold Counters.merge in refl)
      (unfold new_entry in refl) s.entries,
  aggregate-sum (λ e. e.num_failures) (λ a b. unfold Counters.merge in refl)
      (unfold new_entry in refl) s.entries,
  aggregate-sum (λ e. e.num_none_requests) (λ a b. unfold Counters.merge in refl)
      (unfold new_entry in refl) s.entries,
  aggregate-sum (λ e. e.total_response_time) (λ a b. unfold Counters.merge in refl)
      (unfold new_entry in refl) s.entries,
  aggregate-sum (λ e. e.total_content_length) (λ a b. unfold Counters.merge in refl)
      (unfold new_entry in refl) s.entries,
  refl,
  refl,
)
