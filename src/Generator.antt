-- ===== src/Generator.antt =====
-- generator.go and the reference count of stats/aggregator.go: which aggregator collects the reports of
-- which users. The users' goroutines are steps; each section under `aggMutex` is one step, and so is
-- each `Release`. An aggregator is its number, in the order of their creation.
pub mod Counting
pub mod SpawnFunc
pub mod LoadTest
mod Tests
use launce.Base.{
  ℕ, zero, suc, ◌+◌, ◌-◌, ◌%◌, ◌≡◌, Bool, true, false, ◌||◌, Option, none, some, List, [], ◌∷◌,
  ◌++◌, length, get_elem?, set, ◌==◌, if◌then◌else◌,
}
use launce.Base.Int64.{add64, sub64}

-- `stats.Aggregator`: its count, and whether its channel is closed.
pub record Aggregator : Type 0 where
  pub count : ℕ
  pub closed : Bool

-- `NewCollector`.
abbrev pub new_collector : Aggregator
new_collector = record { count = 0; closed = false }

-- `Retain`.
unfoldable pub retain : Aggregator → Aggregator
retain a = record a { count = add64 a.count 1 }

-- `Release`; closing a channel twice would panic, which `Counting` excludes.
unfoldable pub release : Aggregator → Aggregator
release a =
    let n = sub64 a.count 1 in record { count = n; closed = if n == 0 then true else a.closed }

-- The fields of `LoadGenerator` under `aggMutex`, all aggregators made so far, and, beside them, the
-- aggregators that the goroutines of the running users hold.
pub record Aggregation : Type 0 where
  pub users_per_aggregator : ℕ
  pub user_counter : ℕ
  pub current : Option ℕ
  pub made : List Aggregator
  pub held : List ℕ

abbrev pub new : ℕ → Aggregation
new n = record { users_per_aggregator = n; user_counter = 0; current = none; made = []; held = [] }

-- An update of one aggregator.
unfoldable pub at : ℕ → (Aggregator → Aggregator) → List Aggregator → List Aggregator
at i f [] = []
at zero f (a ∷ xs) = f a ∷ xs
at (suc i) f (a ∷ xs) = a ∷ at i f xs

-- `if l.currentStatsAggregator != nil { l.currentStatsAggregator.Release() }`.
unfoldable pub release_current : Option ℕ → List Aggregator → List Aggregator
release_current none xs = xs
release_current (some i) xs = at i release xs

-- The first lines of the function in `RegisterUser`: a new aggregator if the current one is full.
unfoldable pub renew : Aggregation → Aggregation
unfolding release_current
renew g =
    if g.user_counter == 0
    then record g {
      current = some (length g.made);
      made = release_current g.current g.made ++ retain new_collector ∷ [];
    }
    else g

-- The rest of them: the user retains the current aggregator.
unfoldable pub join : Aggregation → Aggregation
join g = elim g.current [
  | none ↦ g
  | some i ↦ record g {
    user_counter = (g.user_counter + 1) % g.users_per_aggregator;
    made = at i retain g.made;
    held = i ∷ g.held;
  }
]

unfoldable pub start_user : Aggregation → Aggregation
unfolding renew join
start_user g = join (renew g)

-- The deferred `Release` of a user that holds the aggregator `i`.
unfoldable pub drop_one : ℕ → List ℕ → List ℕ
drop_one i [] = []
drop_one i (j ∷ js) = if j == i then js else j ∷ drop_one i js

unfoldable pub end_user : Aggregation → ℕ → Aggregation
end_user g i = record g { made = at i release g.made; held = drop_one i g.held }

-- The section under `aggMutex` in `Start` and in `Stop`.
unfoldable pub reset : Aggregation → Aggregation
unfolding release_current
reset g = record g { user_counter = 0; current = none; made = release_current g.current g.made }
