-- ===== src/Stats.antt =====
-- stats/stats.go, and from stats/entry.go the maps of entries.
pub mod Round
pub mod Counters
pub mod Bounds
pub mod Same
pub mod Algebra
pub mod Merging
pub mod Failures
pub mod Reports
pub mod Totals
pub mod Sums
pub mod Collector
mod Tests
use launce.Base.{
  ℕ, ◌≡◌, ◌↔◌, Bool, true, ◌&&◌, Option, none, some, List, [], ◌∷◌, String, arith, str_eq, eq_iff,
}
use launce.Base.Maps.{Key, GoMap, lookup, store}
use Counters.{Entry, Time, new_entry}
use Counters
use Failures
use Failures.{Errors, ErrorKey}

pub record EntryKey : Type 0 where
  pub method : String
  pub name : String

abbrev pub same_entry : EntryKey → EntryKey → Bool
same_entry a b = str_eq a.method b.method && str_eq a.name b.name

pub same_entry_iff : (a b : EntryKey) → (same_entry a b ≡ true) ↔ (a ≡ b)
same_entry_iff a b = ground (arith, eq_iff a.method b.method, eq_iff a.name b.name)

instance abbrev pub EntryKey-key : Key EntryKey
EntryKey-key = record { same = same_entry; same_iff = same_entry_iff }

abbrev pub Entries : Type 0
Entries = GoMap EntryKey Entry

-- The entry of a key, a new one if there is none: `if _, ok := m[k]; !ok { m[k] = newEntry() }`.
unfoldable pub entry_at : EntryKey → Entries → Entry
entry_at k e = elim (lookup k e) [ none ↦ new_entry | some v ↦ v ]

-- `Entries.Merge`.
unfoldable pub merge_entries : Entries → Entries → Entries
merge_entries e [] = e
merge_entries e ((k, v) ∷ src) = merge_entries (store k (Counters.merge (entry_at k e) v) e) src

-- The loop of `Entries.Aggregate`, and the method.
unfoldable pub aggregate_into : Entry → Entries → Entry
aggregate_into total [] = total
aggregate_into total ((k, n) ∷ e) = aggregate_into (Counters.merge total n) e

unfoldable pub aggregate : Entries → Entry
unfolding aggregate_into
aggregate e = aggregate_into new_entry e

pub record Stats : Type 0 where
  pub entries : Entries
  pub errors : Errors
  pub start_time : ℕ

-- `Clear` at the time `now`, and so `New`.
unfoldable pub clear : Time → Stats
clear now = record { entries = []; errors = []; start_time = now.unix_nano }

abbrev pub new : Time → Stats
new now = clear now

-- `Flush`: its three results, and the statistics afterwards.
unfoldable pub flush : Stats → Time → (Entries × Entry × Errors) × Stats
unfolding clear aggregate
flush s now =
    let total = aggregate s.entries in
    ((s.entries, record total { start_time = s.start_time }, s.errors), clear now)

-- `if err != nil { s.Errors.Add(…) }`.
abbrev pub add_error : Errors → Time → String → String → Option String → Errors
add_error e now method name none = e
add_error e now method name (some err) = Failures.add e now method name err

-- The method `Add`; `err` is the text of an error.
unfoldable pub add : Stats → Time → String → String → ℕ → ℕ → Option String → Stats
add s now request_type name response_time content_length err =
    let key : EntryKey = record { method = request_type; name = name } in
    record s {
      entries =
          store key (Counters.add (entry_at key s.entries) now response_time content_length err)
            s.entries;
      errors = add_error s.errors now request_type name err;
    }

-- The method `Merge`.
unfoldable pub merge : Stats → Stats → Stats
unfolding merge_entries
merge s src = record s {
  entries = merge_entries s.entries src.entries;
  errors = Failures.merge s.errors src.errors;
}
