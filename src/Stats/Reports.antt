-- ===== src/Stats/Reports.antt =====
-- stats/stats.go: statistics collected in parts and merged are those collected in one.
use launce.Base.{
  ◌≡◌, refl, sym, ap, ◌∙◌, inl, inr, Option, none, some, List, [], ◌∷◌, ◌++◌, arith, All,
  append-nil, subst, Bool-cases, Option-cases, if◌then◌else◌,
}
use launce.Base.Maps.{IsDistinct, lookup, store, lookup-store, store-IsDistinct}
use launce.Stats.Counters.{Time, Entry, new_entry}
use launce.Stats.Counters
use launce.Stats.Same.{Request, add_request, add_requests, IsRequest, SameEntry, SameEntry-refl}
use launce.Stats.Merging.{merge-split}
use launce.Stats.{
  EntryKey, EntryKey-key, same_entry, same_entry_iff, Entries, entry_at, merge_entries, Stats, new,
  clear, add, merge,
}

-- What `Add` is told of a request, with its key.
pub record Report : Type 0 where
  pub key : EntryKey
  pub request : Request

unfoldable pub report : Stats → Report → Stats
report s r =
    add s r.request.now r.key.method r.key.name r.request.response_time r.request.content_length
      r.request.err

unfoldable pub report_all : Stats → List Report → Stats
unfolding report
report_all s [] = s
report_all s (r ∷ rs) = report_all (report s r) rs

-- The requests of one key, in order.
unfoldable pub requests_of : EntryKey → List Report → List Request
requests_of k [] = []
requests_of k (r ∷ rs) =
    if same_entry r.key k then r.request ∷ requests_of k rs else requests_of k rs

pub lookup-report :
    (s : Stats) (r : Report) (k : EntryKey)
    → lookup k (report s r).entries ≡ (
        if same_entry r.key k
        then some (add_request (entry_at r.key s.entries) r.request)
        else lookup k s.entries)
unfolding report add
lookup-report s r k =
    lookup-store r.key k (add_request (entry_at r.key s.entries) r.request) s.entries

-- The entry that a list of requests makes of what there was.
abbrev after : Option Entry → List Request → Option Entry
after o [] = o
after none (r ∷ rs) = some (add_requests new_entry (r ∷ rs))
after (some e) (r ∷ rs) = some (add_requests e (r ∷ rs))

after-some : (e : Entry) (rs : List Request) → after (some e) rs ≡ some (add_requests e rs)
unfolding add_requests
after-some e [] = refl
after-some e (r ∷ rs) = refl

after-cons :
    (k : EntryKey) (e : Entries) (r : Request) (rs : List Request)
    → after (lookup k e) (r ∷ rs) ≡ some (add_requests (add_request (entry_at k e) r) rs)
unfolding add_requests entry_at
after-cons k e r rs = elim (Option-cases (lookup k e)) [
  | inl h ↦ rw (h, entry_at)
  | inr (x, h) ↦ rw (h, entry_at)
]

lookup-report_all :
    (s : Stats) (rs : List Report) (k : EntryKey)
    → lookup k (report_all s rs).entries ≡ after (lookup k s.entries) (requests_of k rs)
unfolding report_all requests_of
lookup-report_all s [] k = refl
lookup-report_all s (r ∷ rs) k =
    lookup-report_all (report s r) rs k
    ∙ rw (lookup-report s r k) (elim (Bool-cases (same_entry r.key k)) [
      | inl e ↦ rw e (
          after-some (add_request (entry_at r.key s.entries) r.request) (requests_of k rs)
          ∙ ap
              (λ j.
                some
                  (add_requests (add_request (entry_at j s.entries) r.request) (requests_of k rs)))
              ((same_entry_iff r.key k).0 e)
          ∙ sym (after-cons k s.entries r.request (requests_of k rs)))
      | inr e ↦ rw e
    ])

lookup-merge_entries :
    (k : EntryKey) (e src : Entries)
    → IsDistinct src
    → lookup k (merge_entries e src)
      ≡ elim (lookup k src) [ none ↦ lookup k e | some v ↦ some (Counters.merge (entry_at k e) v) ]
unfolding merge_entries lookup entry_at
lookup-merge_entries k e [] d = refl
lookup-merge_entries k e ((j, v) ∷ src) d = ground (
  arith,
  same_entry_iff j k,
  lookup-store j k (Counters.merge (entry_at j e) v) e,
  lookup-merge_entries k (store j (Counters.merge (entry_at j e) v) e) src d.1,
)

pub report-IsDistinct :
    (s : Stats) (r : Report) → IsDistinct s.entries → IsDistinct (report s r).entries
unfolding report add
report-IsDistinct s r d = store-IsDistinct r.key _ s.entries d

report_all-IsDistinct :
    (s : Stats) (rs : List Report) → IsDistinct s.entries → IsDistinct (report_all s rs).entries
unfolding report_all
report_all-IsDistinct s [] d = d
report_all-IsDistinct s (r ∷ rs) d = report_all-IsDistinct (report s r) rs (report-IsDistinct s r d)

requests_of-append :
    (k : EntryKey) (xs ys : List Report)
    → requests_of k (xs ++ ys) ≡ requests_of k xs ++ requests_of k ys
unfolding requests_of
requests_of-append k [] ys = refl
requests_of-append k (x ∷ xs) ys = ground (arith, requests_of-append k xs ys)

abbrev pub AreRequests : List Report → Type 0
AreRequests = All (λ r. IsRequest r.request)

requests_of-AreRequests :
    (k : EntryKey) (rs : List Report) → AreRequests rs → All IsRequest (requests_of k rs)
unfolding requests_of
requests_of-AreRequests k [] h = tt
requests_of-AreRequests k (r ∷ rs) h = elim (Bool-cases (same_entry r.key k)) [
  | inl e ↦ rw e (h.0, requests_of-AreRequests k rs h.1)
  | inr e ↦ rw e (requests_of-AreRequests k rs h.1)
]

abbrev pub or_new : Option Entry → Entry
or_new o = elim o [ none ↦ new_entry | some v ↦ v ]

or_new-after : (rs : List Request) → or_new (after none rs) ≡ add_requests new_entry rs
unfolding add_requests
or_new-after [] = refl
or_new-after (r ∷ rs) = refl

lookup-new : (now : Time) (k : EntryKey) → lookup k (new now).entries ≡ none
unfolding clear lookup
lookup-new now k = refl

-- A new statistics that gets the reports has, at each key, the entry of the requests of that key.
pub entry_at-report_all :
    (now : Time) (rs : List Report) (k : EntryKey)
    → entry_at k (report_all (new now) rs).entries ≡ add_requests new_entry (requests_of k rs)
unfolding entry_at
entry_at-report_all now rs k =
    ap or_new
      (lookup-report_all (new now) rs k ∙ ap (λ o. after o (requests_of k rs)) (lookup-new now k))
    ∙ or_new-after (requests_of k rs)

pub new-IsDistinct : (now : Time) → IsDistinct (new now).entries
unfolding clear
new-IsDistinct now = tt

merge_entries-IsDistinct : (e src : Entries) → IsDistinct e → IsDistinct (merge_entries e src)
unfolding merge_entries
merge_entries-IsDistinct e [] d = d
merge_entries-IsDistinct e ((k, v) ∷ src) d =
    merge_entries-IsDistinct (store k (Counters.merge (entry_at k e) v) e) src
      (store-IsDistinct k (Counters.merge (entry_at k e) v) e d)

pub merge-IsDistinct : (s src : Stats) → IsDistinct s.entries → IsDistinct (merge s src).entries
unfolding merge
merge-IsDistinct s src d = merge_entries-IsDistinct s.entries src.entries d

-- What merging makes of the entry of a key, by whether the other side has one.
pub entry_at-merge-none :
    (s src : Stats) (k : EntryKey)
    → IsDistinct src.entries
    → lookup k src.entries ≡ none
    → entry_at k (merge s src).entries ≡ entry_at k s.entries
unfolding entry_at merge
entry_at-merge-none s src k d h =
    ap or_new {y = lookup k s.entries} (lookup-merge_entries k s.entries src.entries d ∙ rw h)

pub entry_at-merge-some :
    (s src : Stats) (k : EntryKey) (v : Entry)
    → IsDistinct src.entries
    → lookup k src.entries ≡ some v
    → entry_at k (merge s src).entries ≡ Counters.merge (entry_at k s.entries) v
unfolding entry_at merge
entry_at-merge-some s src k v d h =
    ap or_new {y = some (Counters.merge (entry_at k s.entries) v)}
      (lookup-merge_entries k s.entries src.entries d ∙ rw h)

-- However the reports of requests, made after 1970, with times that are 64-bit integers, are
-- divided between two collectors: merging the statistics of the second into those of the first
-- gives, at each key, an entry with the same numbers, and maps that read the same, as the one that
-- one collector makes of all the reports.
pub entry_at-merge :
    (t u : Time) (xs ys : List Report) (k : EntryKey)
    → AreRequests xs
    → AreRequests ys
    → SameEntry
        (entry_at k (merge (report_all (new t) xs) (report_all (new u) ys)).entries)
        (entry_at k (report_all (new t) (xs ++ ys)).entries)
entry_at-merge t u xs ys k hx hy = go (requests_of k ys) refl
  where
    d : IsDistinct (report_all (new u) ys).entries
    d = report_all-IsDistinct (new u) ys (new-IsDistinct u)

    found : lookup k (report_all (new u) ys).entries ≡ after none (requests_of k ys)
    found = lookup-report_all (new u) ys k ∙ ap (λ o. after o (requests_of k ys)) (lookup-new u k)

    go :
        (qs : List Request)
        → requests_of k ys ≡ qs
        → SameEntry
            (entry_at k (merge (report_all (new t) xs) (report_all (new u) ys)).entries)
            (entry_at k (report_all (new t) (xs ++ ys)).entries)
    go [] e =
        rw
          (
            entry_at-merge-none (report_all (new t) xs) (report_all (new u) ys) k d
                (found ∙ ap (after none) e),
            entry_at-report_all t xs k,
            entry_at-report_all t (xs ++ ys) k,
            requests_of-append k xs ys,
            e,
            append-nil,
          )
          (SameEntry-refl _)
    go (q ∷ qs) e =
        rw
          (
            entry_at-merge-some (report_all (new t) xs) (report_all (new u) ys) k _ d
                (found ∙ ap (after none) e),
            entry_at-report_all t xs k,
            entry_at-report_all t (xs ++ ys) k,
            requests_of-append k xs ys,
            e,
          )
          (merge-split (requests_of k xs) q qs (requests_of-AreRequests k xs hx)
            (subst (All IsRequest) e (requests_of-AreRequests k ys hy)))
