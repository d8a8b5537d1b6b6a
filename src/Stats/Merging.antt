-- ===== src/Stats/Merging.antt =====
-- stats/entry.go: adding requests to two entries and merging these is adding all requests to one.
use launce.Base.{◌<◌, ◌≡◌, refl, ◌⊎◌, inl, inr, List, [], ◌∷◌, ◌++◌, arith, All}
use launce.Base.Maps.{ℕ-key}
use launce.Stats.Counters.{Entry, new_entry, add, merge}
use launce.Stats.Same.{
  Request, add_request, add_requests, IsRequest, IsValid, SameEntry, new_entry-IsValid, add-IsValid,
  SameEntry-trans, SameEntry-sym, SameEntry-refl,
}
use launce.Stats.Algebra.{merge-IsValid, merge-new, merge_assoc, merge_congr}

SameEntry-add :
    (a b : Entry) (r : Request)
    → IsValid a
    → IsValid b
    → IsRequest r
    → SameEntry a b
    → SameEntry (add_request a r) (add_request b r)
SameEntry-add a b r va vb h s =
    let one = add_request new_entry r in
    let valid = add-IsValid new_entry r new_entry-IsValid h in
    SameEntry-trans _ _ _ (SameEntry-sym _ _ (merge-new a r va h)) (
      SameEntry-trans _ _ _ (merge_congr a b one one valid valid s (SameEntry-refl one))
        (merge-new b r vb h))

pub SameEntry-add_requests :
    (a b : Entry) (rs : List Request)
    → IsValid a
    → IsValid b
    → All IsRequest rs
    → SameEntry a b
    → SameEntry (add_requests a rs) (add_requests b rs)
unfolding add_requests
SameEntry-add_requests a b [] va vb h s = s
SameEntry-add_requests a b (r ∷ rs) va vb h s =
    SameEntry-add_requests (add_request a r) (add_request b r) rs (add-IsValid a r va h.0)
      (add-IsValid b r vb h.0) h.1 (SameEntry-add a b r va vb h.0 s)

-- A request may be added to the second entry before merging or to the merged one.
merge-add :
    (e f : Entry) (r : Request)
    → IsValid e
    → IsValid f
    → 0 < f.start_time
    → IsRequest r
    → SameEntry (merge e (add_request f r)) (add_request (merge e f) r)
merge-add e f r v w p h =
    let one = add_request new_entry r in
    let valid = add-IsValid new_entry r new_entry-IsValid h in
    SameEntry-trans _ _ _
      (merge_congr e e (add_request f r) (merge f one) (add-IsValid f r w h)
        (merge-IsValid f one w valid) (SameEntry-refl e) (SameEntry-sym _ _ (merge-new f r w h)))
      (SameEntry-trans _ _ _ (SameEntry-sym _ _ (merge_assoc e f one v w valid p))
        (merge-new (merge e f) r (merge-IsValid e f v w) h))

start-add :
    (f : Entry) (r : Request)
    → IsRequest r
    → (f.start_time ≡ 0) ⊎ (0 < f.start_time)
    → 0 < (add_request f r).start_time
unfolding add
start-add f r h p = ground arith

merge-add_requests :
    (e f : Entry) (rs : List Request)
    → IsValid e
    → IsValid f
    → 0 < f.start_time
    → All IsRequest rs
    → SameEntry (merge e (add_requests f rs)) (add_requests (merge e f) rs)
unfolding add_requests
merge-add_requests e f [] v w p h = SameEntry-refl (merge e f)
merge-add_requests e f (r ∷ rs) v w p h =
    let w' = add-IsValid f r w h.0 in
    SameEntry-trans _ _ _
      (merge-add_requests e (add_request f r) rs v w' (start-add f r h.0 (inr p)) h.1)
      (SameEntry-add_requests (merge e (add_request f r)) (add_request (merge e f) r) rs
        (merge-IsValid e (add_request f r) v w')
        (add-IsValid (merge e f) r (merge-IsValid e f v w) h.0) h.1 (merge-add e f r v w p h.0))

pub add_requests-IsValid :
    (e : Entry) (rs : List Request) → IsValid e → All IsRequest rs → IsValid (add_requests e rs)
unfolding add_requests
add_requests-IsValid e [] v h = v
add_requests-IsValid e (r ∷ rs) v h =
    add_requests-IsValid (add_request e r) rs (add-IsValid e r v h.0) h.1

pub add_requests-append :
    (e : Entry) (xs ys : List Request)
    → add_requests e (xs ++ ys) ≡ add_requests (add_requests e xs) ys
unfolding add_requests
add_requests-append e [] ys = refl
add_requests-append e (x ∷ xs) ys = add_requests-append (add_request e x) xs ys

-- However requests, made after 1970, with times that are 64-bit integers, are divided between two
-- entries, if the second gets one at all: merging the second entry into the first gives the numbers
-- of one entry that gets all the requests, and maps that read the same.
pub merge-split :
    (xs : List Request) (y : Request) (ys : List Request)
    → All IsRequest xs
    → All IsRequest (y ∷ ys)
    → SameEntry
        (merge (add_requests new_entry xs) (add_requests new_entry (y ∷ ys)))
        (add_requests new_entry (xs ++ y ∷ ys))
unfolding add_requests
merge-split xs y ys hx hy =
    let e = add_requests new_entry xs in
    let v = add_requests-IsValid new_entry xs new_entry-IsValid hx in
    let one = add_request new_entry y in
    let w = add-IsValid new_entry y new_entry-IsValid hy.0 in
    rw (add_requests-append new_entry xs (y ∷ ys)) (
      SameEntry-trans _ _ _
        (merge-add_requests e one ys v w
          (start-add new_entry y hy.0 (inl (unfold new_entry in refl))) hy.1)
        (SameEntry-add_requests (merge e one) (add_request e y) ys (merge-IsValid e one v w)
          (add-IsValid e y v hy.0) hy.1 (merge-new e y v hy.0)))
