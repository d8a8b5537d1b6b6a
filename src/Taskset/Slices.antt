-- ===== src/Taskset/Slices.antt =====
-- taskset/tag.go: the slices of tags. Tagged tasks whose tags were made by `append` from one slice may share its
-- array. An array is a list as long as its capacity; the store is the list of all arrays.
pub mod Sharing
mod Tests
use launce.Base.{
  ℕ, ◌+◌, ◌-◌, ◌≤◌, ◌<◌, List, [], ◌∷◌, ◌++◌, String, length, get_or, set, take, drop, replicate,
  leb, if◌then◌else◌,
}

abbrev pub Store : Type 0
Store = List (List String)

-- A slice from the beginning of an array on: the array, and the length.
pub data Slice : Type 0 where
  nil : Slice
  slice : ℕ → ℕ → Slice

abbrev pub array : Store → ℕ → List String
array st a = get_or st a []

unfoldable pub read : Store → Slice → List String
read st nil = []
read st (slice a n) = take n (array st a)

abbrev pub overwrite : ℕ → List String → List String → List String
overwrite i xs ys = take i ys ++ xs ++ drop (i + length xs) ys

-- A new array, with some capacity to spare.
abbrev pub allocate : ℕ → Store → List String → Slice × Store
allocate spare st xs = (slice (length st) (length xs), st ++ (xs ++ replicate spare "") ∷ [])

-- `append`; `spare` is the capacity that the runtime leaves in a new array.
unfoldable pub append : ℕ → Store → Slice → List String → Slice × Store
append spare st nil [] = (nil, st)
append spare st nil (x ∷ xs) = allocate spare st (x ∷ xs)
append spare st (slice a n) xs =
    if leb (n + length xs) (length (array st a))
    then (slice a (n + length xs), set st a (overwrite n xs (array st a)))
    else allocate spare st (take n (array st a) ++ xs)

-- A task with its tags, if it is a `taggedTask`, where only the tags count.
pub data Tagged : Type 0 where
  untagged : Tagged
  with_tags : Slice → Tagged → Tagged
  wrapped : Tagged → Tagged

-- `GetTags`.
unfoldable pub get_tags : Tagged → Slice
get_tags untagged = nil
get_tags (with_tags s t) = s
get_tags (wrapped t) = get_tags t

-- `Tag`.
unfoldable pub tag : ℕ → Store → Tagged → List String → Tagged × Store
unfolding get_tags append
tag spare st t tags = let (s, st') = append spare st (get_tags t) tags in (with_tags s t, st')
