-- ===== src/Taskset/Slices/Tests.antt =====
-- Calls of `Tag` that share an array.
use launce.Base.{◌≡◌, refl, arith, inr, [], ◌∷◌, ◌++◌}
use launce.Taskset.Slices.{
  Store, slice, read, append, Tagged, untagged, with_tags, wrapped, get_tags, tag,
}
use launce.Taskset.Slices.Sharing.{tag_lem}

-- A task that was tagged three times. Its array, the third one, has place for a fourth tag.
abbrev first : Tagged × Store
first = tag 0 [] untagged ("a" ∷ [])

abbrev second : Tagged × Store
second = tag 0 first.1 first.0 ("b" ∷ [])

abbrev third : Tagged × Store
third = tag 1 second.1 second.0 ("c" ∷ [])

-- It is tagged with x and, apart from that, with y.
abbrev with_x : Tagged × Store
with_x = tag 0 third.1 (wrapped third.0) ("x" ∷ [])

abbrev with_y : Tagged × Store
with_y = tag 0 with_x.1 third.0 ("y" ∷ [])

-- The second of these calls changes the tags that the first one gave.
overwritten :
    (read with_x.1 (get_tags with_x.0) ≡ "a" ∷ "b" ∷ "c" ∷ "x" ∷ [])
    × (read with_y.1 (get_tags with_x.0) ≡ "a" ∷ "b" ∷ "c" ∷ "y" ∷ [])
unfolding tag get_tags append read
overwritten = (refl, refl)

abbrev arrays : Store
arrays = ("a" ∷ "b" ∷ "c" ∷ "" ∷ []) ∷ []

tag_lem_example :
    let (t', st') = tag 0 arrays (with_tags (slice 0 3) untagged) ("x" ∷ []) in
    (read st' (get_tags t') ≡ read arrays (slice 0 3) ++ "x" ∷ [])
    × (read st' (slice 0 2) ≡ read arrays (slice 0 2))
unfolding get_tags
tag_lem_example =
    tag_lem 0 arrays (with_tags (slice 0 3) untagged) ("x" ∷ []) (slice 0 2)
      (omega arith, omega arith) (omega arith, omega arith) (inr (omega arith))
