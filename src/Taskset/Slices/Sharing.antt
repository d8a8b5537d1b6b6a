-- ===== src/Taskset/Slices/Sharing.antt =====
-- taskset/tag.go: which tags a call of `Tag` leaves as they are.
use launce.Base.{
  ℕ, zero, suc, ◌+◌, ◌≤◌, ◌<◌, ◌≡◌, ◌≢◌, ◌⊎◌, inl, inr, refl, sym, ap, ◌∙◌, List, [], ◌∷◌, ◌++◌,
  String, length, length-append, get_or, get_or-set_self, get_or-set_ne, set, take, drop, replicate,
  leb, arith, Bool-cases, subst, ℕ_discrete,
}
use launce.Taskset.Slices.{
  Store, Slice, nil, slice, array, read, overwrite, allocate, append, Tagged, get_tags, tag,
}

module _ {ℓ} {A : Type ℓ} where
  take-append : (n : ℕ) (xs ys : List A) → n ≤ length xs → take n (xs ++ ys) ≡ take n xs
  take-append zero xs ys h = refl
  take-append (suc n) [] ys h = absurd (omega arith)
  take-append (suc n) (x ∷ xs) ys h = ap (◌∷◌ x) (take-append n xs ys (omega arith))

  take_all : (xs : List A) → take (length xs) xs ≡ xs
  take_all [] = refl
  take_all (x ∷ xs) = ap (◌∷◌ x) (take_all xs)

  take_exact : (xs ys : List A) → take (length xs) (xs ++ ys) ≡ xs
  take_exact xs ys = take-append (length xs) xs ys (omega arith) ∙ take_all xs

  take-take : (m n : ℕ) (xs : List A) → m ≤ n → take m (take n xs) ≡ take m xs
  take-take zero n xs h = refl
  take-take (suc m) zero xs h = absurd (omega arith)
  take-take (suc m) (suc n) [] h = refl
  take-take (suc m) (suc n) (x ∷ xs) h = ap (◌∷◌ x) (take-take m n xs (omega arith))

  length-take : (n : ℕ) (xs : List A) → n ≤ length xs → length (take n xs) ≡ n
  length-take zero xs h = refl
  length-take (suc n) [] h = absurd (omega arith)
  length-take (suc n) (x ∷ xs) h = ap suc (length-take n xs (omega arith))

  get_or-append :
      (xs ys : List A) (i : ℕ) (d : A) → i < length xs → get_or (xs ++ ys) i d ≡ get_or xs i d
  get_or-append [] ys i d h = absurd (omega arith)
  get_or-append (x ∷ xs) ys zero d h = refl
  get_or-append (x ∷ xs) ys (suc i) d h = get_or-append xs ys i d (omega arith)

  get_or-length : (xs : List A) (y d : A) → get_or (xs ++ y ∷ []) (length xs) d ≡ y
  get_or-length [] y d = refl
  get_or-length (x ∷ xs) y d = get_or-length xs y d

-- A slice of the store: its array is there, and is as long.
abbrev pub IsValid : Store → Slice → Type 0
IsValid st nil = Unit
IsValid st (slice a n) = (a < length st) × (n ≤ length (array st a))

-- The slice `r` does not reach into what `append` writes behind `s`: another array, or no longer than `s`.
abbrev pub IsApart : Slice → Slice → Type 0
IsApart nil r = Unit
IsApart (slice a n) nil = Unit
IsApart (slice a n) (slice b m) = (a ≢ b) ⊎ (m ≤ n)

read_new :
    (spare : ℕ) (st : Store) (xs : List String)
    → read (allocate spare st xs).1 (allocate spare st xs).0 ≡ xs
unfolding read
read_new spare st xs =
    ap (take (length xs)) (get_or-length st (xs ++ replicate spare "") [])
    ∙ take_exact xs (replicate spare "")

read_old :
    (spare : ℕ) (st : Store) (xs : List String) (r : Slice)
    → IsValid st r
    → read (allocate spare st xs).1 r ≡ read st r
unfolding read
read_old spare st xs nil h = refl
read_old spare st xs (slice b m) h = ap (take m) (get_or-append st _ b [] h.0)

take_written :
    (n : ℕ) (xs ys : List String)
    → n ≤ length ys
    → take (n + length xs) (overwrite n xs ys) ≡ take n ys ++ xs
take_written n xs ys h =
    ap (λ k. take k (overwrite n xs ys))
      (ap (λ k. k + length xs) (sym (length-take n ys h)) ∙ sym (length-append (take n ys) xs))
    ∙ take_exact (take n ys ++ xs) (drop (n + length xs) ys)

take_kept :
    (m n : ℕ) (xs ys : List String) → m ≤ n → n ≤ length ys → take m (overwrite n xs ys) ≡ take m ys
take_kept m n xs ys k h =
    let long = length-take n ys h in
    take-append m (take n ys ++ xs) (drop (n + length xs) ys)
      (omega (arith, k, long, length-append (take n ys) xs))
    ∙ take-append m (take n ys) xs (omega (arith, k, long))
    ∙ take-take m n ys k

read-set :
    (st : Store) (a b n m : ℕ) (xs : List String)
    → a < length st
    → n ≤ length (array st a)
    → (a ≢ b) ⊎ (m ≤ n)
    → take m (array (set st a (overwrite n xs (array st a))) b) ≡ take m (array st b)
read-set st a b n m xs v k (inl ne) = ap (take m) (get_or-set_ne st a b _ [] ne)
read-set st a b n m xs v k (inr le) = elim (ℕ_discrete a b) [
  | no ne ↦ ap (take m) (get_or-set_ne st a b _ [] ne)
  | yes e ↦
      subst (λ c. take m (array (set st a (overwrite n xs (array st a))) c) ≡ take m (array st c)) e
        (ap (take m) (get_or-set_self st a _ [] v) ∙ take_kept m n xs (array st a) le k)
]

read_kept :
    (st : Store) (a n : ℕ) (r : Slice) (xs : List String)
    → a < length st
    → n ≤ length (array st a)
    → IsApart (slice a n) r
    → read (set st a (overwrite n xs (array st a))) r ≡ read st r
unfolding read
read_kept st a n nil xs v k p = refl
read_kept st a n (slice b m) xs v k p = read-set st a b n m xs v k p

-- `append` gives the elements of its slice and the new ones, and leaves each slice as it was that does not
-- reach into what it writes.
append_lem :
    (spare : ℕ) (st : Store) (s r : Slice) (xs : List String)
    → IsValid st s
    → IsValid st r
    → IsApart s r
    → (read (append spare st s xs).1 (append spare st s xs).0 ≡ read st s ++ xs)
      × (read (append spare st s xs).1 r ≡ read st r)
unfolding append read
append_lem spare st nil r [] h k p = (refl, refl)
append_lem spare st nil r (x ∷ xs) h k p =
    (read_new spare st (x ∷ xs), read_old spare st (x ∷ xs) r k)
append_lem spare st (slice a n) r xs h k p =
    elim (Bool-cases (leb (n + length xs) (length (array st a)))) [
      | inl e ↦ rw e (
        ap (take (n + length xs)) (get_or-set_self st a _ [] h.0)
            ∙ take_written n xs (array st a) h.1,
        read_kept st a n r xs h.0 h.1 p,
      )
      | inr e ↦ rw e (
        read_new spare st (take n (array st a) ++ xs),
        read_old spare st (take n (array st a) ++ xs) r k,
      )
    ]

-- The tags of the new task are those that its task had, and the given ones, whatever arrays the tags share and
-- however `append` allots arrays. Any other tags are as they were, unless they stand in the same array as
-- those of the tagged task and are more than these, as the tags of another call of `Tag` on the same
-- task may be.
pub tag_lem :
    (spare : ℕ) (st : Store) (t : Tagged) (tags : List String) (r : Slice)
    → IsValid st (get_tags t)
    → IsValid st r
    → IsApart (get_tags t) r
    → let (t', st') = tag spare st t tags in
      (read st' (get_tags t') ≡ read st (get_tags t) ++ tags) × (read st' r ≡ read st r)
unfolding tag get_tags
tag_lem spare st t tags r h k p = append_lem spare st (get_tags t) r tags h k p
