-- ===== src/LogCapture/Ring.antt =====
-- log.go: `append` and `Lines` against the list of the newest lines.
use native.Mathlib.Nat.{mod-eq_of_lt, mod-eq-sub-mod, mod-add-mod, mod-lt}
use launce.Base.{
  ℕ, zero, suc, ◌+◌, ◌-◌, ◌%◌, ◌≤◌, ◌<◌, ◌≡◌, ◌≢◌, refl, sym, ap, ap₂, ◌∙◌, List, [], ◌∷◌, ◌++◌,
  arith, length, get_or, set, drop, dec_lt, length-append, length-set, length-replicate,
  length-drop, get_or-set_self, get_or-set_ne,
}
use launce.Base.Int64.{IsNonneg}
use launce.LogCapture.{LogCapture, Line, append, new, snapshot, lines}

-- The newest `n` of the lines.
abbrev pub newest : ℕ → List Line → List Line
newest n xs = drop (length xs - n) xs

pub record IsValid (c : LogCapture) : Type 0 where
  pub in_ring : c.count ≤ length c.lines
  pub start_below : 0 < length c.lines → c.start < length c.lines

length-snapshot : (ls : List Line) (m s i n : ℕ) → length (snapshot ls m s i n) ≡ n
length-snapshot ls m s i zero = refl
length-snapshot ls m s i (suc n) = ap suc (length-snapshot ls m s (i + 1) n)

snapshot-snoc :
    (ls : List Line) (m s i n : ℕ)
    → snapshot ls m s i (suc n) ≡ snapshot ls m s i n ++ get_or ls ((s + (i + n)) % m) [] ∷ []
snapshot-snoc ls m s i zero = ap (λ k. get_or ls ((s + k) % m) [] ∷ []) (omega arith)
snapshot-snoc ls m s i (suc n) = ap (◌∷◌ (get_or ls ((s + i) % m) [])) (
    snapshot-snoc ls m s (i + 1) n
    ∙ ap (λ k. snapshot ls m s (i + 1) n ++ get_or ls ((s + k) % m) [] ∷ []) (omega arith))

-- Up to one turn round the ring no two steps from `s` meet but the first and the last.
turn-ne : (m s j k : ℕ) → s < m → j < k → k < j + m → k ≤ m → (s + j) % m ≢ (s + k) % m
turn-ne m s j k hs hj hk hm = elim (dec_lt (s + k) m) [
  | yes p ↦ omega (arith, mod-eq_of_lt {n = s + k} {m = m} p, mod-eq_of_lt {n = s + j} {m = m})
  | no p ↦ elim (dec_lt (s + j) m) [
    | yes q ↦ omega (
      arith,
      mod-eq_of_lt {n = s + j} {m = m} q,
      mod-eq-sub-mod {n = s + k} {m = m} (omega arith),
      mod-eq_of_lt {n = s + k - m} {m = m} (omega arith),
    )
    | no q ↦ omega (
      arith,
      mod-eq-sub-mod {n = s + k} {m = m} (omega arith),
      mod-eq_of_lt {n = s + k - m} {m = m} (omega arith),
      mod-eq-sub-mod {n = s + j} {m = m} (omega arith),
      mod-eq_of_lt {n = s + j - m} {m = m} (omega arith),
    )
  ]
]

-- A write outside the range that is read changes nothing.
snapshot-set :
    (ls : List Line) (m s i n k : ℕ) (v : Line)
    → s < m
    → i + n ≤ k
    → k < i + m
    → k ≤ m
    → snapshot (set ls ((s + k) % m) v) m s i n ≡ snapshot ls m s i n
snapshot-set ls m s i zero k v hs hi hk hm = refl
snapshot-set ls m s i (suc n) k v hs hi hk hm =
    ap₂ ◌∷◌ (get_or-set_ne ls _ _ v [] (λ e. turn-ne m s i k hs (omega arith) hk hm (sym e)))
      (snapshot-set ls m s (i + 1) n k v hs (omega arith) (omega arith) hm)

-- To start one further on is to read from the next index on.
snapshot_next :
    (ls : List Line) (m s i n : ℕ) → snapshot ls m ((s + 1) % m) i n ≡ snapshot ls m s (i + 1) n
snapshot_next ls m s i zero = refl
snapshot_next ls m s i (suc n) =
    ap₂ ◌∷◌ (ap (λ k. get_or ls k []) (mod-add-mod (s + 1) m i ∙ ap (λ k. k % m) (omega arith)))
      (snapshot_next ls m s (i + 1) n)

-- What a write at the `n`-th place makes of the first `n + 1` lines.
snapshot_written :
    (ls : List Line) (m s n : ℕ) (v : Line)
    → m ≡ length ls
    → s < m
    → n < m
    → snapshot (set ls ((s + n) % m) v) m s 0 (suc n) ≡ snapshot ls m s 0 n ++ v ∷ []
snapshot_written ls m s n v e hs hn =
    snapshot-snoc (set ls ((s + n) % m) v) m s 0 n
    ∙ ap₂ (λ xs x. xs ++ x ∷ [])
        (snapshot-set ls m s 0 n n v hs (omega arith) (omega arith) (omega arith))
        (ap (λ k. get_or (set ls ((s + n) % m) v) ((s + k) % m) []) (omega arith)
          ∙ get_or-set_self ls ((s + n) % m) v [] (omega (arith, mod-lt (s + n) {m = m})))

-- In a full ring the oldest line gives way.
snapshot_turned :
    (ls : List Line) (k s : ℕ) (v : Line)
    → length ls ≡ suc k
    → s < suc k
    → snapshot (set ls ((s + suc k) % suc k) v) (suc k) ((s + 1) % suc k) 0 (suc k)
      ≡ drop 1 (snapshot ls (suc k) s 0 (suc k)) ++ v ∷ []
snapshot_turned ls k s v e hs =
    snapshot_next (set ls ((s + suc k) % suc k) v) (suc k) s 0 (suc k)
    ∙ snapshot-snoc (set ls ((s + suc k) % suc k) v) (suc k) s (0 + 1) k
    ∙ ap₂ (λ xs x. xs ++ x ∷ [])
        (snapshot-set ls (suc k) s (0 + 1) k (suc k) v hs (omega arith) (omega arith) (omega arith))
        (ap (λ j. get_or (set ls ((s + suc k) % suc k) v) ((s + j) % suc k) []) (omega arith)
          ∙ get_or-set_self ls ((s + suc k) % suc k) v []
              (omega (arith, mod-lt (s + suc k) {m = suc k})))

-- `append` on a ring with room, and on a full one.
lines-append_room :
    (c : LogCapture) (l : Line)
    → IsValid c
    → c.count < length c.lines
    → lines (append c l) ≡ lines c ++ l ∷ []
unfolding append
lines-append_room c l v h = ground (
  arith,
  length-set c.lines ((c.start + c.count) % length c.lines) l,
  snapshot_written c.lines (length c.lines) c.start c.count l refl (v.start_below (omega arith)) h,
)

lines-append_full :
    (c : LogCapture) (l : Line) (k : ℕ)
    → IsValid c
    → c.count ≡ suc k
    → length c.lines ≡ suc k
    → lines (append c l) ≡ drop 1 (lines c) ++ l ∷ []
unfolding append
lines-append_full c l k v hc hl = ground (
  arith,
  length-set c.lines ((c.start + c.count) % length c.lines) l,
  snapshot_turned c.lines k c.start l hl (omega (arith, v.start_below)),
)

-- `append` keeps the counters inside the ring, and does not resize it.
pub append-IsValid :
    (c : LogCapture) (l : Line)
    → IsValid c
    → IsValid (append c l) × (length (append c l).lines ≡ length c.lines)
unfolding append
append-IsValid c l v = ground (
  arith,
  length-set c.lines ((c.start + c.count) % length c.lines) l,
  mod-lt (c.start + 1) {m = length c.lines},
)

pub length-lines : (c : LogCapture) → length (lines c) ≡ c.count
length-lines c = length-snapshot c.lines (length c.lines) c.start 0 c.count

drop_all {ℓ} : {A : Type ℓ} (n : ℕ) (xs : List A) → length xs ≤ n → drop n xs ≡ []
drop_all zero [] h = refl
drop_all (suc n) [] h = refl
drop_all zero (x ∷ xs) h = absurd (omega arith)
drop_all (suc n) (x ∷ xs) h = drop_all n xs (omega arith)

drop-append {ℓ} :
    {A : Type ℓ} (n : ℕ) (xs ys : List A) → n ≤ length xs → drop n (xs ++ ys) ≡ drop n xs ++ ys
drop-append zero xs ys h = refl
drop-append (suc n) [] ys h = absurd (omega arith)
drop-append (suc n) (x ∷ xs) ys h = drop-append n xs ys (omega arith)

drop-drop {ℓ} : {A : Type ℓ} (m n : ℕ) (xs : List A) → drop m (drop n xs) ≡ drop (n + m) xs
drop-drop m zero xs = ap (λ k. drop k xs) (omega arith)
drop-drop m (suc n) [] = drop_all m [] (omega arith) ∙ sym (drop_all (suc n + m) [] (omega arith))
drop-drop m (suc n) (x ∷ xs) =
    drop-drop m n xs ∙ ap (λ k. drop k (x ∷ xs)) {x = suc (n + m)} (omega arith)

append_none :
    (c : LogCapture) (l : Line) → length c.lines ≡ 0 → c.count ≡ 0 → lines (append c l) ≡ []
unfolding append
append_none c l h k = ground arith

-- In a valid ring, after `append` the method `Lines` returns the newest lines that fit: those of
-- before and the new one, less the oldest if the ring was full.
pub lines-append :
    (c : LogCapture) (l : Line)
    → IsValid c
    → lines (append c l) ≡ newest (length c.lines) (lines c ++ l ∷ [])
lines-append c l v = go (length c.lines) refl (dec_lt c.count (length c.lines))
  where
    size : length (lines c ++ l ∷ []) ≡ c.count + 1
    size = omega (arith, length-append (lines c) (l ∷ []), length-lines c)

    go :
        (m : ℕ)
        → length c.lines ≡ m
        → Dec (c.count < length c.lines)
        → lines (append c l) ≡ newest (length c.lines) (lines c ++ l ∷ [])
    go m e (yes h) =
        lines-append_room c l v h
        ∙ ap (λ k. drop k (lines c ++ l ∷ [])) {x = 0} (omega (arith, size))
    go zero e (no h) =
        append_none c l e (omega arith) ∙ sym (drop_all _ (lines c ++ l ∷ []) (omega (arith, size)))
    go (suc k) e (no h) =
        lines-append_full c l k v (omega arith) e
        ∙ sym (drop-append 1 (lines c) (l ∷ []) (omega (arith, length-lines c)))
        ∙ ap (λ j. drop j (lines c ++ l ∷ [])) {x = 1} (omega (arith, size))

-- What was dropped early would have been dropped later.
pub newest-append : (n : ℕ) (xs ys : List Line) → newest n (newest n xs ++ ys) ≡ newest n (xs ++ ys)
newest-append n xs ys =
    ap (newest n) (sym (drop-append (length xs - n) xs ys (omega arith)))
    ∙ drop-drop _ (length xs - n) (xs ++ ys)
    ∙ ap (λ k. drop k (xs ++ ys))
        (omega (arith, length-append xs ys, length-drop (length xs - n) (xs ++ ys)))

pub newest_small : (n : ℕ) (xs : List Line) → length xs ≤ n → newest n xs ≡ xs
newest_small n xs h = ap (λ k. drop k xs) {y = 0} (omega arith)

pub new-IsValid : (n : ℕ) → IsValid (new n)
unfolding new
new-IsValid n = ground arith

pub length-new : (n : ℕ) → IsNonneg n → length (new n).lines ≡ n
unfolding new
length-new n h = ground (arith, length-replicate {A = Line} n [])
