-- ===== src/LogCapture/Lines.antt =====
-- log.go: `Write` against the bytes cut into lines.
use launce.Base.{
  ℕ, zero, suc, ◌+◌, ◌%◌, ◌^◌, ◌<◌, ◌≡◌, refl, sym, ap, ap₂, ◌∙◌, inl, inr, List, [], ◌∷◌, ◌++◌,
  map, map-append, append-nil, append_assoc, some, none, arith, length, take, drop, ◌==◌,
  if◌then◌else◌, length-append, length-drop, Option-cases,
}
use launce.Base.Int64.{add64, IsNonneg}
use launce.LogCapture.{
  LogCapture, Line, append, new, lines, total, write, take_lines, index_byte, trim_right, newline,
  carriage_return,
}
use launce.LogCapture.Ring.{
  IsValid, newest, newest-append, newest_small, length-new, append-IsValid, lines-append,
  length-lines, new-IsValid,
}

abbrev extend : ℕ → List Line × Line → List Line × Line
extend b ([], r) = ([], b ∷ r)
extend b (l ∷ ls, r) = ((b ∷ l) ∷ ls, r)

-- The lines that end in the bytes, and what comes after the last line feed.
unfoldable pub cut : List ℕ → List Line × Line
cut [] = ([], [])
cut (b ∷ bs) = let (ls, r) = cut bs in if b == newline then ([] ∷ ls, r) else extend b (ls, r)

-- A line as it is recorded.
abbrev pub trim : Line → Line
trim l = trim_right l carriage_return

unfoldable pub append_all : LogCapture → List Line → LogCapture
append_all c [] = c
append_all c (l ∷ ls) = append_all (append c l) ls

cut-none : (xs : List ℕ) → index_byte xs newline ≡ none → cut xs ≡ ([], xs)
unfolding cut index_byte
cut-none [] h = refl
cut-none (x ∷ xs) h = ground (arith, cut-none xs)

cut-some :
    (xs : List ℕ) (i : ℕ)
    → index_byte xs newline ≡ some i
    → (cut xs ≡ (take i xs ∷ (cut (drop (suc i) xs)).0, (cut (drop (suc i) xs)).1))
      × (i < length xs)
unfolding cut index_byte
cut-some [] i h = cc
cut-some (x ∷ xs) zero h = ground arith
cut-some (x ∷ xs) (suc i) h = ground (arith, cut-some xs i)

-- Nothing is left to cut in what comes after the last line feed.
cut-rest : (xs : List ℕ) → cut (cut xs).1 ≡ ([], (cut xs).1)
unfolding cut
cut-rest [] = refl
cut-rest (x ∷ xs) = ground (arith, cut-rest xs)

-- Cutting in two goes: what is left of the first part begins the second.
cut-append :
    (xs ys : List ℕ)
    → cut (xs ++ ys) ≡ ((cut xs).0 ++ (cut ((cut xs).1 ++ ys)).0, (cut ((cut xs).1 ++ ys)).1)
unfolding cut
cut-append [] ys = refl
cut-append (x ∷ xs) ys = ground (arith, cut-append xs ys)

abbrev pub with_buf : LogCapture → List ℕ → LogCapture
with_buf c b = record c { buf = b }

append-buf :
    (c : LogCapture) (b : List ℕ) (l : Line) → append (with_buf c b) l ≡ with_buf (append c l) b
unfolding append
append-buf c b l = ground arith

append_all-buf :
    (c : LogCapture) (b : List ℕ) (ls : List Line)
    → append_all (with_buf c b) ls ≡ with_buf (append_all c ls) b
unfolding append_all
append_all-buf c b [] = refl
append_all-buf c b (l ∷ ls) =
    ap (λ d. append_all d ls) (append-buf c b l) ∙ append_all-buf (append c l) b ls

append_all-append :
    (c : LogCapture) (ls ks : List Line) → append_all c (ls ++ ks) ≡ append_all (append_all c ls) ks
unfolding append_all
append_all-append c [] ks = refl
append_all-append c (l ∷ ls) ks = append_all-append (append c l) ls ks

-- The capture with the lines of `xs` recorded and the rest of it in the buffer.
abbrev pub recorded : LogCapture → List ℕ → LogCapture
recorded c xs = with_buf (append_all c (map trim (cut xs).0)) (cut xs).1

recorded-buf : (c : LogCapture) (b xs : List ℕ) → recorded (with_buf c b) xs ≡ recorded c xs
recorded-buf c b xs = ap (λ d. with_buf d (cut xs).1) (append_all-buf c b (map trim (cut xs).0))

-- With more fuel than bytes the loop records each line of the buffer, and keeps the rest.
take_lines_lem :
    (fuel : ℕ) (c : LogCapture) → length c.buf < fuel → take_lines fuel c ≡ recorded c c.buf
unfolding take_lines append_all
take_lines_lem zero c h = absurd (omega arith)
take_lines_lem (suc fuel) c h = elim (Option-cases (index_byte c.buf newline)) [
  | inl e ↦ rw (e, take_lines) (rw (cut-none c.buf e) refl)
  | inr (i, e) ↦
      rw (e, take_lines)
        (take_lines_lem fuel (with_buf (append c (trim (take i c.buf))) (drop (suc i) c.buf))
            (omega (arith, (cut-some c.buf i e).1, length-drop (suc i) c.buf))
          ∙ recorded-buf (append c (trim (take i c.buf))) (drop (suc i) c.buf) (drop (suc i) c.buf)
          ∙ ap (λ (r : List Line × Line). with_buf (append_all c (map trim r.0)) r.1)
              (sym (cut-some c.buf i e).0))
]

-- `Write` records the complete lines of the buffer and the input, and keeps the rest.
pub write_lem : (c : LogCapture) (p : List ℕ) → write c p ≡ recorded c (c.buf ++ p)
unfolding write
write_lem c p =
    take_lines_lem (suc (length (c.buf ++ p))) (with_buf c (c.buf ++ p)) (omega arith)
    ∙ recorded-buf c (c.buf ++ p) (c.buf ++ p)

recorded-append :
    (c : LogCapture) (xs ys : List ℕ)
    → recorded (recorded c xs) ((cut xs).1 ++ ys) ≡ recorded c (xs ++ ys)
recorded-append c xs ys =
    recorded-buf (append_all c (map trim (cut xs).0)) (cut xs).1 ((cut xs).1 ++ ys)
    ∙ ap (λ d. with_buf d (cut ((cut xs).1 ++ ys)).1)
        (sym (append_all-append c (map trim (cut xs).0) (map trim (cut ((cut xs).1 ++ ys)).0))
          ∙ ap (append_all c) (sym (map-append trim (cut xs).0 (cut ((cut xs).1 ++ ys)).0)))
    ∙ ap (λ (r : List Line × Line). with_buf (append_all c (map trim r.0)) r.1)
        (sym (cut-append xs ys))

-- How the input is divided among calls of `Write` makes no difference.
pub write-write : (c : LogCapture) (p q : List ℕ) → write (write c p) q ≡ write c (p ++ q)
write-write c p q =
    write_lem (write c p) q
    ∙ ap (λ (d : LogCapture). recorded d (d.buf ++ q)) (write_lem c p)
    ∙ recorded-append c (c.buf ++ p) q
    ∙ ap (recorded c) (append_assoc c.buf p q)
    ∙ sym (write_lem c (p ++ q))

append_all_lem :
    (c : LogCapture) (ls : List Line)
    → IsValid c
    → IsValid (append_all c ls)
      × (length (append_all c ls).lines ≡ length c.lines)
      × (lines (append_all c ls) ≡ newest (length c.lines) (lines c ++ ls))
unfolding append_all
append_all_lem c [] v = (
  v,
  refl,
  sym (
      newest_small (length c.lines) (lines c ++ [])
        (omega (arith, length-append (lines c) [], length-lines c, v.in_ring))
      ∙ append-nil (lines c)),
)
append_all_lem c (l ∷ ls) v =
    let (v', e) = append-IsValid c l v in
    let (valid, size, shown) = append_all_lem (append c l) ls v' in
    (
      valid,
      size ∙ e,
      shown
          ∙ ap₂ (λ n xs. newest n (xs ++ ls)) e (lines-append c l v)
          ∙ newest-append (length c.lines) (lines c ++ l ∷ []) ls
          ∙ ap (newest (length c.lines)) (append_assoc (lines c) (l ∷ []) ls),
    )

pub total-append : (c : LogCapture) (l : Line) → (append c l).total ≡ add64 c.total 1
unfolding append
total-append c l = ground arith

total-append_all :
    (c : LogCapture) (ls : List Line)
    → (append_all c ls).total % 2 ^ 64 ≡ (c.total + length ls) % 2 ^ 64
unfolding append_all
total-append_all c [] = omega arith
total-append_all c (l ∷ ls) = omega (arith, total-append_all (append c l) ls, total-append c l)

unfoldable pub write_all : LogCapture → List (List ℕ) → LogCapture
write_all c [] = c
write_all c (p ∷ ps) = write_all (write c p) ps

abbrev pub join : List (List ℕ) → List ℕ
join [] = []
join (p ∷ ps) = p ++ join ps

write_all_lem :
    (c : LogCapture) (p : List ℕ) (ps : List (List ℕ))
    → write_all (write c p) ps ≡ write c (p ++ join ps)
unfolding write_all
write_all_lem c p [] = ap (write c) (sym (append-nil p))
write_all_lem c p (q ∷ ps) =
    ap (λ d. write_all d ps) (write-write c p q)
    ∙ write_all_lem c (p ++ q) ps
    ∙ ap (write c) (append_assoc p q (join ps))

write_all-new : (n : ℕ) (ps : List (List ℕ)) → write_all (new n) ps ≡ recorded (new n) (join ps)
unfolding write_all new cut append_all
write_all-new n [] = refl
write_all-new n (p ∷ ps) = write_all_lem (new n) p ps ∙ write_lem (new n) (p ++ join ps)

-- After any sequence of writes to a new capture of `n` lines, with `n` not negative as an int64,
-- however they divide the bytes: `Lines` returns the newest `n` of the complete lines of all the
-- bytes, without their carriage returns at the end, and `Total` the number of all of them as a
-- 64-bit integer.
pub lines-write_all :
    (n : ℕ) (ps : List (List ℕ))
    → IsNonneg n
    → let written = map trim (cut (join ps)).0 in
      (lines (write_all (new n) ps) ≡ newest n written)
      × (total (write_all (new n) ps) % 2 ^ 64 ≡ length written % 2 ^ 64)
unfolding new
lines-write_all n ps h =
    let written = map trim (cut (join ps)).0 in
    let (valid, size, shown) = append_all_lem (new n) written (new-IsValid n) in
    rw (write_all-new n ps) (
      shown ∙ ap (λ k. newest k written) (length-new n h),
      omega (arith, total-append_all (new n) written),
    )
