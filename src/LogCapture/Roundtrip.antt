-- ===== src/LogCapture/Roundtrip.antt =====
-- log.go: lines that are written and read back.
use launce.Base.{ℕ, ◌≤◌, ◌≡◌, refl, ◌∙◌, ap, ap₂, List, [], ◌∷◌, ◌++◌, none, map, arith, length}
use launce.Base.Int64.{IsNonneg}
use launce.LogCapture.{Line, newline, new, index_byte, lines}
use launce.LogCapture.Ring.{newest, newest_small}
use launce.LogCapture.Lines.{cut, trim, write_all, join, lines-write_all}

-- A line that can be read back: without a line feed, and without a carriage return at its end.
abbrev pub IsPlain : Line → Type 0
IsPlain l = (index_byte l newline ≡ none) × (trim l ≡ l)

unfoldable pub ArePlain : List Line → Type 0
ArePlain [] = Unit
ArePlain (l ∷ ls) = IsPlain l × ArePlain ls

-- The bytes of the lines, each with a line feed behind it.
unfoldable pub print : List Line → List ℕ
print [] = []
print (l ∷ ls) = l ++ newline ∷ print ls

cut-line :
    (l : Line) (bs : List ℕ)
    → index_byte l newline ≡ none
    → cut (l ++ newline ∷ bs) ≡ (l ∷ (cut bs).0, (cut bs).1)
unfolding cut index_byte
cut-line [] bs h = ground arith
cut-line (x ∷ xs) bs h = ground (arith, h, cut-line xs bs)

cut-print : (ls : List Line) → ArePlain ls → cut (print ls) ≡ (ls, [])
unfolding ArePlain print cut
cut-print [] h = refl
cut-print (l ∷ ls) (p, ps) =
    cut-line l (print ls) p.0 ∙ ap (λ (r : List Line × Line). (l ∷ r.0, r.1)) (cut-print ls ps)

map-trim : (ls : List Line) → ArePlain ls → map trim ls ≡ ls
unfolding ArePlain
map-trim [] h = refl
map-trim (l ∷ ls) (p, ps) = ap₂ (λ x xs. x ∷ xs) p.1 (map-trim ls ps)

-- Lines without line feeds, and without carriage returns at their ends, that are written to a new capture of
-- `n` lines, `n` not negative as an int64, each with a line feed behind it, come back from `Lines`
-- as they are, however the writes divide the bytes, if they are not more than `n`; else the newest
-- `n` of them do.
pub lines-print :
    (n : ℕ) (ls : List Line) (ps : List (List ℕ))
    → IsNonneg n
    → ArePlain ls
    → join ps ≡ print ls
    → (lines (write_all (new n) ps) ≡ newest n ls)
      × (length ls ≤ n → lines (write_all (new n) ps) ≡ ls)
lines-print n ls ps h plain e =
    let read : lines (write_all (new n) ps) ≡ newest n ls =
      (lines-write_all n ps h).0
      ∙ ap (λ bs. newest n (map trim (cut bs).0)) e
      ∙ ap (λ (r : List Line × Line). newest n (map trim r.0)) (cut-print ls plain)
      ∙ ap (newest n) (map-trim ls plain) in
    (read, λ le. read ∙ newest_small n ls le)
