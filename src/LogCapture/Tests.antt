-- ===== src/LogCapture/Tests.antt =====
-- Runs of log.go, and its theorems at concrete inputs.
use launce.Base.{ℕ, ◌%◌, ◌^◌, ◌≡◌, refl, ◌≤◌, List, [], ◌∷◌, map, arith, length}
use launce.LogCapture.{LogCapture, new, index_byte, trim_right, write, lines, total}
use launce.LogCapture.Ring.{newest}
use launce.LogCapture.Roundtrip.{ArePlain, print, lines-print}
use launce.LogCapture.Lines.{cut, trim, write_all, join, lines-write_all}

-- "a\r\nbc", "\nd\n", "e"
abbrev chunks : List (List ℕ)
chunks = (97 ∷ 13 ∷ 10 ∷ 98 ∷ 99 ∷ []) ∷ (10 ∷ 100 ∷ 10 ∷ []) ∷ (101 ∷ []) ∷ []

-- A ring of two lines that has turned once.
abbrev turned : LogCapture
turned = record { lines = (3 ∷ []) ∷ (2 ∷ []) ∷ []; start = 1; count = 2; total = 3; buf = [] }

lines-turned : lines turned ≡ (2 ∷ []) ∷ (3 ∷ []) ∷ []
lines-turned = refl

write_all-chunks : lines (write_all (new 2) chunks) ≡ (98 ∷ 99 ∷ []) ∷ (100 ∷ []) ∷ []
unfolding write_all write new
write_all-chunks = refl

lines-write_all_example :
    (lines (write_all (new 2) chunks) ≡ newest 2 (map trim (cut (join chunks)).0))
    × (total (write_all (new 2) chunks) % 2 ^ 64 ≡ length (map trim (cut (join chunks)).0) % 2 ^ 64)
lines-write_all_example = lines-write_all 2 chunks (omega arith)

-- "a", "" and "b\rc", printed and written in two goes.
abbrev plain : List (List ℕ)
plain = (97 ∷ []) ∷ [] ∷ (98 ∷ 13 ∷ 99 ∷ []) ∷ []

abbrev printed : List (List ℕ)
printed = (97 ∷ 10 ∷ 10 ∷ 98 ∷ []) ∷ (13 ∷ 99 ∷ 10 ∷ []) ∷ []

lines-print_example :
    (lines (write_all (new 4) printed) ≡ newest 4 plain)
    × (length plain ≤ 4 → lines (write_all (new 4) printed) ≡ plain)
lines-print_example =
    unfold ArePlain in
    unfold index_byte in
    unfold trim_right in
    unfold print in
    lines-print 4 plain printed (omega arith) ((refl, refl), ((refl, refl), ((refl, refl), tt)))
      refl
