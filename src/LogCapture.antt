-- ===== src/LogCapture.antt =====
-- log.go: the ring buffer of the newest log lines. A byte is a number, a line a list of bytes.
-- Indices stay below the length of a slice in memory, so no sum of two of them wraps.
pub mod Ring
pub mod Lines
pub mod Roundtrip
mod Tests
use launce.Base.{
  ℕ, zero, suc, ◌+◌, ◌%◌, List, [], ◌∷◌, ◌++◌, Option, none, some, arith, length, get_or, set, take,
  drop, replicate, ltb, ◌==◌, if◌then◌else◌,
}
use launce.Base.Int64.{add64, lt64}

abbrev pub Line : Type 0
Line = List ℕ

abbrev pub newline : ℕ
newline = b'\n'

abbrev pub carriage_return : ℕ
carriage_return = b'\r'

pub record LogCapture : Type 0 where
  pub lines : List Line
  pub start : ℕ
  pub count : ℕ
  pub total : ℕ
  pub buf : List ℕ

-- The slice of `max_lines` empty strings; a negative number of lines counts as 0.
unfoldable pub new : ℕ → LogCapture
new max_lines = record {
  lines = replicate (if lt64 max_lines 0 then 0 else max_lines) [];
  start = 0;
  count = 0;
  total = 0;
  buf = [];
}

-- The method `append`.
unfoldable pub append : LogCapture → Line → LogCapture
append c line =
    let counted = record c { total = add64 c.total 1 } in
    let max_lines = length c.lines in
    if max_lines == 0
    then counted
    else (let written = record counted {
      lines = set c.lines ((c.start + c.count) % max_lines) line;
    } in
        if ltb c.count max_lines
        then record written { count = c.count + 1 }
        else record written { start = (c.start + 1) % max_lines })

-- `bytes.IndexByte`.
unfoldable pub index_byte : List ℕ → ℕ → Option ℕ
index_byte [] b = none
index_byte (x ∷ xs) b =
    if x == b then some 0 else elim (index_byte xs b) [ none ↦ none | some i ↦ some (suc i) ]

-- `bytes.TrimRight` with a cutset of one byte.
unfoldable pub trim_right : List ℕ → ℕ → List ℕ
trim_right [] b = []
trim_right (x ∷ xs) b = elim (trim_right xs b) [
  | [] ↦ if x == b then [] else x ∷ []
  | y ∷ ys ↦ x ∷ y ∷ ys
]

-- The loop of `Write`, on fuel: each round takes one line off the buffer.
unfoldable pub take_lines : ℕ → LogCapture → LogCapture
unfolding append index_byte trim_right
take_lines zero c = c
take_lines (suc fuel) c = elim (index_byte c.buf newline) [
  | none ↦ c
  | some i ↦
      take_lines fuel
        (record (append c (trim_right (take i c.buf) carriage_return)) { buf = drop (suc i) c.buf })
]

-- `Write` without its result, which is the length of `p`. The buffer is longer than the number of
-- its lines.
unfoldable pub write : LogCapture → List ℕ → LogCapture
unfolding take_lines
write c p = take_lines (suc (length (c.buf ++ p))) (record c { buf = c.buf ++ p })

-- The loop of `Lines`: `n` lines from the `i`-th on. The read is in range by `Ring.IsValid`.
abbrev pub snapshot : List Line → ℕ → ℕ → ℕ → ℕ → List Line
snapshot ls max_lines start i zero = []
snapshot ls max_lines start i (suc n) =
    get_or ls ((start + i) % max_lines) [] ∷ snapshot ls max_lines start (i + 1) n

-- The method `Lines`.
abbrev pub lines : LogCapture → List Line
lines c = snapshot c.lines (length c.lines) c.start 0 c.count

-- The method `Total`.
abbrev pub total : LogCapture → ℕ
total c = c.total
