-- ===== src/Smtp/Server/Reader.antt =====
-- internal/smtp/server.go: reading commands and message data. The connection is the list of bytes
-- that are still to come; after them a read fails (the peer has closed, or a deadline passes).
pub mod Lines
pub mod RoundTrip
pub mod Fuel
pub mod Bounds
pub mod Parts
use mailx.Base.{
  ℕ, zero, suc, ◌+◌, ◌-◌, ◌^◌, Bool, true, false, List, [], ◌∷◌, ◌++◌, ◌&&◌, ◌||◌, not, ltb, leb,
  ◌==◌, if◌then◌else◌, length, any,
}
use mailx.Base.Text.{Text, is_empty}
use mailx.Smtp.Data.{ends_crlf}

-- `bufio.Reader.ReadSlice('\n')`: a line with its LF, a full buffer without one, or an error.
pub data Slice : Type 0 where
  whole : (fragment rest : Text) → Slice
  full : (fragment rest : Text) → Slice
  lost : Slice

abbrev after_byte : ℕ → Slice → Slice
after_byte c (whole f rest) = whole (c ∷ f) rest
after_byte c (full f rest) = full (c ∷ f) rest
after_byte c lost = lost

-- With a buffer of `size` bytes.
unfoldable pub read_slice : ℕ → Text → Slice
read_slice zero s = full [] s
read_slice (suc size) [] = lost
read_slice (suc size) (c ∷ s) =
    let more = after_byte c (read_slice size s) in if c == 10 then whole (c ∷ []) s else more

-- `line[:len(line)-2]`
unfoldable pub drop_crlf : Text → Text
drop_crlf [] = []
drop_crlf (c ∷ []) = []
drop_crlf (c ∷ d ∷ []) = []
drop_crlf (c ∷ d ∷ e ∷ s) = c ∷ drop_crlf (d ∷ e ∷ s)

-- `hasValidCRLF(line)`, and no other CR.
unfoldable pub is_framed : Text → Bool
unfolding ends_crlf drop_crlf
is_framed line = ends_crlf line && not (any (λ c. c == 13) (drop_crlf line))

-- What `readCommand` returns.
pub data CommandLine : Type 0 where
  got : (line rest : Text) → CommandLine
  too_long : CommandLine
  bad_framing : (rest : Text) → CommandLine
  closed : CommandLine

framed : Text → Text → CommandLine
unfolding is_framed drop_crlf
framed line rest = if is_framed line then got (drop_crlf line) rest else bad_framing rest

-- `readCommand`; the buffer has the size of the limit.
unfoldable pub read_command : ℕ → Text → CommandLine
unfolding read_slice framed
read_command limit s = elim (read_slice limit s) [
  | full fragment rest ↦ too_long
  | lost ↦ closed
  | whole line rest ↦ if ltb limit (length line) then too_long else framed line rest
]

-- `dataReadResult`
pub record DataReadResult : Type 0 where
  pub raw : Text
  pub oversized : Bool
  pub malformed : Bool

-- The variables of the loop of `readData`.
pub record Reading : Type 0 where
  pub body : Text
  pub line : Text
  pub size : ℕ
  pub oversized : Bool
  pub malformed : Bool
  pub at_line_start : Bool

-- `isDataTerminator`
unfoldable pub is_terminator : Text → Bool
is_terminator (a ∷ b ∷ c ∷ []) = a == b'.' && b == 13 && c == 10
is_terminator _ = false

-- A dot-stuffed line without its first dot.
unfoldable pub unstuffed : Text → Text
unstuffed [] = []
unstuffed (c ∷ l) = if c == b'.' then l else c ∷ l

abbrev max_int64 : ℕ
max_int64 = 2 ^ 63 - 1

abbrev pub too_big : Bool → Reading → Reading
too_big line_start r = record r { oversized = true; line = []; at_line_start = line_start }

-- A complete line.
unfoldable pub take_line : ℕ → Text → Reading → Reading
unfolding is_framed drop_crlf unstuffed
take_line max line r =
    let content = unstuffed (drop_crlf line) in
    if not (is_framed line)
    then record r { malformed = true; line = []; at_line_start = true }
    else if ltb (max - r.size) (length content + 2)
    then too_big true r
    else record r {
      size = r.size + (length content + 2);
      body = r.body ++ (content ++ 13 ∷ 10 ∷ []);
      line = [];
      at_line_start = true;
    }

-- Whether a line of these bytes, dot-stuffed, cannot fit any more.
unfoldable pub exceeds : (remaining line fragment : ℕ) → Bool
exceeds remaining line fragment =
    let max_raw = if ltb remaining max_int64 then remaining + 1 else remaining in
    ltb max_raw fragment || ltb (max_raw - fragment) line

-- One round of the loop, after the terminator's test.
unfoldable pub take_fragment : ℕ → Bool → Text → Reading → Reading
unfolding take_line exceeds
take_fragment max complete fragment r =
    let line = r.line ++ fragment in
    if r.oversized || r.malformed
    then record r { at_line_start = complete }
    else if exceeds (max - r.size) (length r.line) (length fragment)
    then too_big complete r
    else if complete
    then take_line max line r
    else record r { line = line; at_line_start = false }

-- What `readData` returns, with the bytes after it. `spent` is no return: the fuel was too little.
pub data DataRead : Type 0 where
  read : DataReadResult → (rest : Text) → DataRead
  failed : DataRead
  spent : DataRead

abbrev pub result_of : Reading → DataReadResult
result_of r = record { raw = r.body; oversized = r.oversized; malformed = r.malformed }

-- The loop of `readData`. Each round takes a byte at least.
unfoldable pub read_data_from : ℕ → ℕ → ℕ → Reading → Text → DataRead
unfolding read_slice is_terminator take_fragment
read_data_from zero limit max r s = spent
read_data_from (suc fuel) limit max r s = elim (read_slice limit s) [
  | lost ↦ failed
  | full fragment rest ↦ read_data_from fuel limit max (take_fragment max false fragment r) rest
  | whole fragment rest ↦
      if r.at_line_start && is_terminator fragment
      then read (result_of r) rest
      else read_data_from fuel limit max (take_fragment max true fragment r) rest
]

abbrev pub first_reading : Reading
first_reading = record {
  body = [];
  line = [];
  size = 0;
  oversized = false;
  malformed = false;
  at_line_start = true;
}

-- `readData`
unfoldable pub read_data : ℕ → ℕ → Text → DataRead
unfolding read_data_from
read_data limit max s = read_data_from (length s + 1) limit max first_reading s
