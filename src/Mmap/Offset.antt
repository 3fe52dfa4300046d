-- ===== src/Mmap/Offset.antt =====
-- encodeOffset and decodeOffset of plugins/queue/mmap/queue.go. A string is the list of its bytes.
pub mod RoundTrip
use skywalking_satellite.Base.{
  ℕ, zero, suc, ◌+◌, ◌-◌, ◌*◌, ◌/◌, ◌%◌, Bool, ◌&&◌, Option, none, some, List, [], ◌∷◌, ◌++◌, ltb,
  leb, ◌==◌, if◌then◌else◌,
}
use skywalking_satellite.Mmap.Meta.{max_int64}

abbrev pub dash : ℕ
dash = 45

abbrev pub plus_sign : ℕ
plus_sign = 43

-- strconv.FormatInt to base ten, of a number that is not negative. The first argument bounds the
-- number of digits.
unfoldable pub digits : ℕ → ℕ → List ℕ
digits zero n = []
digits (suc fuel) n =
    let front = digits fuel (n / 10) in
    if ltb n 10 then (48 + n) ∷ [] else front ++ ((48 + n % 10) ∷ [])

-- A number has at most one digit more than itself.
unfoldable pub format_int : ℕ → List ℕ
format_int n = digits (suc n) n

-- strconv.ParseInt to base ten, 64 bits, of a string without a minus sign: the digits behind the
-- value so far.
unfoldable pub parse_digits : ℕ → List ℕ → Option ℕ
parse_digits value [] = if leb value max_int64 then some value else none
parse_digits value (c ∷ cs) =
    if leb 48 c && leb c 57 then parse_digits (value * 10 + (c - 48)) cs else none

unfoldable pub parse_unsigned : List ℕ → Option ℕ
parse_unsigned [] = none
parse_unsigned (c ∷ cs) = parse_digits 0 (c ∷ cs)

unfoldable pub parse_int : List ℕ → Option ℕ
parse_int [] = none
parse_int (c ∷ cs) = if c == plus_sign then parse_unsigned cs else parse_unsigned (c ∷ cs)

-- strings.Split at a dash: the piece that is being read is `piece`.
unfoldable pub split_from : List ℕ → List ℕ → List (List ℕ)
split_from piece [] = piece ∷ []
split_from piece (c ∷ cs) =
    if c == dash then piece ∷ split_from [] cs else split_from (piece ++ (c ∷ [])) cs

unfoldable pub split : List ℕ → List (List ℕ)
split s = split_from [] s

unfoldable pub encode_offset : ℕ → ℕ → List ℕ
encode_offset id offset = (format_int id ++ (dash ∷ [])) ++ format_int offset

-- The pieces of a string: two numbers, or the offset is illegal.
unfoldable pub decode_pieces : List (List ℕ) → Option (ℕ × ℕ)
decode_pieces (a ∷ b ∷ []) = elim (parse_int a) [
  | none ↦ none
  | some id ↦ elim (parse_int b) [ none ↦ none | some offset ↦ some (id, offset) ]
]
decode_pieces _ = none

unfoldable pub decode_offset : List ℕ → Option (ℕ × ℕ)
decode_offset position = decode_pieces (split position)
