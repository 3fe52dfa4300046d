-- ===== src/Mmap/Offset/RoundTrip.antt =====
-- An offset that was encoded is decoded to itself.
use skywalking_satellite.Base.{
  ℕ, zero, suc, ◌+◌, ◌-◌, ◌*◌, ◌/◌, ◌%◌, ◌^◌, ◌≤◌, ◌<◌, ◌≡◌, refl, sym, ap, subst, ◌∙◌, true, false,
  Bool-cases, inl, inr, ◌&&◌, Option, none, some, List, [], ◌∷◌, ◌++◌, append_assoc, append-nil,
  ltb, leb, ◌==◌, arith,
}
use skywalking_satellite.Mmap.Offset.{
  dash, plus_sign, digits, format_int, parse_digits, parse_unsigned, parse_int, split_from, split,
  encode_offset, decode_pieces, decode_offset,
}

-- a list of digit characters, and its value behind the digits that came before
abbrev Digits : List ℕ → Type 0
Digits [] = Unit {0}
Digits (c ∷ cs) = (48 ≤ c) × (c ≤ 57) × Digits cs

abbrev value : ℕ → List ℕ → ℕ
value v [] = v
value v (c ∷ cs) = value (v * 10 + (c - 48)) cs

Digits-append : (xs ys : List ℕ) → Digits xs → Digits ys → Digits (xs ++ ys)
Digits-append [] ys h k = k
Digits-append (x ∷ xs) ys h k = (h.0, h.1, Digits-append xs ys h.2 k)

value-append : (v : ℕ) (xs : List ℕ) (c : ℕ) → value v (xs ++ (c ∷ [])) ≡ value v xs * 10 + (c - 48)
value-append v [] c = refl
value-append v (x ∷ xs) c = value-append (v * 10 + (x - 48)) xs c

digits-Digits : (fuel n : ℕ) → Digits (digits fuel n)
unfolding digits
digits-Digits zero n = tt
digits-Digits (suc fuel) n = elim (Bool-cases (ltb n 10)) [
  | inl e ↦ rw e (omega arith, ground (arith, e), tt)
  | inr e ↦ rw e (
      Digits-append (digits fuel (n / 10)) ((48 + n % 10) ∷ []) (digits-Digits fuel (n / 10))
        (omega arith, omega arith, tt))
]

value-digits : (fuel n : ℕ) → n < fuel → value 0 (digits fuel n) ≡ n
unfolding digits
value-digits zero n h = elim h [ ]
value-digits (suc fuel) n h = elim (Bool-cases (ltb n 10)) [
  | inl e ↦ rw e (omega arith)
  | inr e ↦
      rw
        (
          e,
          value-append 0 (digits fuel (n / 10)) (48 + n % 10),
          value-digits fuel (n / 10) (ground (arith, e)),
        )
        (omega arith)
]

parse_digits-value :
    (v : ℕ) (cs : List ℕ) → Digits cs → value v cs < 2 ^ 63 → parse_digits v cs ≡ some (value v cs)
unfolding parse_digits
parse_digits-value v [] h k = ground arith
parse_digits-value v (c ∷ cs) h k =
    let inside : leb 48 c && leb c 57 ≡ true = ground arith in
    rw inside (parse_digits-value (v * 10 + (c - 48)) cs h.2 k)

-- a string of digits that is not empty
parse_int-value :
    (c : ℕ) (cs : List ℕ)
    → Digits (c ∷ cs)
    → value 0 (c ∷ cs) < 2 ^ 63
    → parse_int (c ∷ cs) ≡ some (value 0 (c ∷ cs))
unfolding parse_int parse_unsigned
parse_int-value c cs h k =
    let other : c == plus_sign ≡ false = ground arith in
    rw other (parse_digits-value 0 (c ∷ cs) h k)

append-cons : (xs : List ℕ) (c : ℕ) → (d : ℕ) × (ds : List ℕ) × (xs ++ (c ∷ []) ≡ d ∷ ds)
append-cons [] c = (c, [], refl)
append-cons (x ∷ xs) c = (x, xs ++ (c ∷ []), refl)

format_int-cons : (n : ℕ) → (d : ℕ) × (ds : List ℕ) × (format_int n ≡ d ∷ ds)
unfolding format_int digits
format_int-cons n = elim (Bool-cases (ltb n 10)) [
  | inl e ↦ rw e (48 + n, [], refl)
  | inr e ↦ rw e (append-cons (digits n (n / 10)) (48 + n % 10))
]

parse_int-format_int : (n : ℕ) → n < 2 ^ 63 → parse_int (format_int n) ≡ some n
unfolding format_int
parse_int-format_int n h =
    let (d, ds, e) = format_int-cons n in
    let same : value 0 (d ∷ ds) ≡ n = ap (value 0) (sym e) ∙ value-digits (suc n) n (omega arith) in
    ap parse_int e
    ∙ parse_int-value d ds (subst Digits e (digits-Digits (suc n) n)) (omega (arith, same))
    ∙ ap some same

-- Characters that are digits go into the piece.
split_from-Digits :
    (piece xs ys : List ℕ) → Digits xs → split_from piece (xs ++ ys) ≡ split_from (piece ++ xs) ys
unfolding split_from
split_from-Digits piece [] ys h = ap (λ p. split_from p ys) (sym (append-nil piece))
split_from-Digits piece (x ∷ xs) ys h =
    let other : x == dash ≡ false = ground arith in
    rw other (
      split_from-Digits (piece ++ (x ∷ [])) xs ys h.2
      ∙ ap (λ p. split_from p ys) (append_assoc piece (x ∷ []) xs))

split-two :
    (xs ys : List ℕ) → Digits xs → Digits ys → split ((xs ++ (dash ∷ [])) ++ ys) ≡ xs ∷ ys ∷ []
unfolding split split_from
split-two xs ys h k =
    ap (split_from []) (append_assoc xs (dash ∷ []) ys)
    ∙ split_from-Digits [] xs (dash ∷ ys) h
    ∙ ap (λ l. xs ∷ l) (ap (split_from []) (sym (append-nil ys)) ∙ split_from-Digits [] ys [] k)

decode_pieces-two :
    (a b : List ℕ) (x y : ℕ)
    → parse_int a ≡ some x
    → parse_int b ≡ some y
    → decode_pieces (a ∷ b ∷ []) ≡ some (x, y)
unfolding decode_pieces
decode_pieces-two a b x y h k = rw (h, k, decode_pieces) refl

-- Decoding an offset that was encoded gives the segment and the offset back, when both are int64
-- values that are not negative.
pub decode_offset-encode_offset :
    (id offset : ℕ)
    → id < 2 ^ 63
    → offset < 2 ^ 63
    → decode_offset (encode_offset id offset) ≡ some (id, offset)
unfolding decode_offset encode_offset format_int
decode_offset-encode_offset id offset hi ho =
    ap decode_pieces (
      split-two (format_int id) (format_int offset) (digits-Digits (suc id) id)
        (digits-Digits (suc offset) offset))
    ∙ decode_pieces-two (format_int id) (format_int offset) id offset (parse_int-format_int id hi)
        (parse_int-format_int offset ho)

-- The encoding is injective: two offsets with one string are the same offset.
pub encode_offset_injective :
    (a b c d : ℕ)
    → a < 2 ^ 63
    → b < 2 ^ 63
    → c < 2 ^ 63
    → d < 2 ^ 63
    → encode_offset a b ≡ encode_offset c d
    → (a ≡ c) × (b ≡ d)
encode_offset_injective a b c d ha hb hc hd e =
    let same : some (a, b) ≡ some (c, d) =
      sym (decode_offset-encode_offset a b ha hb)
      ∙ ap decode_offset e
      ∙ decode_offset-encode_offset c d hc hd in
    (ap (λ o. (content o).0) same, ap (λ o. (content o).1) same)
  where
    content : Option (ℕ × ℕ) → ℕ × ℕ
    content none = (0, 0)
    content (some p) = p
