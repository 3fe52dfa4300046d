-- ===== src/Mmap/Ram.antt =====
-- A mapped file held as a size and its bytes: it meets what the model assumes of the mmap package.
use skywalking_satellite.Base.{
  ℕ, zero, suc, ◌+◌, ◌-◌, ◌*◌, ◌/◌, ◌%◌, ◌^◌, ◌≤◌, ◌<◌, min, ◌≡◌, refl, ap, ap₂, ◌&&◌, List, [],
  ◌∷◌, Option, none, some, ◌⊎◌, length, get_or, arith, ltb, leb, if◌then◌else◌,
}
use skywalking_satellite.Mmap.File.{MmapFile}

pub record RamFile : Type 0 where
  pub size : ℕ
  pub byte : ℕ → ℕ

abbrev overwrite : (ℕ → ℕ) → List ℕ → ℕ → ℕ → ℕ
overwrite f bs o p = if leb o p && ltb p (o + length bs) then get_or bs (p - o) 0 else f p

abbrev pub write_at : RamFile → List ℕ → ℕ → Option ℕ × RamFile
write_at f bs o =
    if ltb o f.size
    then (some (min (length bs) (f.size - o)), record f { byte = overwrite f.byte bs o })
    else (none, record f { byte = overwrite f.byte bs o })

abbrev slice : (ℕ → ℕ) → ℕ → ℕ → List ℕ
slice f zero o = []
slice f (suc n) o = f o ∷ slice f n (o + 1)

abbrev pub read_at : RamFile → ℕ → ℕ → Option (List ℕ)
read_at f n o = if ltb o f.size then some (slice f.byte (min n (f.size - o)) o) else none

length-slice : (f : ℕ → ℕ) (n o : ℕ) → length (slice f n o) ≡ n
length-slice f zero o = refl
length-slice f (suc n) o = ap suc (length-slice f n (o + 1))

get_or-slice : (f : ℕ → ℕ) (n o k : ℕ) → k < n → get_or (slice f n o) k 0 ≡ f (o + k)
get_or-slice f zero o k h = elim h [ ]
get_or-slice f (suc n) o zero h = ap f (omega arith)
get_or-slice f (suc n) o (suc k) h =
    rw (get_or-slice f n (o + 1) k (omega arith)) (ap f (omega arith))

-- the byte of a word at a place
abbrev digit : ℕ → ℕ → ℕ
digit v k = v / 256 ^ k % 256

abbrev pub write_word : RamFile → ℕ → ℕ → RamFile
write_word f v o = record f {
  byte = λ p. if leb o p && ltb p (o + 8) then digit v (p - o) else f.byte p;
}

abbrev pub word_from : (ℕ → ℕ) → ℕ → ℕ → ℕ
word_from f o zero = 0
word_from f o (suc k) = word_from f o k + 256 ^ k * f (o + k)

pub word_from-eq :
    (f g : ℕ → ℕ) (o n : ℕ)
    → ((k : ℕ) → k < n → f (o + k) ≡ g (o + k))
    → word_from f o n ≡ word_from g o n
word_from-eq f g o zero h = refl
word_from-eq f g o (suc n) h =
    ap₂ (λ a b. a + 256 ^ n * b) (word_from-eq f g o n (λ k hk. h k (omega arith)))
      (h n (omega arith))

digits-word :
    (f : ℕ → ℕ) (v o : ℕ)
    → v < 2 ^ 64
    → ((k : ℕ) → k < 8 → f (o + k) ≡ digit v k)
    → word_from f o 8 ≡ v
digits-word f v o hv h = omega (
  arith,
  h 0 (omega arith),
  h 1 (omega arith),
  h 2 (omega arith),
  h 3 (omega arith),
  h 4 (omega arith),
  h 5 (omega arith),
  h 6 (omega arith),
  h 7 (omega arith),
)

abbrev pub read_word : RamFile → ℕ → ℕ
read_word f o = word_from f.byte o 8

write_word_byte : (f : RamFile) (v o k : ℕ) → k < 8 → (write_word f v o).byte (o + k) ≡ digit v k
write_word_byte f v o k h = ground (arith, cancel)
  where
    cancel : digit v (o + k - o) ≡ digit v k
    cancel = ap (digit v) (omega arith)

pub read-write_word : (f : RamFile) (v o : ℕ) → v < 2 ^ 64 → read_word (write_word f v o) o ≡ v
read-write_word f v o h = digits-word (write_word f v o).byte v o h (write_word_byte f v o)

pub write_at_inside :
    (f : RamFile) (bs : List ℕ) (o k : ℕ)
    → k < length bs
    → (write_at f bs o).1.byte (o + k) ≡ get_or bs k 0
write_at_inside f bs o k h = ground (arith, cancel)
  where
    cancel : get_or bs (o + k - o) 0 ≡ get_or bs k 0
    cancel = ap (λ t. get_or bs t 0) (omega arith)

pub read_at_bytes :
    (f : RamFile) (n o : ℕ)
    → o < f.size
    → (bs : List ℕ) × (read_at f n o ≡ some bs)
      × (length bs ≡ min n (f.size - o))
      × ((k : ℕ) → k < length bs → get_or bs k 0 ≡ f.byte (o + k))
read_at_bytes f n o h = (
  slice f.byte (min n (f.size - o)) o,
  ground arith,
  length-slice f.byte (min n (f.size - o)) o,
  λ k hk.
      get_or-slice f.byte (min n (f.size - o)) o k
        (omega (arith, length-slice f.byte (min n (f.size - o)) o)),
)

pub write_word_outside :
    (f : RamFile) (v o p : ℕ) → (p < o) ⊎ (o + 8 ≤ p) → (write_word f v o).byte p ≡ f.byte p
write_word_outside f v o p h = ground arith

pub write_at_count :
    (f : RamFile) (bs : List ℕ) (o : ℕ)
    → o < f.size
    → (write_at f bs o).0 ≡ some (min (length bs) (f.size - o))
write_at_count f bs o h = ground arith

pub write_at_size : (f : RamFile) (bs : List ℕ) (o : ℕ) → (write_at f bs o).1.size ≡ f.size
write_at_size f bs o = ground arith

pub write_at_outside :
    (f : RamFile) (bs : List ℕ) (o p : ℕ)
    → (p < o) ⊎ (o + length bs ≤ p)
    → (write_at f bs o).1.byte p ≡ f.byte p
write_at_outside f bs o p h = ground arith

abbrev pub ram : MmapFile
ram = record {
  File = RamFile;
  size = λ f. f.size;
  byte = λ f. f.byte;
  write_at = write_at;
  read_at = read_at;
  write_uint64_at = write_word;
  read_uint64_at = read_word;
  write_at_count = write_at_count;
  write_at_size = write_at_size;
  write_at_inside = λ f bs o k _ h. write_at_inside f bs o k h;
  write_at_outside = write_at_outside;
  read_at_bytes = read_at_bytes;
  word_size = λ f v o. refl;
  word_read = λ f v o _ h. read-write_word f v o h;
  word_outside = write_word_outside;
  word_of_bytes = λ f g o h. word_from-eq f.byte g.byte o 8 h;
}

-- A file of zero bytes.
abbrev pub blank : ℕ → RamFile
blank n = record { size = n; byte = λ _. 0 }
