-- ===== src/Mmap/File.antt =====
-- The memory-mapped file of github.com/grandecola/mmap, and the system calls behind it.
-- Neither is code of this repository: both are parameters of the queue's model.
use skywalking_satellite.Base.{
  ℕ, ◌+◌, ◌-◌, ◌^◌, ◌≤◌, ◌<◌, min, ◌≡◌, Bool, List, Option, some, ◌⊎◌, length, get_or,
}

-- A mapping of a whole file. `byte` observes it; the other fields are the package's methods, each
-- with what it leaves behind. `write_at` and `read_at` answer the number of bytes copied, or none
-- for the error of an offset out of bounds.
pub record MmapFile : Type 1 where
  pub File : Type 0
  pub size : File → ℕ
  pub byte : File → ℕ → ℕ
  pub write_at : File → List ℕ → ℕ → Option ℕ × File
  pub read_at : File → ℕ → ℕ → Option (List ℕ)
  pub write_uint64_at : File → ℕ → ℕ → File
  pub read_uint64_at : File → ℕ → ℕ
  -- WriteAt copies what fits behind the offset, and nothing else changes
  pub write_at_count :
      (f : File) (bs : List ℕ) (o : ℕ)
      → o < size f
      → (write_at f bs o).0 ≡ some (min (length bs) (size f - o))
  pub write_at_size : (f : File) (bs : List ℕ) (o : ℕ) → size (write_at f bs o).1 ≡ size f
  pub write_at_inside :
      (f : File) (bs : List ℕ) (o k : ℕ)
      → o + k < size f
      → k < length bs
      → byte (write_at f bs o).1 (o + k) ≡ get_or bs k 0
  pub write_at_outside :
      (f : File) (bs : List ℕ) (o p : ℕ)
      → (p < o) ⊎ (o + length bs ≤ p)
      → byte (write_at f bs o).1 p ≡ byte f p
  -- ReadAt copies what the destination holds, up to the end of the mapping
  pub read_at_bytes :
      (f : File) (n o : ℕ)
      → o < size f
      → (bs : List ℕ) × (read_at f n o ≡ some bs)
        × (length bs ≡ min n (size f - o))
        × ((k : ℕ) → k < length bs → get_or bs k 0 ≡ byte f (o + k))
  -- a word is the eight bytes behind the offset
  pub word_size : (f : File) (v o : ℕ) → size (write_uint64_at f v o) ≡ size f
  pub word_read :
      (f : File) (v o : ℕ)
      → o + 8 ≤ size f
      → v < 2 ^ 64
      → read_uint64_at (write_uint64_at f v o) o ≡ v
  pub word_outside :
      (f : File) (v o p : ℕ) → (p < o) ⊎ (o + 8 ≤ p) → byte (write_uint64_at f v o) p ≡ byte f p
  pub word_of_bytes :
      (f g : File) (o : ℕ)
      → ((k : ℕ) → k < 8 → byte f (o + k) ≡ byte g (o + k))
      → read_uint64_at f o ≡ read_uint64_at g o

-- What the operating system answers while one call of the queue runs: whether the file of an
-- index can be opened and mapped, flushed, and unmapped.
pub record System : Type 0 where
  pub opens : ℕ → Bool
  pub flushes : ℕ → Bool
  pub unmaps : ℕ → Bool
