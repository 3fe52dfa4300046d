-- ===== src/Mmap/Meta.antt =====
-- plugins/queue/mmap/meta/meta.go: the metadata file, ten words of eight bytes. Every method
-- holds the lock of the Metadata until it returns, so a method is one step.
pub mod Laws
use skywalking_satellite.Base.{
  ℕ, ◌+◌, ◌*◌, ◌-◌, ◌^◌, Bool, true, false, ◌&&◌, not, Option, none, some, ltb, ◌==◌, if◌then◌else◌,
}
use skywalking_satellite.Base.Int.{ℤ, pos, negsuc}
use skywalking_satellite.Mmap.File.{MmapFile}

abbrev pub meta_size : ℕ
meta_size = 80

abbrev pub meta_version : ℕ
meta_version = 1

abbrev pub max_int64 : ℕ
max_int64 = 2 ^ 63 - 1

-- the positions of the words, `iota * 8`
abbrev pub version_pos : ℕ
version_pos = 0

abbrev pub wid_pos : ℕ
wid_pos = 8

abbrev pub woffset_pos : ℕ
woffset_pos = 16

abbrev pub wmid_pos : ℕ
wmid_pos = 24

abbrev pub wmoffset_pos : ℕ
wmoffset_pos = 32

abbrev pub cid_pos : ℕ
cid_pos = 40

abbrev pub coffset_pos : ℕ
coffset_pos = 48

abbrev pub rid_pos : ℕ
rid_pos = 56

abbrev pub roffset_pos : ℕ
roffset_pos = 64

abbrev pub capacity_pos : ℕ
capacity_pos = 72

unfoldable pub uint64_to_int : ℕ → ℕ
uint64_to_int v = if ltb max_int64 v then 0 else v

unfoldable pub int64_to_uint64 : ℤ → ℕ
int64_to_uint64 (pos v) = v
int64_to_uint64 (negsuc v) = 0

-- The result is never negative, so it is a plain number.
unfoldable pub uint64_to_int64 : ℕ → ℕ
uint64_to_int64 v = if ltb max_int64 v then 0 else v

-- `name` and `size` of the source are the constants above.
pub record Metadata (File : Type 0) : Type 0 where
  pub meta_file : File
  pub capacity : ℕ

pub data MetaError : Type 0 where
  cannot_map : MetaError
  version_mismatch : ℕ → MetaError
  capacity_mismatch : ℕ → MetaError

pub data MetaResult (A : Type 0) : Type 0 where
  ok : A → MetaResult A
  err : MetaError → MetaResult A

module _ (F : MmapFile) where
  open F use {File, read_uint64_at, write_uint64_at}

  unfoldable pub get_version : Metadata File → ℕ
  unfolding uint64_to_int
  get_version m = uint64_to_int (read_uint64_at m.meta_file version_pos)

  unfoldable pub put_version : Metadata File → ℤ → Metadata File
  unfolding int64_to_uint64
  put_version m v = record m {
    meta_file = write_uint64_at m.meta_file (int64_to_uint64 v) version_pos;
  }

  unfoldable pub get_capacity : Metadata File → ℕ
  unfolding uint64_to_int
  get_capacity m = uint64_to_int (read_uint64_at m.meta_file capacity_pos)

  unfoldable pub put_capacity : Metadata File → ℤ → Metadata File
  unfolding int64_to_uint64
  put_capacity m v = record m {
    meta_file = write_uint64_at m.meta_file (int64_to_uint64 v) capacity_pos;
  }

  -- Segment identifiers and offsets are int64 values that are never negative.
  unfoldable pub get_writing_offset : Metadata File → ℕ × ℕ
  unfolding uint64_to_int64
  get_writing_offset m = (
    uint64_to_int64 (read_uint64_at m.meta_file wid_pos),
    uint64_to_int64 (read_uint64_at m.meta_file woffset_pos),
  )

  unfoldable pub put_writing_offset : Metadata File → ℕ → ℕ → Metadata File
  unfolding int64_to_uint64
  put_writing_offset m id offset =
      let f = write_uint64_at m.meta_file (int64_to_uint64 (pos id)) wid_pos in
      record m { meta_file = write_uint64_at f (int64_to_uint64 (pos offset)) woffset_pos }

  unfoldable pub get_watermark_offset : Metadata File → ℕ × ℕ
  unfolding uint64_to_int64
  get_watermark_offset m = (
    uint64_to_int64 (read_uint64_at m.meta_file wmid_pos),
    uint64_to_int64 (read_uint64_at m.meta_file wmoffset_pos),
  )

  unfoldable pub put_watermark_offset : Metadata File → ℕ → ℕ → Metadata File
  unfolding int64_to_uint64
  put_watermark_offset m id offset =
      let f = write_uint64_at m.meta_file (int64_to_uint64 (pos id)) wmid_pos in
      record m { meta_file = write_uint64_at f (int64_to_uint64 (pos offset)) wmoffset_pos }

  unfoldable pub get_committed_offset : Metadata File → ℕ × ℕ
  unfolding uint64_to_int64
  get_committed_offset m = (
    uint64_to_int64 (read_uint64_at m.meta_file cid_pos),
    uint64_to_int64 (read_uint64_at m.meta_file coffset_pos),
  )

  unfoldable pub put_committed_offset : Metadata File → ℕ → ℕ → Metadata File
  unfolding int64_to_uint64
  put_committed_offset m id offset =
      let f = write_uint64_at m.meta_file (int64_to_uint64 (pos id)) cid_pos in
      record m { meta_file = write_uint64_at f (int64_to_uint64 (pos offset)) coffset_pos }

  unfoldable pub get_reading_offset : Metadata File → ℕ × ℕ
  unfolding uint64_to_int64
  get_reading_offset m = (
    uint64_to_int64 (read_uint64_at m.meta_file rid_pos),
    uint64_to_int64 (read_uint64_at m.meta_file roffset_pos),
  )

  unfoldable pub put_reading_offset : Metadata File → ℕ → ℕ → Metadata File
  unfolding int64_to_uint64
  put_reading_offset m id offset =
      let f = write_uint64_at m.meta_file (int64_to_uint64 (pos id)) rid_pos in
      record m { meta_file = write_uint64_at f (int64_to_uint64 (pos offset)) roffset_pos }

  -- `file` is what `NewSegment` answered for the path of the metadata.
  unfoldable pub new_metadata : Option File → ℕ → MetaResult (Metadata File)
  unfolding get_version get_capacity put_version put_capacity
  new_metadata none capacity = err cannot_map
  new_metadata (some file) capacity =
      let m : Metadata File = record { meta_file = file; capacity = capacity } in
      let v = get_version m in
      let c = get_capacity m in
      if not (v == 0) && not (v == meta_version)
      then err (version_mismatch v)
      else (if not (c == 0) && not (c == capacity)
          then err (capacity_mismatch c)
          else ok (put_capacity (put_version m (pos meta_version)) (pos capacity)))
