-- ===== src/Mmap/Bytes.antt =====
-- One write into one segment file: what it stores, and what it leaves.
use skywalking_satellite.Base.{
  ℕ, zero, suc, ◌+◌, ◌%◌, ◌≤◌, ◌<◌, ◌^◌, ◌≡◌, refl, sym, subst, ap, ◌∙◌, inl, List, [], ◌∷◌, length,
  length-take, take, get_or, update, update_self, update_ne, arith, ℕ_discrete,
}
use native.Mathlib.Nat.{div-add-mod}
use skywalking_satellite.Mmap.File.{MmapFile}
use skywalking_satellite.Mmap.Position.{Place, Before, next}
use skywalking_satellite.Mmap.Layout.{cell, word, Stored}

-- Fewer than `c` segments apart, two segments share no file.
pub mod_apart : (i j c : ℕ) → i ≤ j → j < i + c → i % c ≡ j % c → i ≡ j
mod_apart i j c h k e = grind (arith, div-add-mod i c, div-add-mod j c)

pub get_or-take : (n k : ℕ) (xs : List ℕ) → k < n → get_or (take n xs) k 0 ≡ get_or xs k 0
get_or-take zero k xs h = elim h [ ]
get_or-take (suc n) k [] h = refl
get_or-take (suc n) zero (x ∷ xs) h = refl
get_or-take (suc n) (suc k) (x ∷ xs) h = get_or-take n k xs (omega arith)

module _ (F : MmapFile) (size capacity : ℕ) where
  open F use {File, byte, write_at, write_uint64_at, read_uint64_at}

  abbrev pub Sized : (ℕ → File) → Type 0
  Sized files = (i : ℕ) → F.size (files i) ≡ size

  Stored-of_bytes :
      (g : ℕ → File) (id offset : ℕ) (xs : List ℕ)
      → offset + length xs ≤ size
      → ((k : ℕ) → k < length xs → byte (g (id % capacity)) (offset + k) ≡ get_or xs k 0)
      → Stored F size capacity g (id, offset) xs
  Stored-of_bytes g id offset [] h k = tt
  Stored-of_bytes g id offset (x ∷ []) h k =
      (ap (byte (g (id % capacity))) (omega arith) ∙ k 0 (omega arith), tt)
  Stored-of_bytes g id offset (x ∷ y ∷ ys) h k =
      let here : next size (id, offset) ≡ (id, offset + 1) = ground arith in
      (
        ap (byte (g (id % capacity))) (omega arith) ∙ k 0 (omega arith),
        subst (λ p. Stored F size capacity g p (y ∷ ys)) (sym here)
            (Stored-of_bytes g id (offset + 1) (y ∷ ys) (omega arith)
              λ i hi. ap (byte (g (id % capacity))) (omega arith) ∙ k (suc i) (omega arith)),
      )

  -- the files after `segment.WriteAt(bytes, offset)` on the segment `id`
  abbrev pub written : (ℕ → File) → ℕ → ℕ → List ℕ → ℕ → File
  written files id offset bytes =
      update files (id % capacity) (write_at (files (id % capacity)) bytes offset).1

  pub written-Sized :
      (files : ℕ → File) (id offset : ℕ) (bytes : List ℕ)
      → Sized files
      → Sized (written files id offset bytes)
  written-Sized files id offset bytes s i =
      ground (arith, s i, s (id % capacity), F.write_at_size (files (id % capacity)) bytes offset)

  pub written-Stored :
      (files : ℕ → File) (id offset n : ℕ) (bytes : List ℕ)
      → Sized files
      → n ≤ length bytes
      → offset + n ≤ size
      → Stored F size capacity (written files id offset bytes) (id, offset) (take n bytes)
  written-Stored files id offset n bytes s h fits =
      Stored-of_bytes (written files id offset bytes) id offset (take n bytes)
        (omega (arith, length-take n bytes))
        λ k hk.
          ap (λ (f : File). byte f (offset + k)) (update_self files (id % capacity) _)
          ∙ F.write_at_inside (files (id % capacity)) bytes offset k
              (omega (arith, s (id % capacity), length-take n bytes))
              (omega (arith, length-take n bytes))
          ∙ sym (get_or-take n k bytes (omega (arith, length-take n bytes)))

  -- A file that is written at or behind `offset` only keeps what lies before.
  put_file-frame :
      (files : ℕ → File) (f : File) (id offset : ℕ) (p : Place)
      → ((o : ℕ) → o < offset → byte f o ≡ byte (files (id % capacity)) o)
      → Before p (id, offset)
      → id < p.0 + capacity
      → cell F size capacity (update files (id % capacity) f) p ≡ cell F size capacity files p
  put_file-frame files f id offset p same before near =
      elim (ℕ_discrete (id % capacity) (p.0 % capacity)) [
        | yes e ↦
            let here : p.0 ≡ id = mod_apart p.0 id capacity (omega arith) near (sym e) in
            ground (arith, same p.1 (omega arith), e)
        | no e ↦ ap (λ (f : File). byte f p.1) (update_ne files f e)
      ]

  pub written-frame :
      (files : ℕ → File) (id offset : ℕ) (bytes : List ℕ) (p : Place)
      → Before p (id, offset)
      → id < p.0 + capacity
      → cell F size capacity (written files id offset bytes) p ≡ cell F size capacity files p
  written-frame files id offset bytes p =
      put_file-frame files (write_at (files (id % capacity)) bytes offset).1 id offset p
        (λ o h. F.write_at_outside (files (id % capacity)) bytes offset o (inl h))

  -- the files after `segment.WriteUint64At(v, offset)` on the segment `id`
  abbrev pub word_written : (ℕ → File) → ℕ → ℕ → ℕ → ℕ → File
  word_written files id offset v =
      update files (id % capacity) (write_uint64_at (files (id % capacity)) v offset)

  pub word_written-Sized :
      (files : ℕ → File) (id offset v : ℕ) → Sized files → Sized (word_written files id offset v)
  word_written-Sized files id offset v s i =
      ground (arith, s i, s (id % capacity), F.word_size (files (id % capacity)) v offset)

  pub word_written-frame :
      (files : ℕ → File) (id offset v : ℕ) (p : Place)
      → Before p (id, offset)
      → id < p.0 + capacity
      → cell F size capacity (word_written files id offset v) p ≡ cell F size capacity files p
  word_written-frame files id offset v p =
      put_file-frame files (write_uint64_at (files (id % capacity)) v offset) id offset p
        (λ o h. F.word_outside (files (id % capacity)) v offset o (inl h))

  pub word-word_written :
      (files : ℕ → File) (id offset v : ℕ)
      → Sized files
      → offset + 8 ≤ size
      → v < 2 ^ 64
      → word F size capacity (word_written files id offset v) (id, offset) ≡ v
  word-word_written files id offset v s h small =
      ap (λ (f : File). read_uint64_at f offset) (update_self files (id % capacity) _)
      ∙ F.word_read (files (id % capacity)) v offset (omega (arith, s (id % capacity))) small
