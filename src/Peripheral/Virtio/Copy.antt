-- ===== src/Peripheral/Virtio/Copy.antt =====
-- What the copy loops of the disk move.
use m99_riscv_emulator.Prelude.{
  ℕ, zero, suc, ◌+◌, ◌-◌, ◌*◌, ◌%◌, ◌^◌, ◌≤◌, ◌<◌, ◌≡◌, refl, ◌∙◌, arith, Bool, true, false,
  Bool-cases, inl, inr, some, ◌>>=◌, ◌&&◌, ◌==◌, ==_iff, ltb, leb, if◌then◌else◌, u64,
}
use m99_riscv_emulator.Memory.{MemoryWrapper, update, write_byte}
use m99_riscv_emulator.Memory.Bytes.{byte, byte-lt, IsWords, read_byte_lem, write_byte_total}
use m99_riscv_emulator.Peripheral.{DiskImage}
use m99_riscv_emulator.Peripheral.Virtio.{disk_read, disk_write, disc_access}

-- A place lies among the `n` from `first` on.
abbrev pub among : ℕ → ℕ → ℕ → Bool
among first n j = leb first j && ltb j (first + n)

-- Every byte of the image is one.
abbrev pub IsBytes : DiskImage → Type 0
IsBytes disk = (k : ℕ) → disk.content k < 2 ^ 8

module _ (start buffer : ℕ) where
  -- The bytes that a read leaves in memory.
  abbrev IsRead : DiskImage → MemoryWrapper → ℕ → ℕ → MemoryWrapper → Type 0
  IsRead disk m n offset m' =
      (j : ℕ)
      → j < 2 ^ 32
      → byte m' j
        ≡ (if among (buffer + offset) n j then disk.content (start + (j - buffer)) else byte m j)

  IsRead-more :
      (disk : DiskImage) (m m1 m' : MemoryWrapper) (n offset : ℕ)
      → buffer + offset + suc n ≤ 2 ^ 32
      → ((j : ℕ)
          → byte m1 j ≡ (
              if j % 2 ^ 32 == (buffer + offset) % 2 ^ 32
              then disk.content (start + offset)
              else byte m j))
      → IsRead disk m1 n (offset + 1) m'
      → IsRead disk m (suc n) offset m'
  IsRead-more disk m m1 m' n offset room one rest j hj = elim (Bool-cases (j == buffer + offset)) [
    | inl here ↦
        let e : j ≡ buffer + offset = (==_iff _ _).0 here in
        let past : among (buffer + (offset + 1)) n j ≡ false = ground arith in
        let inside : among (buffer + offset) (suc n) j ≡ true = ground arith in
        let hit : (j % 2 ^ 32 == (buffer + offset) % 2 ^ 32) ≡ true = ground arith in
        let place : start + (j - buffer) ≡ start + offset = omega arith in
        rw (rest j hj, past, one j, hit, inside, place) refl
    | inr apart ↦
        let same : among (buffer + (offset + 1)) n j ≡ among (buffer + offset) (suc n) j =
          ground arith in
        let miss : (j % 2 ^ 32 == (buffer + offset) % 2 ^ 32) ≡ false = ground arith in
        rw (rest j hj, same, one j, miss) refl
  ]

  read_step :
      (disk : DiskImage) (m m1 : MemoryWrapper) (n offset : ℕ)
      → buffer + offset < 2 ^ 64
      → start + offset < 2 ^ 64
      → start + offset < disk.size
      → write_byte m (buffer + offset) (disk.content (start + offset)) ≡ some m1
      → disk_read start buffer disk m (suc n) offset ≡ disk_read start buffer disk m1 n (offset + 1)
  unfolding disk_read
  read_step disk m m1 n offset hb hs fits e =
      let at : u64 (start + offset) ≡ start + offset = omega arith in
      let to : u64 (buffer + offset) ≡ buffer + offset = omega arith in
      let within : ltb (start + offset) disk.size ≡ true = ground arith in
      rw (at, to, within, e) refl

  -- A read of the disk whose sectors and buffer are inside returns, and puts the image's bytes at
  -- the buffer.
  pub disk_read_lem :
      (disk : DiskImage) (m : MemoryWrapper) (n offset : ℕ)
      → IsBytes disk
      → IsWords m
      → buffer + offset + n ≤ 2 ^ 32
      → start + offset + n ≤ disk.size
      → disk.size ≤ 2 ^ 64
      → (m' : MemoryWrapper) × (disk_read start buffer disk m n offset ≡ some m')
        × IsWords m'
        × IsRead disk m n offset m'
  unfolding disk_read
  disk_read_lem disk m zero offset bytes words room fits size = (
    m,
    refl,
    words,
    λ j hj. let out : among (buffer + offset) 0 j ≡ false = ground arith in rw out refl,
  )
  disk_read_lem disk m (suc n) offset bytes words room fits size =
      let (m1, e1, words1, one) =
        write_byte_total m (buffer + offset) (disk.content (start + offset)) words
          (bytes (start + offset)) in
      let (m', e', words', rest) =
        disk_read_lem disk m1 n (offset + 1) bytes words1 (omega arith) (omega arith) size in
      (
        m',
        read_step disk m m1 n offset (omega arith) (omega arith) (omega arith) e1 ∙ e',
        words',
        IsRead-more disk m m1 m' n offset room one rest,
      )

  -- The bytes that a write leaves in the image.
  abbrev IsWritten : MemoryWrapper → DiskImage → ℕ → ℕ → DiskImage → Type 0
  IsWritten m disk n offset disk' =
      (k : ℕ)
      → disk'.content k
        ≡ (if among (start + offset) n k then byte m (buffer + (k - start)) else disk.content k)

  write_more :
      (m : MemoryWrapper) (disk disk' : DiskImage) (n offset : ℕ)
      → IsWritten m
          (record disk {
            content = update disk.content (start + offset) (byte m (buffer + offset));
          })
          n
          (offset + 1)
          disk'
      → IsWritten m disk (suc n) offset disk'
  write_more m disk disk' n offset rest k = elim (Bool-cases (k == start + offset)) [
    | inl here ↦
        let e : k ≡ start + offset = (==_iff _ _).0 here in
        let past : among (start + (offset + 1)) n k ≡ false = ground arith in
        let inside : among (start + offset) (suc n) k ≡ true = ground arith in
        let place : buffer + (k - start) ≡ buffer + offset = omega arith in
        rw (rest k, past, here, inside, place) refl
    | inr apart ↦
        let same : among (start + (offset + 1)) n k ≡ among (start + offset) (suc n) k =
          ground arith in
        rw (rest k, same, apart) refl
  ]

  write_step :
      (disk : DiskImage) (m : MemoryWrapper) (n offset : ℕ)
      → buffer + offset < 2 ^ 64
      → start + offset < 2 ^ 64
      → start + offset < disk.size
      → disk_write start buffer disk m (suc n) offset
        ≡ disk_write start buffer
            (record disk {
              content = update disk.content (start + offset) (byte m (buffer + offset));
            })
            m
            n
            (offset + 1)
  unfolding disk_write
  write_step disk m n offset hb hs fits =
      let at : u64 (start + offset) ≡ start + offset = omega arith in
      let to : u64 (buffer + offset) ≡ buffer + offset = omega arith in
      let within : ltb (start + offset) disk.size ≡ true = ground arith in
      rw (at, to, within, read_byte_lem m (buffer + offset)) refl

  pub disk_write_lem :
      (disk : DiskImage) (m : MemoryWrapper) (n offset : ℕ)
      → buffer + offset + n ≤ 2 ^ 64
      → start + offset + n ≤ disk.size
      → disk.size ≤ 2 ^ 64
      → (disk' : DiskImage) × (disk_write start buffer disk m n offset ≡ some disk')
        × (disk'.size ≡ disk.size)
        × IsWritten m disk n offset disk'
  unfolding disk_write
  disk_write_lem disk m zero offset room fits size = (
    disk,
    refl,
    refl,
    λ k. let out : among (start + offset) 0 k ≡ false = ground arith in rw out refl,
  )
  disk_write_lem disk m (suc n) offset room fits size =
      let next = record disk {
        content = update disk.content (start + offset) (byte m (buffer + offset));
      } in
      let (disk', e', same, rest) =
        disk_write_lem next m n (offset + 1) (omega arith) (omega arith) size in
      (
        disk',
        write_step disk m n offset (omega arith) (omega arith) (omega arith) ∙ e',
        same,
        write_more m disk disk' n offset rest,
      )

-- In a memory of words and an image of bytes, when the sectors lie in the image and both buffers in
-- the memory: a write of `len` bytes from one buffer to the disk, followed by a read of the same
-- sectors to another buffer, returns. It copies the first buffer to the second, and leaves every
-- other byte of the memory as it was.
pub disc_access_round_trip :
    (disk : DiskImage) (m : MemoryWrapper) (sector from to len : ℕ)
    → IsWords m
    → IsBytes disk
    → sector * 512 + len ≤ disk.size
    → disk.size ≤ 2 ^ 64
    → sector * 512 < 2 ^ 64
    → from + len ≤ 2 ^ 32
    → to + len ≤ 2 ^ 32
    → (d : DiskImage × MemoryWrapper) × ((disc_access disk m sector from len true >>= λ d.
          disc_access d.0 d.1 sector to len false)
        ≡ some d)
      × ((j : ℕ)
          → j < 2 ^ 32
          → byte d.1 j ≡ (if among to len j then byte m (from + (j - to)) else byte m j))
unfolding disc_access
disc_access_round_trip disk m sector from to len words bytes fits size inside hf ht =
    let (disk', e, same, written) =
      disk_write_lem (sector * 512) from disk m len 0 (omega arith) (omega arith) size in
    let (m', e', words', read) =
      disk_read_lem (sector * 512) to disk' m len 0 (image_bytes disk' written) words (omega arith)
        (omega (arith, same)) (omega (arith, same)) in
    ((disk', m'), whole disk' m' e e', λ j hj. moved disk' m' written read j hj)
  where
    start_lem : u64 (sector * 512) ≡ sector * 512
    start_lem = omega arith

    image_bytes :
        (disk' : DiskImage) → IsWritten (sector * 512) from m disk len 0 disk' → IsBytes disk'
    image_bytes disk' written k = elim (Bool-cases (among (sector * 512 + 0) len k)) [
      | inl there ↦ rw (written k, there) (byte-lt m (from + (k - sector * 512)))
      | inr apart ↦ rw (written k, apart) (bytes k)
    ]

    whole :
        (disk' : DiskImage) (m' : MemoryWrapper)
        → disk_write (sector * 512) from disk m len 0 ≡ some disk'
        → disk_read (sector * 512) to disk' m len 0 ≡ some m'
        → (disc_access disk m sector from len true >>= λ d. disc_access d.0 d.1 sector to len false)
          ≡ some (disk', m')
    whole disk' m' e e' = rw (start_lem, e) (rw e' refl)

    moved :
        (disk' : DiskImage) (m' : MemoryWrapper)
        → IsWritten (sector * 512) from m disk len 0 disk'
        → IsRead (sector * 512) to disk' m len 0 m'
        → (j : ℕ) → j < 2 ^ 32
        → byte m' j ≡ (if among to len j then byte m (from + (j - to)) else byte m j)
    moved disk' m' written read j hj =
        let start_at : to + 0 ≡ to = omega arith in
        elim (Bool-cases (among to len j)) [
          | inl there ↦
              let k : among (sector * 512 + 0) len (sector * 512 + (j - to)) ≡ true =
                ground arith in
              let back : from + (sector * 512 + (j - to) - sector * 512) ≡ from + (j - to) =
                omega arith in
              rw (read j hj, start_at, there, written (sector * 512 + (j - to)), k, back) refl
          | inr apart ↦ rw (read j hj, start_at, apart) refl
        ]
