-- ===== src/Memory.antt =====
-- The guest's memory, memory_wrapper.cpp and memory_wrapper.h: 2 ^ 12 blocks of 2 ^ 18 words, each
-- made when it is first written. An address is a `size_t`. `none` is a failed `assert`, or the
-- exception of `CheckRange`.
pub mod Word
pub mod Bytes
pub mod Wide
pub mod Half
use m99_riscv_emulator.Prelude.{
  ℕ, zero, suc, ◌+◌, ◌*◌, ◌%◌, ◌^◌, Bool, true, false, Option, none, some, List, [], ◌∷◌, bit_and,
  bit_or, ltb, ◌==◌, if◌then◌else◌, assert, ◌>>=◌, ◌>>◌, u8, u16, u32, u64, ◌<<<◌, ◌>>>◌,
}
use m99_riscv_emulator.Prelude.Tables.{get_or}

-- The rounds left of the loop, on the bit pattern of an `int`.
generate_bit_mask_loop : ℕ → ℕ → ℕ
generate_bit_mask_loop zero mask = mask
generate_bit_mask_loop (suc n) mask = generate_bit_mask_loop n (bit_or (u32 (mask <<< 1)) 1)

unfoldable pub generate_bit_mask : ℕ → ℕ
unfolding generate_bit_mask_loop
generate_bit_mask bits = generate_bit_mask_loop bits 0

abbrev offset_bits : ℕ
offset_bits = 20

abbrev word_bits : ℕ
word_bits = 2

abbrev entry_bits : ℕ
entry_bits = 12

abbrev map_entry : ℕ
map_entry = 1 <<< entry_bits

-- `mapping` is the array of vectors, by block and place; a block that is not `assigned` has an
-- empty vector, whose values here are never read.
pub record MemoryWrapper : Type 0 where
  pub mapping : ℕ → ℕ → ℕ
  pub assigned : ℕ → Bool

abbrev pub update {ℓ} : {A : Type ℓ} → (ℕ → A) → ℕ → A → ℕ → A
update f k v j = if j == k then v else f j

unfoldable pub fresh : MemoryWrapper
fresh = record { mapping = λ entry place. 0; assigned = λ entry. false }

check_range : MemoryWrapper → ℕ → Option Bool
check_range m entry = if ltb entry map_entry then some (m.assigned entry) else none

entry_of : ℕ → ℕ
unfolding generate_bit_mask
entry_of i = bit_and (i >>> offset_bits) (generate_bit_mask entry_bits)

place_of : ℕ → ℕ
unfolding generate_bit_mask
place_of i = bit_and i (generate_bit_mask offset_bits) >>> word_bits

unfoldable pub read32 : MemoryWrapper → ℕ → Option ℕ
unfolding check_range entry_of place_of
read32 m i = do
  assert (bit_and i 3 == 0)
  present ← check_range m (entry_of i)
  some (if present then m.mapping (entry_of i) (place_of i) else 0)

-- `resize` of an empty vector fills it with zeros.
unfoldable pub write32 : MemoryWrapper → ℕ → ℕ → Option MemoryWrapper
unfolding check_range entry_of place_of
write32 m i value = do
  assert (bit_and i 3 == 0)
  present ← check_range m (entry_of i)
  let block = if present then m.mapping (entry_of i) else (λ place. 0)
  some (record {
    mapping = update m.mapping (entry_of i) (update block (place_of i) value);
    assigned = if present then m.assigned else update m.assigned (entry_of i) true;
  })

unfoldable pub read_byte : MemoryWrapper → ℕ → Option ℕ
read_byte m i = do
  read_data ← read32 m (i >>> word_bits <<< word_bits)
  some (u8 (bit_and (read_data >>> (bit_and i 3 * 8)) 0xFF))

byte_masks : List ℕ
byte_masks = 0xFFFFFF00 ∷ 0xFFFF00FF ∷ 0xFF00FFFF ∷ 0x00FFFFFF ∷ []

unfoldable pub write_byte : MemoryWrapper → ℕ → ℕ → Option MemoryWrapper
unfolding byte_masks
write_byte m i data' = do
  original_data ← read32 m (i >>> word_bits <<< word_bits)
  let byte_offset = bit_and i 3
  let cleared = bit_and original_data (get_or byte_masks byte_offset 0)
  write32 m (i >>> word_bits <<< word_bits)
      (u32 (bit_or cleared (u64 (data' <<< (byte_offset * 8)))))

unfoldable pub read16 : MemoryWrapper → ℕ → Option ℕ
read16 m i = do
  assert (bit_and i 1 == 0)
  read_data ← read32 m (i >>> word_bits <<< word_bits)
  some (u16 (bit_and (read_data >>> (bit_and i 3 * 8)) 0xFFFF))

half_masks : List ℕ
half_masks = 0xFFFF0000 ∷ 0x0000FFFF ∷ []

unfoldable pub write16 : MemoryWrapper → ℕ → ℕ → Option MemoryWrapper
unfolding half_masks
write16 m i data' = do
  assert (bit_and i 1 == 0)
  original_data ← read32 m (i >>> word_bits <<< word_bits)
  let short_word_offset = bit_and (i >>> 1) 1
  let cleared = bit_and original_data (u32 (get_or half_masks short_word_offset 0))
  write32 m (i >>> word_bits <<< word_bits)
      (bit_or cleared (u32 (data' <<< (short_word_offset * 16))))

unfoldable pub read64 : MemoryWrapper → ℕ → Option ℕ
read64 m i = do
  assert (bit_and i 7 == 0)
  lower ← read32 m (i >>> word_bits <<< word_bits)
  upper ← read32 m (u64 ((i >>> word_bits <<< word_bits) + 4))
  some (bit_or lower (u64 (upper <<< 32)))

unfoldable pub write64 : MemoryWrapper → ℕ → ℕ → Option MemoryWrapper
write64 m i value = do
  assert (bit_and i 7 == 0)
  m ← write32 m (i >>> word_bits <<< word_bits) (bit_and value 0xFFFFFFFF)
  write32 m (u64 ((i >>> word_bits <<< word_bits) + 4)) (bit_and (value >>> 32) 0xFFFFFFFF)
