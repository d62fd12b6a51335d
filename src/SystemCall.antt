-- ===== src/SystemCall.antt =====
-- The system calls of a user program, system_call_emulator.cpp: what the host's calls return is
-- handed in, what they are given is kept, and the open handles are counted. `none` is an exception
-- of the memory.
pub mod Buffer
use m99_riscv_emulator.Prelude.{
  ℕ, zero, suc, ◌+◌, ◌-◌, ◌*◌, ◌/◌, ◌%◌, ◌^◌, Bool, true, false, not, Option, none, some, ◌>>=◌,
  ◌&&◌, bit_and, bit_or, ltb, ◌==◌, if◌then◌else◌, List, [], ◌∷◌, u8, u16, u32, u64, of_int32,
  ◌>>>◌,
}
use m99_riscv_emulator.Memory.{MemoryWrapper, read_byte, write_byte, update}

-- `struct stat` of the host, as far as it is copied, and `Riscv32NewlibStat`: each field is its bit
-- pattern. The spare words of the guest's are never set.
pub record Stat : Type 0 where
  pub st_dev : ℕ
  pub st_ino : ℕ
  pub st_mode : ℕ
  pub st_nlink : ℕ
  pub st_uid : ℕ
  pub st_gid : ℕ
  pub st_rdev : ℕ
  pub st_size : ℕ
  pub st_atim : ℕ
  pub st_mtim : ℕ
  pub st_ctim : ℕ
  pub st_blksize : ℕ
  pub st_blocks : ℕ

-- What the host answers. `cio_read` and `fstat` hand over the whole buffer; `spare` are the words of the
-- guest's structure that the program leaves unset, and `open_flag` is the host's flag for the guest's.
pub record Host : Type 0 where
  pub cio_write : ℕ → List ℕ → ℕ
  pub cio_read : ℕ → ℕ → ℕ × (ℕ → ℕ)
  pub fstat : ℕ → ℕ × Stat
  pub cio_close : ℕ → ℕ
  pub cio_open : List ℕ → ℕ → ℕ → ℕ
  pub cio_lseek : ℕ → ℕ → ℕ → ℕ
  pub spare : ℕ → ℕ
  pub o_rdwr : ℕ
  pub o_rdonly : ℕ
  pub open_flag : ℕ → ℕ

-- What a call changes: the processor's registers, break and memory, and the two flags and the count
-- of the emulator.
pub record Process : Type 0 where
  pub reg : ℕ → ℕ
  pub memory : MemoryWrapper
  pub brk : ℕ
  pub open_handles : ℕ
  pub error_flag : Bool
  pub end_flag : Bool

-- Each field is cut to the width that the guest's structure gives it.
unfoldable pub conv_host_stat_to_guest_stat : Stat → Stat
conv_host_stat_to_guest_stat host_stat = record {
  st_dev = u16 host_stat.st_dev;
  st_ino = u16 host_stat.st_ino;
  st_mode = u32 host_stat.st_mode;
  st_nlink = u16 host_stat.st_nlink;
  st_uid = u16 host_stat.st_uid;
  st_gid = u16 host_stat.st_gid;
  st_rdev = u16 host_stat.st_rdev;
  st_size = u32 host_stat.st_size;
  st_atim = u64 host_stat.st_atim;
  st_mtim = u64 host_stat.st_mtim;
  st_ctim = u64 host_stat.st_ctim;
  st_blksize = u32 host_stat.st_blksize;
  st_blocks = u32 host_stat.st_blocks;
}

-- The bytes of a word of `n`, the lowest first, before those of `rest`.
unfoldable pub bytes_before : ℕ → ℕ → List ℕ → List ℕ
bytes_before zero x rest = rest
bytes_before (suc n) x rest = u8 x ∷ bytes_before n (x >>> 8) rest

-- The structure in memory, 88 bytes: the compiler puts a spare word before `st_blksize`, two after
-- `st_blocks`, and four bytes at the end.
unfoldable pub stat_bytes : (ℕ → ℕ) → Stat → List ℕ
unfolding bytes_before
stat_bytes spare s = bytes_before 2 s.st_dev (
    bytes_before 2 s.st_ino (
      bytes_before 4 s.st_mode (
        bytes_before 2 s.st_nlink (
          bytes_before 2 s.st_uid (
            bytes_before 2 s.st_gid (
              bytes_before 2 s.st_rdev (
                bytes_before 4 s.st_size (
                  bytes_before 4 (spare 0) (
                    bytes_before 8 s.st_atim (
                      bytes_before 4 (spare 1) (
                        bytes_before 4 (spare 2) (
                          bytes_before 8 s.st_mtim (
                            bytes_before 4 (spare 3) (
                              bytes_before 4 (spare 4) (
                                bytes_before 8 s.st_ctim (
                                  bytes_before 4 (spare 5) (
                                    bytes_before 4 s.st_blksize (
                                      bytes_before 4 s.st_blocks (
                                        bytes_before 4 (spare 6) (
                                          bytes_before 4 (spare 7)
                                            (bytes_before 4 (spare 8) [])))))))))))))))))))))

-- `MemoryWrapperStrlen`, over the rounds that `max` leaves.
unfoldable pub strlen_loop : MemoryWrapper → ℕ → ℕ → Option ℕ
strlen_loop mem address zero = read_byte mem address >>= λ b. some 0
strlen_loop mem address (suc n) = read_byte mem address >>= λ b. elim (b == 0) [
  | true ↦ some 0
  | false ↦ strlen_loop mem (u64 (address + 1)) n >>= λ counter. some (suc counter)
]

unfoldable pub memory_wrapper_strlen : MemoryWrapper → ℕ → ℕ → Option ℕ
unfolding strlen_loop
memory_wrapper_strlen mem address max' = strlen_loop mem address max'

-- `MemoryWrapperCopy`, and the loop of the write call.
unfoldable pub memory_wrapper_copy : MemoryWrapper → ℕ → ℕ → Option (List ℕ)
memory_wrapper_copy mem address zero = some []
memory_wrapper_copy mem address (suc n) = read_byte mem address >>= λ b.
    memory_wrapper_copy mem (u64 (address + 1)) n >>= λ rest. some (b ∷ rest)

-- The loops that write a buffer into the guest's memory.
unfoldable pub put_bytes : MemoryWrapper → ℕ → List ℕ → Option MemoryWrapper
put_bytes mem address [] = some mem
put_bytes mem address (b ∷ rest) =
    write_byte mem address b >>= λ mem. put_bytes mem (u64 (address + 1)) rest

abbrev set_reg : Process → ℕ → ℕ → Process
set_reg p num value = record p { reg = update p.reg num value }

-- A length of the guest, an `int`: a negative one throws when the buffer is made.
buffer_length : ℕ → Option ℕ
buffer_length x = if ltb (u32 x) (2 ^ 31) then some (u32 x) else none

system_write : Host → Process → Option Process
unfolding buffer_length memory_wrapper_copy
system_write host p = do
  length ← buffer_length (p.reg 12)
  buffer ← memory_wrapper_copy p.memory (p.reg 11) length
  some (set_reg p 10 (host.cio_write (u32 (p.reg 10)) buffer))

unfoldable pub system_brk : Process → ℕ → Process
system_brk p top =
    if p.reg 10 == 0
    then set_reg p 10 p.brk
    else if ltb (p.reg 10) top
    then record p { brk = p.reg 10 }
    else set_reg p 10 (2 ^ 64 - 1)

-- The first `n` bytes of a buffer from `i` on.
unfoldable pub buffer_bytes : (ℕ → ℕ) → ℕ → ℕ → List ℕ
buffer_bytes buffer i zero = []
buffer_bytes buffer i (suc n) = u8 (buffer i) ∷ buffer_bytes buffer (suc i) n

system_read : Host → Process → Option Process
unfolding buffer_length buffer_bytes put_bytes
system_read host p = do
  length ← buffer_length (p.reg 12)
  let answer = host.cio_read (u32 (p.reg 10)) length
  memory ← put_bytes p.memory (p.reg 11) (buffer_bytes answer.1 0 length)
  some (set_reg (record p { memory = memory }) 10 (u32 answer.0))

system_fstat : Host → Process → Option Process
unfolding put_bytes stat_bytes conv_host_stat_to_guest_stat
system_fstat host p =
    let answer = host.fstat (u32 (p.reg 10)) in
    do
      memory ←
          put_bytes p.memory (p.reg 11)
            (stat_bytes host.spare (conv_host_stat_to_guest_stat answer.1))
      some (set_reg (record p { memory = memory }) 10 (of_int32 (u32 answer.0)))

unfoldable pub system_close : Host → Process → Process
system_close host p =
    if ltb 0 p.open_handles
    then set_reg (record p { open_handles = p.open_handles - 1 }) 10
        (of_int32 (u32 (host.cio_close (u32 (p.reg 10)))))
    else set_reg p 10 0

-- The flags of the guest that are carried over one by one.
guest_flags : List ℕ
guest_flags =
    0x000008 ∷ 0x040000 ∷ 0x000200 ∷ 0x080000 ∷ 0x200000 ∷ 0x000800 ∷ 0x008000 ∷ 0x004000 ∷ 0x002000
    ∷ 0x000400 ∷ []

add_flags : Host → ℕ → List ℕ → ℕ → ℕ
add_flags host asked [] flag = flag
add_flags host asked (k ∷ rest) flag =
    add_flags host asked rest (bit_or flag (if bit_and asked k == 0 then 0 else host.open_flag k))

open_flags : Host → ℕ → ℕ
unfolding guest_flags add_flags
open_flags host asked =
    add_flags host asked guest_flags
      (if bit_and asked 0x000002 == 0 then host.o_rdonly else host.o_rdwr)

-- The handle that `open` returned.
opened : Process → ℕ → Process
opened p answer =
    set_reg
      (record p {
        open_handles = if ltb answer (2 ^ 31) then p.open_handles + 1 else p.open_handles;
      })
      10 (of_int32 answer)

system_open : Host → Process → Option Process
unfolding memory_wrapper_strlen memory_wrapper_copy open_flags opened
system_open host p = do
  length ← memory_wrapper_strlen p.memory (p.reg 10) 1024
  (if length == 0
      then some (set_reg p 10 (2 ^ 64 - 1))
      else (memory_wrapper_copy p.memory (p.reg 10) length >>= λ buffer.
          some (opened p (u32 (host.cio_open buffer (open_flags host (p.reg 11)) (p.reg 12))))))

unfoldable pub system_call_emulation : Host → Process → ℕ → Option Process
unfolding system_write system_brk system_read system_fstat system_close system_open
system_call_emulation host started top =
    let p = record started { error_flag = false; end_flag = false } in
    let call = started.reg 17 in
    if call == 93
    then some (record p { end_flag = true })
    else if call == 64
    then system_write host p
    else if call == 214
    then some (system_brk p top)
    else if call == 63
    then system_read host p
    else if call == 80
    then system_fstat host p
    else if call == 57
    then some (system_close host p)
    else if call == 1024
    then system_open host p
    else if call == 62
    then some (
        set_reg p 10 (of_int32 (u32 (host.cio_lseek (u32 (p.reg 10)) (p.reg 11) (u32 (p.reg 12))))))
    else some (record p { end_flag = true })
