-- ===== src/Decode/Code16/WellFormed.antt =====
-- What `GetCode16` guarantees of every word: register numbers that exist, and offsets that are
-- aligned for the access or the jump.
use m99_riscv_emulator.Prelude.{
  ℕ, ◌+◌, ◌-◌, ◌*◌, ◌/◌, ◌%◌, ◌^◌, ◌≤◌, ◌<◌, ◌≡◌, refl, ◌∙◌, ap, arith, Bool, true, false, inl, inr,
  ◌==◌, ◌&&◌, ◌||◌, leb, ◌>>>◌, ◌<<<◌, bit_or, Bool-cases, if◌then◌else◌,
}
use native.Mathlib.Nat.{mod-lt, le_trans, mul-lt-mul_of_pos_right, pow-le-pow_right}
use m99_riscv_emulator.Prelude.Bits.{bit_or_split, bit_or-lt, pow_pos, pow_add, lower-fields}
use m99_riscv_emulator.BitTools.{bitcrop, sign_extend}
use m99_riscv_emulator.BitTools.Fields.{bitcrop_lem, sign_extend_lem}
use m99_riscv_emulator.Isa.{Instruction}
use m99_riscv_emulator.Decode.Code16.{
  Decoded, decoded, undecoded, short_reg, c_addi4spn, jump_offset, imm6, c_addi, c_lw, c_lwsp, c_ld,
  c_ldsp, c_lui, c_add, c_pair, c_arith, c_sw, c_sd, c_branch, c_swsp, c_sdsp, c_opcode, dispatch16,
  get_code16,
}

-- The alignment that an instruction wants of its offset.
unfoldable pub alignment : Instruction → ℕ
alignment Instruction.lw = 4
alignment Instruction.sw = 4
alignment Instruction.ld = 8
alignment Instruction.sd = 8
alignment Instruction.beq = 2
alignment Instruction.bne = 2
alignment Instruction.jal = 2
alignment _ = 1

pub record IsWellFormed (d : Decoded) : Type 0 where
  pub rd_lt : d.rd < 32
  pub rs1_lt : d.rs1 < 32
  pub rs2_lt : d.rs2 < 32
  pub aligned : d.imm % alignment d.instruction ≡ 0

-- A value below `2 ^ k` that is a multiple of `2 ^ n`, such as a field in place.
record Placed (n k x : ℕ) : Type 0 where
  below : x < 2 ^ k
  multiple : x % 2 ^ n ≡ 0

joined : {n k x y : ℕ} → Placed n k x → Placed n k y → Placed n k (bit_or x y)
joined {n} {k} {x} {y} p q = record {
  below = bit_or-lt k x y p.below q.below;
  multiple =
      rw (bit_or_split n x y, p.multiple, q.multiple)
        (lower-fields n (bit_or (x / 2 ^ n) (y / 2 ^ n)) 0 (pow_pos n));
}

even_jump : (x : ℕ) → Placed 1 12 x → sign_extend 32 x 12 % 2 ≡ 0
even_jump x p =
    ground (arith, sign_extend_lem 32 x 12 (omega arith) (omega arith) (omega arith) (omega arith))

even_branch : (x : ℕ) → Placed 1 9 x → sign_extend 32 x 9 % 2 ≡ 0
even_branch x p =
    ground (arith, sign_extend_lem 32 x 9 (omega arith) (omega arith) (omega arith) (omega arith))

module _ (ir : ℕ) where
  field : (w o n k s : ℕ) → w ≤ 64 → n ≤ s → w + s ≤ k → Placed n k (bitcrop ir w o <<< s)
  field w o n k s hw hn hk = record {
    below = rw (bitcrop_lem ir w o hw) (
        le_trans (mul-lt-mul_of_pos_right (mod-lt (ir / 2 ^ o) (pow_pos w)) (pow_pos s))
          (let e = pow_add w s in rw (← e) (pow-le-pow_right (omega arith) hk)));
    multiple =
        let e : s ≡ (s - n) + n = omega arith in
        rw (e, pow_add (s - n) n)
          (ap (λ (t : ℕ). t % 2 ^ n) {y = bitcrop ir w o * 2 ^ (s - n) * 2 ^ n + 0} (omega arith)
            ∙ lower-fields n (bitcrop ir w o * 2 ^ (s - n)) 0 (pow_pos n));
  }

  -- The same, with its three bounds read off the numerals.
  at :
      (w o n k s : ℕ)
      → (leb w 64 && leb n s && leb (w + s) k) ≡ true
      → Placed n k (bitcrop ir w o <<< s)
  at w o n k s h = field w o n k s (ground arith) (ground arith) (ground arith)

  short : (o : ℕ) → short_reg ir o < 32
  short o = omega (arith, bitcrop_lem ir 3 o (omega arith))

  long : (o : ℕ) → bitcrop ir 5 o < 32
  long o = omega (arith, bitcrop_lem ir 5 o (omega arith))

  jump_offset_lem : jump_offset ir % 2 ≡ 0
  unfolding jump_offset
  jump_offset_lem = even_jump _ (
      joined
        (joined
          (joined
            (joined
              (joined
                (joined (joined (at 1 12 1 12 11 refl) (at 1 11 1 12 4 refl)) (at 2 9 1 12 8 refl))
                (at 1 8 1 12 10 refl))
              (at 1 7 1 12 6 refl))
            (at 1 6 1 12 7 refl))
          (at 3 3 1 12 1 refl))
        (at 1 2 1 12 5 refl))

  c_addi4spn_lem : IsWellFormed (c_addi4spn ir)
  unfolding c_addi4spn alignment
  c_addi4spn_lem = elim (Bool-cases (bitcrop ir 8 5 == 0)) [
    | inl e ↦ rw e (record {
      rd_lt = omega arith;
      rs1_lt = omega arith;
      rs2_lt = omega arith;
      aligned = omega arith;
    })
    | inr e ↦ rw e (record {
      rd_lt = short 2;
      rs1_lt = omega arith;
      rs2_lt = omega arith;
      aligned = omega arith;
    })
  ]

  c_lw_lem : IsWellFormed (c_lw ir)
  unfolding c_lw alignment
  c_lw_lem = record {
    rd_lt = short 2;
    rs1_lt = short 7;
    rs2_lt = omega arith;
    aligned =
        (joined (joined (at 3 10 2 7 3 refl) (at 1 6 2 7 2 refl)) (at 1 5 2 7 6 refl)).multiple;
  }

  c_addi_lem : (opcode mxl : ℕ) → IsWellFormed (c_addi ir opcode mxl)
  unfolding c_addi alignment
  c_addi_lem opcode mxl = elim (Bool-cases (opcode == 0b00101 && mxl == 1)) [
    | inl e ↦ rw e (record {
      rd_lt = omega arith;
      rs1_lt = omega arith;
      rs2_lt = omega arith;
      aligned = jump_offset_lem;
    })
    | inr e ↦ rw e (elim (Bool-cases (opcode >>> 2 == 0)) [
      | inl f ↦
          rw f (record {
            rd_lt = long 7;
            rs1_lt = long 7;
            rs2_lt = omega arith;
            aligned = omega arith;
          })
      | inr f ↦
          rw f (record {
            rd_lt = long 7;
            rs1_lt = long 7;
            rs2_lt = omega arith;
            aligned = omega arith;
          })
    ])
  ]

  c_lwsp_lem : IsWellFormed (c_lwsp ir)
  unfolding c_lwsp alignment
  c_lwsp_lem = record {
    rd_lt = long 7;
    rs1_lt = omega arith;
    rs2_lt = omega arith;
    aligned =
        (joined (joined (at 1 12 2 8 5 refl) (at 3 4 2 8 2 refl)) (at 2 2 2 8 6 refl)).multiple;
  }

  c_ld_lem : IsWellFormed (c_ld ir)
  unfolding c_ld alignment
  c_ld_lem = record {
    rd_lt = short 2;
    rs1_lt = short 7;
    rs2_lt = omega arith;
    aligned = (joined (at 3 10 3 8 3 refl) (at 2 5 3 8 6 refl)).multiple;
  }

  c_ldsp_lem : IsWellFormed (c_ldsp ir)
  unfolding c_ldsp alignment
  c_ldsp_lem = record {
    rd_lt = long 7;
    rs1_lt = omega arith;
    rs2_lt = omega arith;
    aligned =
        (joined (joined (at 1 12 3 9 5 refl) (at 2 5 3 9 3 refl)) (at 3 2 3 9 6 refl)).multiple;
  }

  c_sw_lem : IsWellFormed (c_sw ir)
  unfolding c_sw alignment
  c_sw_lem = record {
    rd_lt = omega arith;
    rs1_lt = short 7;
    rs2_lt = short 2;
    aligned =
        (joined (joined (at 3 10 2 7 3 refl) (at 1 6 2 7 2 refl)) (at 1 5 2 7 6 refl)).multiple;
  }

  c_sd_lem : IsWellFormed (c_sd ir)
  unfolding c_sd alignment
  c_sd_lem = record {
    rd_lt = omega arith;
    rs1_lt = short 7;
    rs2_lt = short 2;
    aligned = (joined (at 3 10 3 8 3 refl) (at 2 5 3 8 6 refl)).multiple;
  }

  c_swsp_lem : IsWellFormed (c_swsp ir)
  unfolding c_swsp alignment
  c_swsp_lem = record {
    rd_lt = omega arith;
    rs1_lt = omega arith;
    rs2_lt = long 2;
    aligned = (joined (at 4 9 2 8 2 refl) (at 2 7 2 8 6 refl)).multiple;
  }

  c_sdsp_lem : IsWellFormed (c_sdsp ir)
  unfolding c_sdsp alignment
  c_sdsp_lem = record {
    rd_lt = omega arith;
    rs1_lt = omega arith;
    rs2_lt = long 2;
    aligned = (joined (at 3 10 3 9 3 refl) (at 3 7 3 9 6 refl)).multiple;
  }

  c_branch_lem : (opcode : ℕ) → IsWellFormed (c_branch ir opcode)
  unfolding c_branch alignment
  c_branch_lem opcode =
      let even = even_branch _ (
        joined
          (joined (joined (joined (at 1 12 1 9 8 refl) (at 2 10 1 9 3 refl)) (at 2 5 1 9 6 refl))
            (at 2 3 1 9 1 refl))
          (at 1 2 1 9 5 refl)) in
      elim (Bool-cases (opcode == 0b11001)) [
        | inl e ↦
            rw e (record {
              rd_lt = omega arith;
              rs1_lt = short 7;
              rs2_lt = omega arith;
              aligned = even;
            })
        | inr e ↦
            rw e (record {
              rd_lt = omega arith;
              rs1_lt = short 7;
              rs2_lt = omega arith;
              aligned = even;
            })
      ]

  c_pair_lem : (i : Instruction) → alignment i ≡ 1 → IsWellFormed (c_pair ir i)
  unfolding c_pair
  c_pair_lem i h = record {
    rd_lt = short 7;
    rs1_lt = short 7;
    rs2_lt = short 2;
    aligned = rw h refl;
  }

  either :
      (b : Bool) {x y : Decoded}
      → IsWellFormed x
      → IsWellFormed y
      → IsWellFormed (if b then x else y)
  either true p q = p
  either false p q = q

  -- An instruction that wants no alignment.
  plain :
      (i : Instruction) {rd rs1 rs2 imm : ℕ}
      → alignment i ≡ 1
      → rd < 32
      → rs1 < 32
      → rs2 < 32
      → IsWellFormed (decoded i rd rs1 rs2 imm)
  plain i h a b c = record { rd_lt = a; rs1_lt = b; rs2_lt = c; aligned = rw h (omega arith) }

  none_lt : 0 < 32
  none_lt = omega arith

  c_lui_lem : IsWellFormed (c_lui ir)
  unfolding c_lui alignment
  c_lui_lem =
      either (bitcrop ir 5 7 == 2)
        (elim (Bool-cases (
          sign_extend 32
            (bit_or
              (bit_or
                (bit_or (bit_or (bitcrop ir 1 12 <<< 9) (bitcrop ir 1 6 <<< 4))
                  (bitcrop ir 1 5 <<< 6))
                (bitcrop ir 2 3 <<< 7))
              (bitcrop ir 1 2 <<< 5))
            10
          == 0)) [
            | inl e ↦ rw e (plain _ refl (long 7) (omega arith) none_lt)
            | inr e ↦ rw e (plain _ refl (long 7) (omega arith) none_lt)
          ])
        (elim (Bool-cases
          (sign_extend 32 (bit_or (bitcrop ir 1 12 <<< 17) (bitcrop ir 5 2 <<< 12)) 18 == 0)) [
            | inl e ↦ rw e (plain _ refl (long 7) none_lt none_lt)
            | inr e ↦ rw e (plain _ refl (long 7) none_lt none_lt)
          ])

  c_add_lem : IsWellFormed (c_add ir)
  unfolding c_add alignment
  c_add_lem =
      either (bitcrop ir 1 12 == 1)
        (either (bitcrop ir 5 2 == 0 && bitcrop ir 5 7 == 0)
          (record {
            rd_lt = omega arith;
            rs1_lt = omega arith;
            rs2_lt = omega arith;
            aligned = omega arith;
          })
          (either (bitcrop ir 5 2 == 0)
            (record {
              rd_lt = omega arith;
              rs1_lt = long 7;
              rs2_lt = omega arith;
              aligned = omega arith;
            })
            (either (bitcrop ir 5 7 == 0)
              (record {
                rd_lt = omega arith;
                rs1_lt = omega arith;
                rs2_lt = omega arith;
                aligned = omega arith;
              })
              (record {
                rd_lt = long 7;
                rs1_lt = long 7;
                rs2_lt = long 2;
                aligned = omega arith;
              }))))
        (either (bitcrop ir 5 2 == 0)
          (record {
            rd_lt = omega arith;
            rs1_lt = long 7;
            rs2_lt = omega arith;
            aligned = omega arith;
          })
          (record { rd_lt = long 7; rs1_lt = omega arith; rs2_lt = long 2; aligned = omega arith }))

  c_arith_lem : IsWellFormed (c_arith ir)
  unfolding c_arith alignment
  c_arith_lem =
      let group = bitcrop ir 3 10 in
      let minor = bitcrop ir 2 5 in
      either (group == 0b011 && minor == 0b11) (c_pair_lem _ refl) (
        either (group == 0b011 && minor == 0b01) (c_pair_lem _ refl) (
          either (group == 0b011 && minor == 0b00) (c_pair_lem _ refl) (
            either (group == 0b011 && minor == 0b10) (c_pair_lem _ refl) (
              either (group == 0b111 && minor == 0b01) (c_pair_lem _ refl) (
                either (group == 0b111 && minor == 0b00) (c_pair_lem _ refl) (
                  either (bitcrop ir 1 11 == 0)
                    (elim (Bool-cases (bitcrop ir 1 10 == 1)) [
                      | inl e ↦ rw e (plain _ refl (short 7) (short 7) none_lt)
                      | inr e ↦ rw e (plain _ refl (short 7) (short 7) none_lt)
                    ])
                    (either (bitcrop ir 1 10 == 0) (plain _ refl (short 7) (short 7) none_lt)
                      (plain _ refl none_lt none_lt none_lt))))))))

  c_slli_lem : IsWellFormed (
      decoded Instruction.slli
        (bitcrop ir 5 7)
        (bitcrop ir 5 7)
        0
        (bit_or (bitcrop ir 1 12 <<< 5) (bitcrop ir 5 2)))
  unfolding alignment
  c_slli_lem = plain Instruction.slli refl (long 7) (long 7) none_lt

  c_li_lem : IsWellFormed (decoded Instruction.addi (bitcrop ir 5 7) 0 0 (imm6 ir))
  unfolding alignment
  c_li_lem = plain Instruction.addi refl (long 7) none_lt none_lt

  c_j_lem : IsWellFormed (decoded Instruction.jal 0 0 0 (jump_offset ir))
  unfolding alignment
  c_j_lem = record {
    rd_lt = none_lt;
    rs1_lt = none_lt;
    rs2_lt = none_lt;
    aligned = jump_offset_lem;
  }

  undecoded_lem : IsWellFormed undecoded
  unfolding alignment
  undecoded_lem = plain Instruction.error refl none_lt none_lt none_lt

  -- Every word decodes to registers below 32 and, for the loads, stores, branches and jumps that
  -- the function can return, to an offset that the access width divides (2 for branches and jumps).
  pub get_code16-IsWellFormed : (mxl : ℕ) → IsWellFormed (get_code16 ir mxl)
  unfolding get_code16 dispatch16 alignment
  get_code16-IsWellFormed mxl =
      let o = c_opcode ir in
      either (o == 0b00000) c_addi4spn_lem (
        either (o == 0b00001 || o == 0b00101) (c_addi_lem o mxl) (
          either (o == 0b00010) c_slli_lem (
            either (o == 0b01000) c_lw_lem (
              either (o == 0b01001) c_li_lem (
                either (o == 0b01010) c_lwsp_lem (
                  either (o == 0b01100) c_ld_lem (
                    either (o == 0b01110) c_ldsp_lem (
                      either (o == 0b01101) c_lui_lem (
                        either (o == 0b10010) c_add_lem (
                          either (o == 0b10001) c_arith_lem (
                            either (o == 0b10101) c_j_lem (
                              either (o == 0b11000) c_sw_lem (
                                either (o == 0b11100) c_sd_lem (
                                  either (o == 0b11001 || o == 0b11101) (c_branch_lem o) (
                                    either (o == 0b11010) c_swsp_lem (
                                      either (o == 0b11110) c_sdsp_lem undecoded_lem))))))))))))))))
