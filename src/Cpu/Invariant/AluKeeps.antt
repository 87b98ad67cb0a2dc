-- ===== src/Cpu/Invariant/AluKeeps.antt =====
-- The results of the arithmetic handlers are words.
use mathlib.Core.Path.{◌≡◌, refl}
use native.Mathlib.Nat.{div-le_self, mod-le, mod-lt}
use psx_emulator_em_c.Base.{
  ℕ, ◌/◌, ◌^◌, arith, Bool, Option, none, some, of_bool, of_bool-le, bit_and-lt, bit_or-lt,
  bit_xor-lt,
}
use psx_emulator_em_c.Cpu.Instruction.{exc_overflow}
use psx_emulator_em_c.Cpu.State.{Machine, Cpu}
use psx_emulator_em_c.Cpu.Arithmetic.{
  HiLo, add_overflow, sub_overflow, div32, divu32, mult32, multu32, halves,
}
use psx_emulator_em_c.Cpu.Alu.{
  rs, rt, put_hi_lo, set_or_trap, op_lui, op_ori, op_andi, op_xori, op_and, op_or, op_xor, op_nor,
  op_sll, op_srl, op_sra, op_sllv, op_srlv, op_srav, op_addiu, op_addu, op_subu, op_slti, op_sltiu,
  op_slt, op_sltu, op_div, op_divu, op_mult, op_multu, op_mflo, op_mfhi, op_mtlo, op_mthi, op_addi,
  op_add, op_sub,
}
use psx_emulator_em_c.Gte.Words.{IsWord, to_u32-lt}
use psx_emulator_em_c.Cpu.Invariant.Defs.{
  IsValid, cpu_reg-lt, cpu_set_reg-IsValid, stall_muldiv-IsValid, cpu_exception-IsValid,
}

shift_right-lt : (x k : ℕ) → IsWord x → IsWord (x / 2 ^ k)
shift_right-lt x k h = omega (arith, div-le_self x (2 ^ k))

add_overflow-lt : (s t : ℕ) {r : ℕ} → add_overflow s t ≡ some r → IsWord r
unfolding add_overflow
add_overflow-lt s t h = ground arith

sub_overflow-lt : (s t : ℕ) {r : ℕ} → sub_overflow s t ≡ some r → IsWord r
unfolding sub_overflow
sub_overflow-lt s t h = ground arith

of_bool-lt : (b : Bool) → IsWord (of_bool b)
of_bool-lt b = omega (arith, of_bool-le b)

abbrev WordPair : HiLo → Type 0
WordPair r = IsWord r.hi × IsWord r.lo

divu32-words : (n d : ℕ) → IsWord n → WordPair (divu32 n d)
unfolding divu32
divu32-words n d h = ground (arith, div-le_self n d, mod-le n d)

div32-words : (n d : ℕ) → IsWord n → WordPair (div32 n d)
unfolding div32
div32-words n d h = ground (arith)

halves-words : (x : ℕ) → WordPair (halves x)
halves-words x = omega arith

module _ {S : Type 0} {c : Cpu S} (v : IsValid c) (op : ℕ) where
  rs-lt : IsWord (rs c op)
  rs-lt = cpu_reg-lt v _

  rt-lt : IsWord (rt c op)
  rt-lt = cpu_reg-lt v _

  put_hi_lo-IsValid : (r : HiLo) (busy : ℕ) → WordPair r → IsValid (put_hi_lo c r busy)
  put_hi_lo-IsValid r busy w = assumption (w.0, w.1)

  pub op_lui-IsValid : IsValid (op_lui c op)
  unfolding op_lui
  op_lui-IsValid = cpu_set_reg-IsValid v _ _ (omega arith)

  pub op_ori-IsValid : IsValid (op_ori c op)
  unfolding op_ori
  op_ori-IsValid = cpu_set_reg-IsValid v _ _ (bit_or-lt 32 _ _ rs-lt (omega arith))

  pub op_andi-IsValid : IsValid (op_andi c op)
  unfolding op_andi
  op_andi-IsValid = cpu_set_reg-IsValid v _ _ (bit_and-lt 32 _ _ rs-lt (omega arith))

  pub op_xori-IsValid : IsValid (op_xori c op)
  unfolding op_xori
  op_xori-IsValid = cpu_set_reg-IsValid v _ _ (bit_xor-lt 32 _ _ rs-lt (omega arith))

  pub op_and-IsValid : IsValid (op_and c op)
  unfolding op_and
  op_and-IsValid = cpu_set_reg-IsValid v _ _ (bit_and-lt 32 _ _ rs-lt rt-lt)

  pub op_or-IsValid : IsValid (op_or c op)
  unfolding op_or
  op_or-IsValid = cpu_set_reg-IsValid v _ _ (bit_or-lt 32 _ _ rs-lt rt-lt)

  pub op_xor-IsValid : IsValid (op_xor c op)
  unfolding op_xor
  op_xor-IsValid = cpu_set_reg-IsValid v _ _ (bit_xor-lt 32 _ _ rs-lt rt-lt)

  pub op_nor-IsValid : IsValid (op_nor c op)
  unfolding op_nor
  op_nor-IsValid = cpu_set_reg-IsValid v _ _ (omega arith)

  pub op_sll-IsValid : IsValid (op_sll c op)
  unfolding op_sll
  op_sll-IsValid = cpu_set_reg-IsValid v _ _ (mod-lt _ (omega arith))

  pub op_srl-IsValid : IsValid (op_srl c op)
  unfolding op_srl
  op_srl-IsValid = cpu_set_reg-IsValid v _ _ (shift_right-lt _ _ rt-lt)

  pub op_sra-IsValid : IsValid (op_sra c op)
  unfolding op_sra
  op_sra-IsValid = cpu_set_reg-IsValid v _ _ (to_u32-lt _)

  pub op_sllv-IsValid : IsValid (op_sllv c op)
  unfolding op_sllv
  op_sllv-IsValid = cpu_set_reg-IsValid v _ _ (mod-lt _ (omega arith))

  pub op_srlv-IsValid : IsValid (op_srlv c op)
  unfolding op_srlv
  op_srlv-IsValid = cpu_set_reg-IsValid v _ _ (shift_right-lt _ _ rt-lt)

  pub op_srav-IsValid : IsValid (op_srav c op)
  unfolding op_srav
  op_srav-IsValid = cpu_set_reg-IsValid v _ _ (to_u32-lt _)

  pub op_addiu-IsValid : IsValid (op_addiu c op)
  unfolding op_addiu
  op_addiu-IsValid = cpu_set_reg-IsValid v _ _ (omega arith)

  pub op_addu-IsValid : IsValid (op_addu c op)
  unfolding op_addu
  op_addu-IsValid = cpu_set_reg-IsValid v _ _ (omega arith)

  pub op_subu-IsValid : IsValid (op_subu c op)
  unfolding op_subu
  op_subu-IsValid = cpu_set_reg-IsValid v _ _ (omega arith)

  pub op_slti-IsValid : IsValid (op_slti c op)
  unfolding op_slti
  op_slti-IsValid = cpu_set_reg-IsValid v _ _ (of_bool-lt _)

  pub op_sltiu-IsValid : IsValid (op_sltiu c op)
  unfolding op_sltiu
  op_sltiu-IsValid = cpu_set_reg-IsValid v _ _ (of_bool-lt _)

  pub op_slt-IsValid : IsValid (op_slt c op)
  unfolding op_slt
  op_slt-IsValid = cpu_set_reg-IsValid v _ _ (of_bool-lt _)

  pub op_sltu-IsValid : IsValid (op_sltu c op)
  unfolding op_sltu
  op_sltu-IsValid = cpu_set_reg-IsValid v _ _ (of_bool-lt _)

  pub op_div-IsValid : IsValid (op_div c op)
  unfolding op_div
  op_div-IsValid = put_hi_lo-IsValid _ _ (div32-words _ _ rs-lt)

  pub op_divu-IsValid : IsValid (op_divu c op)
  unfolding op_divu
  op_divu-IsValid = put_hi_lo-IsValid _ _ (divu32-words _ _ rs-lt)

  pub op_mult-IsValid : IsValid (op_mult c op)
  unfolding op_mult mult32
  op_mult-IsValid = put_hi_lo-IsValid _ _ (halves-words _)

  pub op_multu-IsValid : IsValid (op_multu c op)
  unfolding op_multu multu32
  op_multu-IsValid = put_hi_lo-IsValid _ _ (halves-words _)

  pub op_mflo-IsValid : IsValid (op_mflo c op)
  unfolding op_mflo
  op_mflo-IsValid = let w = stall_muldiv-IsValid v in cpu_set_reg-IsValid w _ _ w.lo_word

  pub op_mfhi-IsValid : IsValid (op_mfhi c op)
  unfolding op_mfhi
  op_mfhi-IsValid = let w = stall_muldiv-IsValid v in cpu_set_reg-IsValid w _ _ w.hi_word

  pub op_mtlo-IsValid : IsValid (op_mtlo c op)
  unfolding op_mtlo
  op_mtlo-IsValid = assumption (rs-lt)

  pub op_mthi-IsValid : IsValid (op_mthi c op)
  unfolding op_mthi
  op_mthi-IsValid = assumption (rs-lt)

module _ {S : Type 0} (m : Machine S) {c : Cpu S} (v : IsValid c) (op : ℕ) where
  set_or_trap-IsValid :
      (o : Option ℕ) (idx : ℕ) → ((r : ℕ) → o ≡ some r → IsWord r) → IsValid (set_or_trap m o c idx)
  unfolding set_or_trap
  set_or_trap-IsValid none idx w = cpu_exception-IsValid m v exc_overflow
  set_or_trap-IsValid (some r) idx w = cpu_set_reg-IsValid v idx r (w r refl)

  pub op_addi-IsValid : IsValid (op_addi m c op)
  unfolding op_addi
  op_addi-IsValid = set_or_trap-IsValid _ _ (λ r e. add_overflow-lt _ _ e)

  pub op_add-IsValid : IsValid (op_add m c op)
  unfolding op_add
  op_add-IsValid = set_or_trap-IsValid _ _ (λ r e. add_overflow-lt _ _ e)

  pub op_sub-IsValid : IsValid (op_sub m c op)
  unfolding op_sub
  op_sub-IsValid = set_or_trap-IsValid _ _ (λ r e. sub_overflow-lt _ _ e)
