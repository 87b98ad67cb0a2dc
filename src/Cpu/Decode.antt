-- ===== src/Cpu/Decode.antt =====
-- cpu.c: `decode_and_execute`, as a table from opcodes to handlers and their calls.
use psx_emulator_em_c.Base.{ℕ, List, [], ◌∷◌, ◌==◌, if◌then◌else◌}
use psx_emulator_em_c.Cpu.Instruction.{instr_function, instr_subfunction}
use psx_emulator_em_c.Cpu.State.{Machine, Cpu}
use psx_emulator_em_c.Cpu.Alu.{
  op_lui, op_ori, op_andi, op_xori, op_and, op_or, op_xor, op_nor, op_sll, op_srl, op_sra, op_sllv,
  op_srlv, op_srav, op_addiu, op_addu, op_subu, op_slti, op_sltiu, op_slt, op_sltu, op_div, op_divu,
  op_mult, op_multu, op_mflo, op_mfhi, op_mtlo, op_mthi, op_addi, op_add, op_sub,
}
use psx_emulator_em_c.Cpu.LoadStore.{
  op_lw, op_lh, op_lhu, op_lb, op_lbu, op_lwl, op_lwr, op_sw, op_sh, op_sb, op_swl, op_swr, op_lwc2,
  op_swc2,
}
use psx_emulator_em_c.Cpu.Exceptions.{cpu_coprocessor_exception}
use psx_emulator_em_c.Cpu.Control.{
  op_j, op_jal, op_jr, op_jalr, op_beq, op_bne, op_bgtz, op_blez, op_bxx, op_cop0, op_cop2,
  op_syscall, op_break, op_illegal, op_absent_cop, when_cop2,
}

-- A case of the two `switch` statements.
pub data Handler : Type 0 where
  sll srl sra sllv srlv srav jr jalr syscall break mfhi mthi mflo mtlo mult multu div divu : Handler
  add addu sub subu and or xor nor slt sltu : Handler
  bxx j jal beq bne blez bgtz addi addiu slti sltiu andi ori xori lui : Handler
  cop0 cop1 cop2 cop3 : Handler
  lb lh lwl lw lbu lhu lwr sb sh swl sw swr lwc2 swc2 : Handler
  no_coprocessor : ℕ → Handler
  illegal : Handler

-- The cases of the inner `switch`, by the subfunction.
abbrev pub special_table : List (ℕ × Handler)
special_table =
    (0x00, sll)
    ∷ (0x02, srl)
    ∷ (0x03, sra)
    ∷ (0x04, sllv)
    ∷ (0x06, srlv)
    ∷ (0x07, srav)
    ∷ (0x08, jr)
    ∷ (0x09, jalr)
    ∷ (0x0c, syscall)
    ∷ (0x0d, break)
    ∷ (0x10, mfhi)
    ∷ (0x11, mthi)
    ∷ (0x12, mflo)
    ∷ (0x13, mtlo)
    ∷ (0x18, mult)
    ∷ (0x19, multu)
    ∷ (0x1a, div)
    ∷ (0x1b, divu)
    ∷ (0x20, add)
    ∷ (0x21, addu)
    ∷ (0x22, sub)
    ∷ (0x23, subu)
    ∷ (0x24, and)
    ∷ (0x25, or)
    ∷ (0x26, xor)
    ∷ (0x27, nor)
    ∷ (0x2a, slt)
    ∷ (0x2b, sltu)
    ∷ []

-- The other cases of the outer `switch`, by the function.
abbrev pub primary_table : List (ℕ × Handler)
primary_table =
    (0x01, bxx)
    ∷ (0x02, j)
    ∷ (0x03, jal)
    ∷ (0x04, beq)
    ∷ (0x05, bne)
    ∷ (0x06, blez)
    ∷ (0x07, bgtz)
    ∷ (0x08, addi)
    ∷ (0x09, addiu)
    ∷ (0x0a, slti)
    ∷ (0x0b, sltiu)
    ∷ (0x0c, andi)
    ∷ (0x0d, ori)
    ∷ (0x0e, xori)
    ∷ (0x0f, lui)
    ∷ (0x10, cop0)
    ∷ (0x11, cop1)
    ∷ (0x12, cop2)
    ∷ (0x13, cop3)
    ∷ (0x20, lb)
    ∷ (0x21, lh)
    ∷ (0x22, lwl)
    ∷ (0x23, lw)
    ∷ (0x24, lbu)
    ∷ (0x25, lhu)
    ∷ (0x26, lwr)
    ∷ (0x28, sb)
    ∷ (0x29, sh)
    ∷ (0x2a, swl)
    ∷ (0x2b, sw)
    ∷ (0x2e, swr)
    ∷ (0x30, no_coprocessor 0)
    ∷ (0x31, no_coprocessor 1)
    ∷ (0x32, lwc2)
    ∷ (0x33, no_coprocessor 3)
    ∷ (0x38, no_coprocessor 0)
    ∷ (0x39, no_coprocessor 1)
    ∷ (0x3a, swc2)
    ∷ (0x3b, no_coprocessor 3)
    ∷ []

-- The case of a `switch` that a value takes; `op_illegal` is the default.
unfoldable pub dispatch : ℕ → List (ℕ × Handler) → Handler
dispatch key [] = illegal
dispatch key ((k, h) ∷ rest) = if key == k then h else dispatch key rest

unfoldable pub decode : ℕ → Handler
unfolding dispatch
decode op =
    if instr_function op == 0x00
    then dispatch (instr_subfunction op) special_table
    else dispatch (instr_function op) primary_table

module _ {S : Type 0} (m : Machine S) where
  unfoldable pub execute : Handler → Cpu S → ℕ → Cpu S
  execute sll c op = op_sll c op
  execute srl c op = op_srl c op
  execute sra c op = op_sra c op
  execute sllv c op = op_sllv c op
  execute srlv c op = op_srlv c op
  execute srav c op = op_srav c op
  execute jr c op = op_jr c op
  execute jalr c op = op_jalr c op
  execute syscall c op = op_syscall m c op
  execute break c op = op_break m c op
  execute mfhi c op = op_mfhi c op
  execute mthi c op = op_mthi c op
  execute mflo c op = op_mflo c op
  execute mtlo c op = op_mtlo c op
  execute mult c op = op_mult c op
  execute multu c op = op_multu c op
  execute div c op = op_div c op
  execute divu c op = op_divu c op
  execute add c op = op_add m c op
  execute addu c op = op_addu c op
  execute sub c op = op_sub m c op
  execute subu c op = op_subu c op
  execute and c op = op_and c op
  execute or c op = op_or c op
  execute xor c op = op_xor c op
  execute nor c op = op_nor c op
  execute slt c op = op_slt c op
  execute sltu c op = op_sltu c op
  execute bxx c op = op_bxx c op
  execute j c op = op_j c op
  execute jal c op = op_jal c op
  execute beq c op = op_beq c op
  execute bne c op = op_bne c op
  execute blez c op = op_blez c op
  execute bgtz c op = op_bgtz c op
  execute addi c op = op_addi m c op
  execute addiu c op = op_addiu c op
  execute slti c op = op_slti c op
  execute sltiu c op = op_sltiu c op
  execute andi c op = op_andi c op
  execute ori c op = op_ori c op
  execute xori c op = op_xori c op
  execute lui c op = op_lui c op
  execute cop0 c op = op_cop0 m c op
  execute cop1 c op = op_absent_cop m 29 1 c
  execute cop2 c op = when_cop2 m c (op_cop2 m c op)
  execute cop3 c op = op_absent_cop m 31 3 c
  execute lb c op = op_lb m c op
  execute lh c op = op_lh m c op
  execute lwl c op = op_lwl m c op
  execute lw c op = op_lw m c op
  execute lbu c op = op_lbu m c op
  execute lhu c op = op_lhu m c op
  execute lwr c op = op_lwr m c op
  execute sb c op = op_sb m c op
  execute sh c op = op_sh m c op
  execute swl c op = op_swl m c op
  execute sw c op = op_sw m c op
  execute swr c op = op_swr m c op
  execute lwc2 c op = when_cop2 m c (op_lwc2 m c op)
  execute swc2 c op = when_cop2 m c (op_swc2 m c op)
  execute (no_coprocessor n) c op = cpu_coprocessor_exception m c n
  execute illegal c op = op_illegal m c op

  unfoldable pub decode_and_execute : Cpu S → ℕ → Cpu S
  decode_and_execute c op = execute (decode op) c op
