-- ===== src/Cpu/Invariant/Defs.antt =====
-- What a well-formed core is, and what the helpers of cpu.c keep of it.
use mathlib.Core.Path.{◌≡◌}
use psx_emulator_em_c.Base.{
  ℕ, ◌^◌, ◌<◌, arith, List, length, get_or, set, length-set, get_or-set_self, All, All-get_or,
  All-set,
}
use psx_emulator_em_c.Gte.{Gte}
use psx_emulator_em_c.Gte.Words.{IsWord, IsGte}
use psx_emulator_em_c.Cpu.Instruction.{Exception, exc_interrupt, code, instr_imm_se}
use psx_emulator_em_c.Cpu.State.{
  Machine, Cpu, set_reg, cpu_reg, cpu_set_reg, cpu_branch, cpu_stall_until_gte_complete,
  cpu_stall_until_muldiv_complete, cpu_finish_instruction_cycles,
}
use psx_emulator_em_c.Cpu.Exceptions.{
  cpu_external_irq_cause, cause_word, cpu_exception_with_ce, cpu_exception, address_error,
}

-- A register file: 32 words, the first of which is 0.
pub record IsRegs (rs : List ℕ) : Type 0 where
  pub count : length rs ≡ 32
  pub words : All IsWord rs
  pub zero_reg : get_or rs 0 0 ≡ 0

pub record IsValid {S : Type 0} (c : Cpu S) : Type 0 where
  pub regs_valid : IsRegs c.regs
  pub out_valid : IsRegs c.out_regs
  pub gte_valid : IsGte c.gte
  pub pc_word : IsWord c.pc
  pub next_pc_word : IsWord c.next_pc
  pub sr_word : IsWord c.sr
  pub badvaddr_word : IsWord c.badvaddr
  pub current_pc_word : IsWord c.current_pc
  pub cause_word : IsWord c.cause
  pub epc_word : IsWord c.epc
  pub load_reg_small : c.load_reg < 32
  pub load_val_word : IsWord c.load_val
  pub hi_word : IsWord c.hi
  pub lo_word : IsWord c.lo

-- What the core relies on: the interconnect answers in the width that was asked for, and a
-- command of the geometry coprocessor leaves a register file behind.
pub record IsMachine {S : Type 0} (m : Machine S) : Type 0 where
  pub load32_word : (s : S) (a : ℕ) → (m.load32 s a).0 < 2 ^ 32
  pub load16_half : (s : S) (a : ℕ) → (m.load16 s a).0 < 2 ^ 16
  pub load8_byte : (s : S) (a : ℕ) → (m.load8 s a).0 < 2 ^ 8
  pub execute_gte : (g : Gte) (cmd : ℕ) → IsGte g → IsGte (m.gte_execute g cmd)

pub set_reg-IsRegs :
    {rs : List ℕ} (idx val : ℕ) → IsRegs rs → IsWord val → IsRegs (set_reg rs idx val)
set_reg-IsRegs {rs} idx val r w =
    let once : length (set rs idx val) ≡ 32 = omega (arith, length-set rs idx val, r.count) in
    record {
      count = omega (arith, once, length-set (set rs idx val) 0 0);
      words =
          All-set IsWord (set rs idx val) 0 0 (All-set IsWord rs idx val r.words w) (omega arith);
      zero_reg = get_or-set_self (set rs idx val) 0 0 0 (omega (arith, once));
    }

pub instr_imm_se-lt : (op : ℕ) → IsWord (instr_imm_se op)
unfolding instr_imm_se
instr_imm_se-lt op = ground arith

module _ {S : Type 0} {c : Cpu S} (v : IsValid c) where
  pub cpu_reg-lt : (idx : ℕ) → IsWord (cpu_reg c idx)
  cpu_reg-lt idx = All-get_or IsWord c.regs idx 0 v.regs_valid.words (omega arith)

  pub out_reg-lt : (idx : ℕ) → IsWord (get_or c.out_regs idx 0)
  out_reg-lt idx = All-get_or IsWord c.out_regs idx 0 v.out_valid.words (omega arith)

  pub cpu_set_reg-IsValid : (idx val : ℕ) → IsWord val → IsValid (cpu_set_reg c idx val)
  unfolding cpu_set_reg
  cpu_set_reg-IsValid idx val w = assumption (set_reg-IsRegs idx val v.out_valid w)

  pub cpu_branch-IsValid : (offset : ℕ) → IsValid (cpu_branch c offset)
  unfolding cpu_branch
  cpu_branch-IsValid offset = ground arith

  pub stall_gte-IsValid : IsValid (cpu_stall_until_gte_complete c)
  unfolding cpu_stall_until_gte_complete
  stall_gte-IsValid = ground arith

  pub stall_muldiv-IsValid : IsValid (cpu_stall_until_muldiv_complete c)
  unfolding cpu_stall_until_muldiv_complete
  stall_muldiv-IsValid = ground arith

  pub finish-IsValid : (base : ℕ) → IsValid (cpu_finish_instruction_cycles c base).1
  unfolding cpu_finish_instruction_cycles
  finish-IsValid base = ground arith

pub code-lt : (e : Exception) → code e < 16
code-lt exc_interrupt = omega arith
code-lt _ = omega arith

module _ {S : Type 0} (m : Machine S) where
  cause_word-lt : (c : Cpu S) (e : Exception) (n : ℕ) → cause_word m c e n < 2 ^ 31
  unfolding cpu_external_irq_cause
  cause_word-lt c e n = ground (arith, code-lt e)

  pub cpu_exception_with_ce-IsValid :
      {c : Cpu S} → IsValid c → (e : Exception) (n : ℕ) → IsValid (cpu_exception_with_ce m c e n)
  unfolding cpu_exception_with_ce
  cpu_exception_with_ce-IsValid {c} v e n = ground (arith, cause_word-lt c e n)

  pub cpu_exception-IsValid :
      {c : Cpu S} → IsValid c → (e : Exception) → IsValid (cpu_exception m c e)
  unfolding cpu_exception
  cpu_exception-IsValid v e = cpu_exception_with_ce-IsValid v e 0

  pub address_error-IsValid :
      {c : Cpu S} {addr : ℕ}
      → IsValid c
      → IsWord addr
      → (e : Exception) → IsValid (address_error m c addr e)
  unfolding address_error
  address_error-IsValid {c} {addr} v w e =
      let at_fault : IsValid (record c { badvaddr = addr }) = assumption w in
      cpu_exception-IsValid at_fault e
