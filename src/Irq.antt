-- ===== src/Irq.antt =====
-- irq.h and irq.c: the interrupt controller's status and mask registers.
pub mod Laws
use psx_emulator_em_c.Base.{
  ℕ, ◌-◌, ◌^◌, Bool, ◌==◌, ◌!=◌, if◌then◌else◌, bit_and, bit_or, not32, u16,
}

-- `Irq`, both fields `uint16_t`.
pub record Irq : Type 0 where
  pub status : ℕ
  pub mask : ℕ

-- `IrqFlag`; the bit positions are those of I_STAT.
pub data IrqFlag : Type 0 where
  irq_vblank irq_gpu irq_cdrom irq_dma irq_timer0 irq_timer1 irq_timer2 irq_sio irq_spu : IrqFlag

abbrev pub flag_bit : IrqFlag → ℕ
flag_bit irq_vblank = 0
flag_bit irq_gpu = 1
flag_bit irq_cdrom = 2
flag_bit irq_dma = 3
flag_bit irq_timer0 = 4
flag_bit irq_timer1 = 5
flag_bit irq_timer2 = 6
flag_bit irq_sio = 7
flag_bit irq_spu = 9

-- The enumerator's value, `1 << n`.
abbrev pub flag_value : IrqFlag → ℕ
flag_value flag = 2 ^ flag_bit flag

unfoldable pub irq_init : Irq
irq_init = record { status = 0; mask = 0 }

unfoldable pub irq_assert : Irq → IrqFlag → Irq
irq_assert irq flag = record irq { status = bit_or irq.status (flag_value flag) }

-- `~(uint16_t)flag` is an `int`; of its bits only the low sixteen meet the status.
unfoldable pub irq_deassert : Irq → IrqFlag → Irq
irq_deassert irq flag = record irq { status = bit_and irq.status (not32 (flag_value flag)) }

unfoldable pub irq_pending : Irq → Bool
irq_pending irq = bit_and irq.status irq.mask != 0

unfoldable pub irq_load32 : Irq → ℕ → ℕ
irq_load32 irq offset = if offset == 0 then irq.status else if offset == 4 then irq.mask else 0

unfoldable pub irq_load16 : Irq → ℕ → ℕ
unfolding irq_load32
irq_load16 irq offset = u16 (irq_load32 irq offset)

-- Writing I_STAT acknowledges: a bit written as 0 is cleared.
unfoldable pub irq_store32 : Irq → ℕ → ℕ → Irq
irq_store32 irq offset val =
    if offset == 0
    then record irq { status = bit_and irq.status (u16 val) }
    else if offset == 4
    then record irq { mask = u16 val }
    else irq

unfoldable pub irq_store16 : Irq → ℕ → ℕ → Irq
unfolding irq_store32
irq_store16 irq offset val = irq_store32 irq offset val
