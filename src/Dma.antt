-- ===== src/Dma.antt =====
-- dma.h and dma.c: the DMA controller's control and interrupt registers and its channels.
pub mod Laws
use psx_emulator_em_c.Base.{
  ℕ, ◌+◌, ◌-◌, ◌*◌, ◌/◌, ◌%◌, ◌^◌, Bool, true, false, ◌&&◌, ◌||◌, Option, none, some, List, [], ◌∷◌,
  ◌==◌, ◌!=◌, if◌then◌else◌, of_bool, get_or, replicate, u8, u32, ◌<<◌, ◌>>◌, low_bits, bit,
  test_bit, set_bit, bit_and, not32,
}
use psx_emulator_em_c.Irq.{Irq, irq_dma, irq_assert}
use psx_emulator_em_c.Channel.{Channel, channel_init}

pub data Port : Type 0 where
  port_mdec_in port_mdec_out port_gpu port_cdrom port_spu port_pio port_otc : Port

abbrev pub port_value : Port → ℕ
port_value port_mdec_in = 0
port_value port_mdec_out = 1
port_value port_gpu = 2
port_value port_cdrom = 3
port_value port_spu = 4
port_value port_pio = 5
port_value port_otc = 6

-- `none` is the call of `exit(1)`.
unfoldable pub port_from_index : ℕ → Option Port
port_from_index index =
    if index == 0
    then some port_mdec_in
    else if index == 1
    then some port_mdec_out
    else if index == 2
    then some port_gpu
    else if index == 3
    then some port_cdrom
    else if index == 4
    then some port_spu
    else if index == 5
    then some port_pio
    else if index == 6
    then some port_otc
    else none

pub record Dma : Type 0 where
  pub control : ℕ
  pub irq_en : Bool
  pub channel_irq_en : ℕ
  pub channel_irq_flags : ℕ
  pub force_irq : Bool
  pub irq_line : Bool
  pub irq_pending : Bool
  pub irq_dummy : ℕ
  pub channels : List Channel

unfoldable pub dma_init : Dma
unfolding channel_init
dma_init = record {
  control = 0x07654321;
  irq_en = false;
  channel_irq_en = 0;
  channel_irq_flags = 0;
  force_irq = false;
  irq_line = false;
  irq_pending = false;
  irq_dummy = 0;
  channels = replicate 7 channel_init;
}

unfoldable pub dma_set_control : Dma → ℕ → Dma
dma_set_control dma val = record dma { control = val }

unfoldable pub dma_irq : Dma → Bool
dma_irq dma = dma.force_irq || dma.irq_en && bit_and dma.channel_irq_flags dma.channel_irq_en != 0

unfoldable pub dma_irq_pending : Dma → Bool
unfolding dma_irq
dma_irq_pending dma = dma_irq dma

-- The source joins the fields by `|`; they take different bits (`IsValid`), so the sum is that.
unfoldable pub dma_interrupt : Dma → ℕ
unfolding dma_irq
dma_interrupt dma = u32 (
    dma.irq_dummy
    + of_bool dma.force_irq << 15
    + dma.channel_irq_en << 16
    + of_bool dma.irq_en << 23
    + dma.channel_irq_flags << 24
    + of_bool (dma_irq dma) << 31)

unfoldable pub dma_set_interrupt : Dma → ℕ → Dma
dma_set_interrupt dma val =
    let ack = low_bits (val >> 24) 7 in
    record dma {
      irq_dummy = low_bits val 6;
      force_irq = test_bit val 15;
      channel_irq_en = low_bits (val >> 16) 7;
      irq_en = test_bit val 23;
      channel_irq_flags = u8 (bit_and dma.channel_irq_flags (not32 ack));
    }

unfoldable pub dma_mark_channel_done : Dma → Port → Dma
dma_mark_channel_done dma port =
    if dma.irq_en && test_bit dma.channel_irq_en (port_value port)
    then record dma { channel_irq_flags = set_bit dma.channel_irq_flags (port_value port) }
    else dma

unfoldable pub dma_step : Dma → Irq → Dma × Irq
dma_step dma irq =
    if dma.irq_pending
    then (record dma { irq_pending = false }, irq_assert irq irq_dma)
    else (dma, irq)

unfoldable pub dma_channel : Dma → Port → Channel
dma_channel dma port = get_or dma.channels (port_value port) channel_init
