-- ===== src/Channel.antt =====
-- channel.h and channel.c: one DMA channel and its registers.
pub mod Laws
use psx_emulator_em_c.Base.{
  ℕ, ◌+◌, ◌*◌, ◌/◌, ◌%◌, ◌^◌, Bool, true, false, ◌&&◌, Option, none, some, ◌==◌, ◌!=◌,
  if◌then◌else◌, of_bool, u16, u32, ◌<<◌, ◌>>◌, low_bits, bit, test_bit,
}

pub data Direction : Type 0 where
  to_ram from_ram : Direction

pub data Step : Type 0 where
  increment decrement : Step

pub data Sync : Type 0 where
  manual request linked_list : Sync

-- The enumerators' values.
abbrev pub direction_value : Direction → ℕ
direction_value to_ram = 0
direction_value from_ram = 1

abbrev pub step_value : Step → ℕ
step_value increment = 0
step_value decrement = 1

abbrev pub sync_value : Sync → ℕ
sync_value manual = 0
sync_value request = 1
sync_value linked_list = 2

pub record Channel : Type 0 where
  pub enable : Bool
  pub direction : Direction
  pub step : Step
  pub sync : Sync
  pub trigger : Bool
  pub chop : Bool
  pub chop_dma_sz : ℕ
  pub chop_cpu_sz : ℕ
  pub dummy : ℕ
  pub base : ℕ
  pub block_size : ℕ
  pub block_count : ℕ

unfoldable pub channel_init : Channel
channel_init = record {
  enable = false;
  direction = to_ram;
  step = increment;
  sync = manual;
  trigger = false;
  chop = false;
  chop_dma_sz = 0;
  chop_cpu_sz = 0;
  dummy = 0;
  base = 0;
  block_size = 0;
  block_count = 0;
}

-- The source joins the fields by `|`; they take different bits (`IsValid`), so the sum is that.
unfoldable pub channel_control : Channel → ℕ
channel_control ch = u32 (
    direction_value ch.direction
    + step_value ch.step << 1
    + of_bool ch.chop << 8
    + sync_value ch.sync << 9
    + ch.chop_dma_sz << 16
    + ch.chop_cpu_sz << 20
    + of_bool ch.enable << 24
    + of_bool ch.trigger << 28
    + ch.dummy << 29)

abbrev pub sync_of : ℕ → Sync
sync_of n = if n == 0 then manual else if n == 1 then request else linked_list

unfoldable pub channel_set_control : Channel → ℕ → Channel
channel_set_control ch val = record ch {
  direction = if test_bit val 0 then from_ram else to_ram;
  step = if test_bit val 1 then decrement else increment;
  chop = test_bit val 8;
  sync = sync_of (low_bits (val >> 9) 2);
  chop_dma_sz = low_bits (val >> 16) 3;
  chop_cpu_sz = low_bits (val >> 20) 3;
  enable = test_bit val 24;
  trigger = test_bit val 28;
  dummy = low_bits (val >> 29) 2;
}

unfoldable pub channel_set_base : Channel → ℕ → Channel
channel_set_base ch val = record ch { base = low_bits val 24 }

unfoldable pub channel_block_control : Channel → ℕ
channel_block_control ch = u32 (ch.block_count << 16 + ch.block_size)

unfoldable pub channel_set_block_control : Channel → ℕ → Channel
channel_set_block_control ch val = record ch { block_size = u16 val; block_count = u16 (val >> 16) }

abbrev pub is_manual : Sync → Bool
is_manual manual = true
is_manual _ = false

unfoldable pub channel_active : Channel → Bool
channel_active ch = ch.enable && (if is_manual ch.sync then ch.trigger else true)

-- `none` is the return value 0, which leaves `*out` alone.
transfer_size : Sync → Channel → Option ℕ
transfer_size manual ch = some ch.block_size
transfer_size request ch = some (u32 (ch.block_count * ch.block_size))
transfer_size linked_list ch = none

unfoldable pub channel_transfer_size : Channel → Option ℕ
unfolding transfer_size
channel_transfer_size ch = transfer_size ch.sync ch

unfoldable pub channel_done : Channel → Channel
channel_done ch = record ch { enable = false; trigger = false }
