-- ===== src/Channel/Laws.antt =====
-- The channel's registers: what a write stores, and what a read gives back.
use psx_emulator_em_c.Base.{
  Option, ℕ, ◌+◌, ◌*◌, ◌^◌, ◌<◌, ◌≤◌, ◌≡◌, arith, Bool, true, false, if◌then◌else◌, ◌==◌, of_bool,
  of_bool-le, min, none, some, bit, low_bits, ◌<<◌, ◌>>◌, u32,
}
use psx_emulator_em_c.Channel.{
  Channel, manual, request, linked_list, channel_control, channel_set_control, channel_set_base,
  channel_block_control, channel_set_block_control, channel_transfer_size, channel_done,
  direction_value, step_value, sync_value, sync_of, Sync, Direction, Step, to_ram, from_ram,
  increment, decrement,
}

-- The widths of the fields.
pub record IsValid (ch : Channel) : Type 0 where
  pub chop_dma_small : ch.chop_dma_sz < 8
  pub chop_cpu_small : ch.chop_cpu_sz < 8
  pub dummy_small : ch.dummy < 4
  pub base_small : ch.base < 2 ^ 24
  pub size_half : ch.block_size < 2 ^ 16
  pub count_half : ch.block_count < 2 ^ 16

-- Every write of a register keeps the widths.
pub channel_set-IsValid :
    {ch : Channel} (val : ℕ)
    → IsValid ch
    → IsValid (channel_set_control ch val)
      × IsValid (channel_set_base ch val)
      × IsValid (channel_set_block_control ch val)
      × IsValid (channel_done ch)
unfolding channel_set_control channel_set_base channel_set_block_control channel_done
channel_set-IsValid val v = ground arith

-- Each field of the control register, from its bits and back.
of_bool-test : (x : ℕ) → x < 2 → of_bool (x == 1) ≡ x
of_bool-test x h = ground arith

test-of_bool : (b : Bool) (x : ℕ) → x ≡ of_bool b → (x == 1) ≡ b
test-of_bool true x h = ground arith
test-of_bool false x h = ground arith

direction-test : (x : ℕ) → x < 2 → direction_value (if x == 1 then from_ram else to_ram) ≡ x
direction-test x h = ground arith

test-direction :
    (d : Direction) (x : ℕ) → x ≡ direction_value d → (if x == 1 then from_ram else to_ram) ≡ d
test-direction to_ram x h = ground arith
test-direction from_ram x h = ground arith

step-test : (x : ℕ) → x < 2 → step_value (if x == 1 then decrement else increment) ≡ x
step-test x h = ground arith

test-step : (d : Step) (x : ℕ) → x ≡ step_value d → (if x == 1 then decrement else increment) ≡ d
test-step increment x h = ground arith
test-step decrement x h = ground arith

sync_of-sync_value : (m : Sync) (x : ℕ) → x ≡ sync_value m → sync_of x ≡ m
sync_of-sync_value manual x h = ground arith
sync_of-sync_value request x h = ground arith
sync_of-sync_value linked_list x h = ground arith

sync_value-le : (m : Sync) → sync_value m ≤ 2
sync_value-le manual = omega arith
sync_value-le _ = omega arith

direction_value-le : (d : Direction) → direction_value d ≤ 1
direction_value-le to_ram = omega arith
direction_value-le _ = omega arith

step_value-le : (d : Step) → step_value d ≤ 1
step_value-le increment = omega arith
step_value-le _ = omega arith

-- What is read from the control register after a write: the written bits 0, 1, 8, 16 to 18, 20 to
-- 22, 24 and 28 to 30, and the written bits 9 and 10 with the sync value 3 turned into 2; all other
-- bits read as 0.
pub channel_control-channel_set_control :
    (ch : Channel) (val : ℕ)
    → channel_control (channel_set_control ch val)
      ≡ low_bits val 2
        + bit val 8 << 8
        + min (low_bits (val >> 9) 2) 2 << 9
        + low_bits (val >> 16) 3 << 16
        + low_bits (val >> 20) 3 << 20
        + bit val 24 << 24
        + low_bits (val >> 28) 3 << 28
unfolding channel_control channel_set_control
channel_control-channel_set_control ch val =
    rw
      (
        direction-test (bit val 0) (omega arith),
        step-test (bit val 1) (omega arith),
        of_bool-test (bit val 8) (omega arith),
        of_bool-test (bit val 24) (omega arith),
        of_bool-test (bit val 28) (omega arith),
        sync-clamp (low_bits (val >> 9) 2) (omega arith),
      )
      (omega arith)
  where
    sync-clamp : (x : ℕ) → x < 4 → sync_value (sync_of x) ≡ min x 2
    sync-clamp x h = ground arith

set_control-of_bits :
    (ch : Channel) (val : ℕ)
    → bit val 0 ≡ direction_value ch.direction
    → bit val 1 ≡ step_value ch.step
    → bit val 8 ≡ of_bool ch.chop
    → low_bits (val >> 9) 2 ≡ sync_value ch.sync
    → low_bits (val >> 16) 3 ≡ ch.chop_dma_sz
    → low_bits (val >> 20) 3 ≡ ch.chop_cpu_sz
    → bit val 24 ≡ of_bool ch.enable
    → bit val 28 ≡ of_bool ch.trigger
    → low_bits (val >> 29) 2 ≡ ch.dummy
    → channel_set_control ch val ≡ ch
unfolding channel_set_control
set_control-of_bits ch val d st co sy dm cp en tr du = rw (
  test-direction ch.direction (bit val 0) d,
  test-step ch.step (bit val 1) st,
  test-of_bool ch.chop (bit val 8) co,
  sync_of-sync_value ch.sync (low_bits (val >> 9) 2) sy,
  dm,
  cp,
  test-of_bool ch.enable (bit val 24) en,
  test-of_bool ch.trigger (bit val 28) tr,
  du,
)

-- Writing back what was read changes nothing, for a channel whose two chopping sizes have 3 bits and
-- whose unknown field has 2, with a base of 24 bits and two block counts of 16.
pub channel_set_control-channel_control :
    (ch : Channel) → IsValid ch → channel_set_control ch (channel_control ch) ≡ ch
unfolding channel_control
channel_set_control-channel_control ch v =
    let d = direction_value-le ch.direction in
    let st = step_value-le ch.step in
    let sy = sync_value-le ch.sync in
    let co = of_bool-le ch.chop in
    let en = of_bool-le ch.enable in
    let tr = of_bool-le ch.trigger in
    set_control-of_bits ch (channel_control ch) (omega arith) (omega arith) (omega arith)
      (omega arith) (omega arith) (omega arith) (omega arith) (omega arith) (omega arith)

-- What a transfer's size is to be, by the mode, for a block register that holds `val`.
abbrev pub size_in : Sync → ℕ → Option ℕ
size_in manual val = some (low_bits val 16)
size_in request val = some (u32 ((val >> 16) * low_bits val 16))
size_in linked_list val = none

-- The block register reads back as the 32-bit word that was written, and a transfer's size is what its
-- mode says: the low half of the word, the product of its halves modulo 2^32, or none for a linked
-- list.
pub channel_transfer_size-set_block :
    (ch : Channel) (val : ℕ)
    → val < 2 ^ 32
    → let ch' = channel_set_block_control ch val in
      (channel_block_control ch' ≡ val) × (channel_transfer_size ch' ≡ size_in ch.sync val)
unfolding channel_set_block_control channel_block_control channel_transfer_size
channel_transfer_size-set_block ch val h = (omega arith, ground arith)
