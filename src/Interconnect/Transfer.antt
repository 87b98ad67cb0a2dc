-- ===== src/Interconnect/Transfer.antt =====
-- interconnect.c: the DMA transfers, between main memory and a device.
use psx_emulator_em_c.Base.{
  ℕ, zero, suc, ◌+◌, ◌/◌, ◌^◌, Bool, true, false, ◌&&◌, ◌||◌, not, Option, none, some, List, [],
  ◌∷◌, ◌==◌, if◌then◌else◌, set, ◌>>◌, low_bits, clear_low, test_bit, add32, sub32,
}
use psx_emulator_em_c.Scheduler.{
  EventType, index, event_dma0, event_dma1, event_dma2, event_dma3, event_dma4, event_dma5,
  event_dma6,
}
use psx_emulator_em_c.Channel.{
  Channel, Direction, to_ram, from_ram, Step, increment, decrement, Sync, linked_list,
  channel_transfer_size, channel_active, channel_done,
}
use psx_emulator_em_c.Dma.{
  Dma, Port, port_mdec_in, port_mdec_out, port_gpu, port_cdrom, port_spu, port_pio, port_otc,
  port_value, dma_channel, dma_irq_pending, dma_mark_channel_done,
}
use psx_emulator_em_c.Ram.{◌>>=◌, ram_load32, ram_store32}
use psx_emulator_em_c.Interconnect.{Interconnect, Devices}

abbrev pub is_port : Port → Port → Bool
is_port a b = port_value a == port_value b

-- `addr & 0x001FFFFC`.
abbrev pub word_address : ℕ → ℕ
word_address addr = clear_low (low_bits addr 21) 2

abbrev pub put_channel : Dma → Port → Channel → Dma
put_channel dma port ch = record dma { channels = set dma.channels (port_value port) ch }

unfoldable pub dma_event_for_port : Port → EventType
dma_event_for_port port_mdec_in = event_dma0
dma_event_for_port port_mdec_out = event_dma1
dma_event_for_port port_gpu = event_dma2
dma_event_for_port port_cdrom = event_dma3
dma_event_for_port port_spu = event_dma4
dma_event_for_port port_pio = event_dma5
dma_event_for_port port_otc = event_dma6

-- `dma_update_irq` and `dma_finish` change the controller only.
unfoldable pub dma_update_irq : Dma → Dma
dma_update_irq dma =
    let pending = dma_irq_pending dma in
    record dma {
      irq_pending = if pending && not dma.irq_line then true else dma.irq_pending;
      irq_line = pending;
    }

unfoldable pub dma_finish : Dma → Port → Dma
dma_finish dma port =
    let dma = put_channel dma port (channel_done (dma_channel dma port)) in
    dma_update_irq (dma_mark_channel_done dma port)

abbrev pub is_linked_list : Sync → Bool
is_linked_list linked_list = true
is_linked_list _ = false

abbrev pub is_to_ram : Direction → Bool
is_to_ram to_ram = true
is_to_ram from_ram = false

abbrev pub next_address : Step → ℕ → ℕ
next_address increment addr = add32 addr 4
next_address decrement addr = sub32 addr 4

-- The words that a block of `remsz` words moves: MDEC_OUT takes its count for an empty size.
unfoldable pub block_words : Port → Channel → ℕ → ℕ
block_words port ch remsz =
    if remsz == 0 && is_port port port_mdec_out
    then (if ch.block_count == 0 then ch.block_size else ch.block_count)
    else remsz

abbrev pub at_least_one : ℕ → ℕ
at_least_one words = if words == 0 then 1 else words

-- `visited` holds one bit for each word of memory.
abbrev pub mark : (ℕ → Bool) → ℕ → ℕ → Bool
mark visited i j = if i == j then true else visited j

abbrev pub list_fuel : ℕ
list_fuel = suc (2 ^ 19)

-- Where the words of a packet end, how many words were counted, and the devices.
pub record Packet (D : Type 0) : Type 0 where
  pub addr : ℕ
  pub words : ℕ
  pub devices : D

module _ {D : Type 0} (dev : Devices D) where
  open dev use {
    gpu_read, gpu_gp0, gpu_add_busy_cycles, spu_dma_write, spu_dma_read, cdrom_dma_read,
    mdec_dma_write, mdec_dma_read,
  }

  -- The `switch` for a word from memory. `none` is the `default` label, which ends the loop.
  unfoldable pub deliver : Port → D → ℕ → Option D
  deliver port_mdec_in d src = some (mdec_dma_write d src)
  deliver port_gpu d src = some (gpu_gp0 d src)
  deliver port_spu d src = some (spu_dma_write d src)
  deliver port_otc d src = some d
  deliver _ d src = none

  -- The `switch` for a word to memory, `remsz` words before the end.
  unfoldable pub obtain : Port → D → ℕ → ℕ → ℕ × D
  obtain port_mdec_out d addr remsz = mdec_dma_read d
  obtain port_otc d addr remsz = (if remsz == 1 then 0x00ff_ffff else low_bits (sub32 addr 4) 21, d)
  obtain port_cdrom d addr remsz = cdrom_dma_read d
  obtain port_gpu d addr remsz = gpu_read d
  obtain port_spu d addr remsz = spu_dma_read d
  obtain _ d addr remsz = (0xffff_ffff, d)

  -- The loop of `do_dma_block`, on the words that remain.
  unfoldable pub block_loop :
      Port → Direction → Step → ℕ → ℕ → Interconnect D → Option (Interconnect D)
  block_loop port direction step zero addr inter = some inter
  block_loop port from_ram step (suc n) addr inter = do
    src ← ram_load32 inter.ram (word_address addr)
    elim (deliver port inter.devices src) [
      | some d ↦
          block_loop port from_ram step n (next_address step addr) (record inter { devices = d })
      | none ↦ some inter
    ]
  block_loop port to_ram step (suc n) addr inter =
      let (src, d) = obtain port inter.devices addr (suc n) in
      do
        ram ← ram_store32 inter.ram (word_address addr) src
        block_loop port to_ram step n (next_address step addr)
            (record inter { ram = ram; devices = d })

  unfoldable pub do_dma_block : Interconnect D → Port → Option (ℕ × Interconnect D)
  do_dma_block inter port =
      let ch = dma_channel inter.dma port in
      elim (channel_transfer_size ch) [
        | none ↦ some (1, inter)
        | some size ↦ do
          let words = block_words port ch size
          inter ← block_loop port ch.direction ch.step words ch.base inter
          some (at_least_one words, inter)
      ]

  -- The inner loop of `do_dma_linked_list`: the words of one packet go to GP0.
  unfoldable pub packet_loop : ℕ → Interconnect D → Packet D → Option (Packet D)
  packet_loop zero inter p = some p
  packet_loop (suc n) inter p = do
    let addr = word_address (p.addr + 4)
    word ← ram_load32 inter.ram addr
    packet_loop n inter
        (record { addr = addr; words = add32 p.words 1; devices = gpu_gp0 p.devices word })

  -- The outer loop. Each round that does not end it marks one more word of the memory, so its
  -- size in words and one more are fuel enough.
  unfoldable pub list_loop :
      ℕ → (ℕ → Bool) → Interconnect D → Packet D → Option (ℕ × Interconnect D)
  list_loop zero visited inter p = none
  list_loop (suc fuel) visited inter p = elim (visited (p.addr >> 2)) [
    | true ↦ some (at_least_one p.words, record inter { devices = p.devices })
    | false ↦ do
      header ← ram_load32 inter.ram p.addr
      q ← packet_loop (header >> 24) inter (record p { words = add32 p.words 1 })
      elim (test_bit header 23) [
        | true ↦ some (q.words, record inter { devices = q.devices })
        | false ↦
            list_loop fuel (mark visited (p.addr >> 2)) inter
              (record q { addr = word_address header })
      ]
  ]

  unfoldable pub do_dma_linked_list : Interconnect D → Port → Option (ℕ × Interconnect D)
  do_dma_linked_list inter port =
      let ch = dma_channel inter.dma port in
      elim (is_to_ram ch.direction || not (is_port port port_gpu)) [
        | true ↦ some (1, inter)
        | false ↦
            list_loop list_fuel (λ i. false) inter
              (record { addr = word_address ch.base; words = 0; devices = inter.devices })
      ]

  -- The GPU is busy for the length of the transfer.
  abbrev busy : Port → Bool → ℕ → D → D
  busy port listed words d =
      if is_port port port_gpu
      then gpu_add_busy_cycles d (if listed then add32 words 16 else words / 4 + 16)
      else d

  unfoldable pub do_dma : Interconnect D → Port → Option (Interconnect D)
  do_dma inter port =
      let listed =
        not (is_port port port_otc) && is_linked_list (dma_channel inter.dma port).sync in
      do
        r ← elim listed [ true ↦ do_dma_linked_list inter port | false ↦ do_dma_block inter port ]
        some (record (r.1) {
          devices = busy port listed r.0 (r.1).devices;
          dma = dma_finish (r.1).dma port;
        })

-- The loop of `interconnect_on_scheduler_events` over the ports.
unfoldable pub finish_ports : List Port → ℕ → Dma → Dma
finish_ports [] fired dma = dma
finish_ports (port ∷ ports) fired dma = finish_ports ports fired (
    if test_bit fired (index (dma_event_for_port port)) && channel_active (dma_channel dma port)
    then dma_finish dma port
    else dma)

abbrev pub all_ports : List Port
all_ports =
    port_mdec_in ∷ port_mdec_out ∷ port_gpu ∷ port_cdrom ∷ port_spu ∷ port_pio ∷ port_otc ∷ []

unfoldable pub interconnect_on_scheduler_events : {D : Type 0} → Interconnect D → ℕ → Interconnect D
interconnect_on_scheduler_events inter fired = record inter {
  dma = finish_ports all_ports fired inter.dma;
}
