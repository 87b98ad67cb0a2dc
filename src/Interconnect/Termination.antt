-- ===== src/Interconnect/Termination.antt =====
-- interconnect.c: every DMA transfer ends, and stays inside main memory.
use psx_emulator_em_c.Base.{
  ℕ, zero, suc, ◌+◌, ◌^◌, ◌<◌, ◌≤◌, ◌≡◌, refl, ap, ◌∙◌, arith, Bool, false, ◌&&◌, ◌||◌, not, some,
  Bool-cases, inl, inr, ◌>>◌, test_bit, add32,
}
use psx_emulator_em_c.Channel.{Direction, to_ram, from_ram, Step, channel_transfer_size}
use psx_emulator_em_c.Dma.{Dma, Port, port_gpu, port_otc, dma_channel}
use psx_emulator_em_c.Ram.{◌>>=◌}
use psx_emulator_em_c.Interconnect.{Interconnect, Devices}
use psx_emulator_em_c.Interconnect.Transfer.{
  word_address, mark, deliver, obtain, block_loop, block_words, do_dma_block, Packet, packet_loop,
  list_loop, list_fuel, do_dma_linked_list, do_dma, dma_finish, next_address, is_to_ram, is_port,
  is_linked_list,
}
use psx_emulator_em_c.Interconnect.Visited.{
  Option-cases, Succeeds, load_word, store_word, word_address-in, unvisited, unvisited-none,
  unvisited-marked,
}

module _ {D : Type 0} (dev : Devices D) (inter : Interconnect D) where
  -- A packet is sent whole, and ends inside of the memory.
  packet_loop-ends : (n : ℕ) (p : Packet D) → Succeeds (packet_loop dev n inter p)
  unfolding packet_loop
  packet_loop-ends zero p = (p, refl)
  packet_loop-ends (suc n) p =
      let w = load_word inter.ram (word_address (p.addr + 4)) (word_address-in (p.addr + 4)) in
      rw w.1 (packet_loop-ends n _)

  list_loop-ends :
      (fuel : ℕ) (visited : ℕ → Bool) (p : Packet D)
      → unvisited visited (2 ^ 19) < fuel
      → p.addr + 3 < 2 ^ 21
      → (r : ℕ × Interconnect D) × (list_loop dev fuel visited inter p ≡ some r)
        × ((r.1).dma ≡ inter.dma)
  unfolding list_loop
  list_loop-ends zero visited p h a = absurd (omega arith)
  list_loop-ends (suc fuel) visited p h a = elim (Bool-cases (visited (p.addr >> 2))) [
    | inl seen ↦ rw (list_loop, seen) (_, refl, refl)
    | inr new ↦
        let header = load_word inter.ram p.addr a in
        let q = packet_loop-ends (header.0 >> 24) (record p { words = add32 p.words 1 }) in
        let fewer = unvisited-marked visited (p.addr >> 2) (2 ^ 19) (omega arith) new in
        let rest =
          list_loop-ends fuel (mark visited (p.addr >> 2))
            (record (q.0) { addr = word_address header.0 }) (omega (arith, fewer))
            (word_address-in header.0) in
        rw (list_loop, new)
          (rw (header.1, q.1)
            (elim (Bool-cases (test_bit header.0 23)) [
              | inl last ↦ rw last (_, refl, refl)
              | inr more ↦ rw more rest
            ]))
  ]

  -- Any larger fuel gives the same.
  list_loop_more :
      (fuel more : ℕ) (visited : ℕ → Bool) (p : Packet D)
      → unvisited visited (2 ^ 19) < fuel
      → p.addr + 3 < 2 ^ 21
      → fuel ≤ more
      → list_loop dev more visited inter p ≡ list_loop dev fuel visited inter p
  unfolding list_loop
  list_loop_more zero more visited p h a le = absurd (omega arith)
  list_loop_more (suc fuel) zero visited p h a le = absurd (omega arith)
  list_loop_more (suc fuel) (suc more) visited p h a le =
      elim (Bool-cases (visited (p.addr >> 2))) [
        | inl seen ↦ rw (list_loop, seen) refl
        | inr new ↦
            let header = load_word inter.ram p.addr a in
            let q = packet_loop-ends (header.0 >> 24) (record p { words = add32 p.words 1 }) in
            let fewer = unvisited-marked visited (p.addr >> 2) (2 ^ 19) (omega arith) new in
            let rest =
              list_loop_more fuel more (mark visited (p.addr >> 2))
                (record (q.0) { addr = word_address header.0 }) (omega (arith, fewer))
                (word_address-in header.0) (omega arith) in
            rw (list_loop, new)
              (rw (header.1, q.1)
                (elim (Bool-cases (test_bit header.0 23)) [
                  | inl last ↦ rw last refl
                  | inr on ↦ rw on rest
                ]))
      ]

module _ {D : Type 0} (dev : Devices D) where
  block_loop-ends :
      (port : Port) (direction : Direction) (step : Step) (n addr : ℕ) (inter : Interconnect D)
      → (inter' : Interconnect D) × (block_loop dev port direction step n addr inter ≡ some inter')
        × (inter'.dma ≡ inter.dma)
  unfolding block_loop
  block_loop-ends port direction step zero addr inter = (inter, refl, refl)
  block_loop-ends port from_ram step (suc n) addr inter =
      let w = load_word inter.ram (word_address addr) (word_address-in addr) in
      rw w.1 (elim (Option-cases (deliver dev port inter.devices w.0)) [
        | inl stop ↦ rw (◌>>=◌, stop) (inter, refl, refl)
        | inr sent ↦
            rw (◌>>=◌, sent.1)
              (block_loop-ends port from_ram step n (next_address step addr)
                (record inter { devices = sent.0 }))
      ])
  block_loop-ends port to_ram step (suc n) addr inter =
      let src = obtain dev port inter.devices addr (suc n) in
      let m = store_word inter.ram (word_address addr) src.0 (word_address-in addr) in
      rw m.1 (
        block_loop-ends port to_ram step n (next_address step addr)
          (record inter { ram = m.0; devices = src.1 }))

  do_dma_block-ends :
      (inter : Interconnect D) (port : Port)
      → (r : ℕ × Interconnect D) × (do_dma_block dev inter port ≡ some r) × ((r.1).dma ≡ inter.dma)
  unfolding do_dma_block
  do_dma_block-ends inter port =
      let ch = dma_channel inter.dma port in
      elim (Option-cases (channel_transfer_size ch)) [
        | inl bad ↦ rw (do_dma_block, bad) (_, refl, refl)
        | inr size ↦
            let e =
              block_loop-ends port ch.direction ch.step (block_words port ch size.0) ch.base
                inter in
            rw (do_dma_block, size.1) (rw (e.1) (_, refl, e.2))
      ]

  -- The start of a list is a word of memory, and the memory has fewer words than the fuel.
  do_dma_linked_list-ends :
      (inter : Interconnect D) (port : Port)
      → (r : ℕ × Interconnect D) × (do_dma_linked_list dev inter port ≡ some r)
        × ((r.1).dma ≡ inter.dma)
  unfolding do_dma_linked_list
  do_dma_linked_list-ends inter port =
      let ch = dma_channel inter.dma port in
      elim (Bool-cases (is_to_ram ch.direction || not (is_port port port_gpu))) [
        | inl bad ↦ rw (do_dma_linked_list, bad) (_, refl, refl)
        | inr good ↦
            rw (do_dma_linked_list, good)
              (list_loop-ends dev inter list_fuel (λ i. false) _
                (omega (arith, unvisited-none (2 ^ 19))) (word_address-in ch.base))
      ]

-- Every DMA transfer ends, without an access outside of main memory, whatever the memory holds and
-- whatever the devices answer: `do_dma` gives a state for every port. The controller is then that
-- of before with the channel finished, so no transfer starts or changes another.
pub do_dma_ends :
    {D : Type 0} (dev : Devices D) (inter : Interconnect D) (port : Port)
    → (inter' : Interconnect D) × (do_dma dev inter port ≡ some inter')
      × (inter'.dma ≡ dma_finish inter.dma port)
unfolding do_dma
do_dma_ends dev inter port =
    elim (Bool-cases
      (not (is_port port port_otc) && is_linked_list (dma_channel inter.dma port).sync)) [
        | inl listed ↦
            let e = do_dma_linked_list-ends dev inter port in
            rw listed (rw (e.1) (_, refl, ap (λ (d : Dma). dma_finish d port) e.2))
        | inr block ↦
            let e = do_dma_block-ends dev inter port in
            rw block (rw (e.1) (_, refl, ap (λ (d : Dma). dma_finish d port) e.2))
      ]

-- A linked list of packets may form a loop, which the code stops at the first header it comes to
-- again. From any first header that is a word of main memory, the number of words of the memory
-- and one more rounds are enough: the loop returns a result, and with any larger number of rounds
-- the same one.
pub list_loop_ends :
    {D : Type 0} (dev : Devices D) (inter : Interconnect D) (base fuel : ℕ)
    → 2 ^ 19 < fuel
    → let start : Packet D = record {
      addr = word_address base;
      words = 0;
      devices = inter.devices;
    } in
      (r : ℕ × Interconnect D) × (list_loop dev (suc (2 ^ 19)) (λ i. false) inter start ≡ some r)
      × (list_loop dev fuel (λ i. false) inter start ≡ some r)
list_loop_ends {D = D} dev inter base fuel h =
    let start : Packet D = record {
      addr = word_address base;
      words = 0;
      devices = inter.devices;
    } in
    let n = unvisited-none (2 ^ 19) in
    let e =
      list_loop-ends dev inter (suc (2 ^ 19)) (λ i. false) start (omega (arith, n))
        (word_address-in base) in
    let more =
      list_loop_more dev inter (suc (2 ^ 19)) fuel (λ i. false) start (omega (arith, n))
        (word_address-in base) (omega arith) in
    (e.0, e.1, more ∙ e.1)
