-- ===== src/Sio/WriteSector.antt =====
-- sio.c: the exchange of bytes that writes a sector of the memory card.
use psx_emulator_em_c.Base.{
  Bool-cases, inl, inr, ◌&&◌, ℕ, suc, ◌+◌, ◌-◌, ◌*◌, ◌≤◌, ◌<◌, ◌≡◌, refl, ap, sym, ◌∙◌, arith,
  length, List, [], ◌∷◌, ◌++◌, Bool, set, bit_or, bit_xor, u16, ltb, ◌==◌, low_bits, if◌then◌else◌,
  ◌<<◌,
}
use psx_emulator_em_c.Sio.{Sio, reset_transaction}
use psx_emulator_em_c.Sio.Fifo.{IsFifo}
use psx_emulator_em_c.Sio.Card.{
  Bytes, memcard_response, write_response, put_sector, flushed, sector_offset,
}

-- A sector's bytes put into the buffer from an index on, and its checksum.
abbrev pub fill : List ℕ → ℕ → List ℕ → List ℕ
fill buffer k [] = buffer
fill buffer k (b ∷ bytes) = fill (set buffer k b) (suc k) bytes

abbrev pub checksum_of : ℕ → List ℕ → ℕ
checksum_of c [] = c
checksum_of c (b ∷ bytes) = checksum_of (bit_xor c b) bytes

abbrev pub sector_of : ℕ → ℕ → ℕ
sector_of msb lsb = bit_or (u16 (msb << 8)) lsb

fill-next :
    (x : ℕ) (buffer : List ℕ) (k : ℕ) (bytes : List ℕ)
    → fill (x ∷ buffer) (suc k) bytes ≡ x ∷ fill buffer k bytes
fill-next x buffer k [] = refl
fill-next x buffer k (b ∷ bytes) = fill-next x (set buffer k b) (suc k) bytes

-- A buffer that is filled has the bytes.
fill_all : (buffer bytes : List ℕ) → length buffer ≡ length bytes → fill buffer 0 bytes ≡ bytes
fill_all [] [] h = refl
fill_all [] (b ∷ bytes) h = absurd (omega (arith, h))
fill_all (x ∷ buffer) [] h = absurd (omega (arith, h))
fill_all (x ∷ buffer) (b ∷ bytes) h =
    fill-next b buffer 0 bytes ∙ ap (◌∷◌ b) (fill_all buffer bytes (omega (arith, h)))

module _ (write_file : List ℕ → Bytes → Bool) where
  -- The card after bytes, and its replies to them.
  unfoldable pub after : Sio → List ℕ → Sio
  after sio [] = sio
  after sio (b ∷ bytes) = after (memcard_response write_file sio b).0 bytes

  unfoldable pub replies : Sio → List ℕ → List ℕ
  replies sio [] = []
  replies sio (b ∷ bytes) =
      let (sio, r) = memcard_response write_file sio b in r ∷ replies sio bytes

  pub after-++ : (sio : Sio) (xs ys : List ℕ) → after sio (xs ++ ys) ≡ after (after sio xs) ys
  unfolding after
  after-++ sio [] ys = refl
  after-++ sio (x ∷ xs) ys = after-++ (memcard_response write_file sio x).0 xs ys

  -- One byte of the data, the `k`th.
  data_step :
      (sio : Sio) (k b : ℕ)
      → k < 128
      → (memcard_response write_file
          (record sio { memcard_pos = 6 + k; memcard_command = 0x57 })
          b).0
        ≡ record sio {
          memcard_pos = 6 + suc k;
          memcard_command = 0x57;
          memcard_write = set sio.memcard_write k b;
          memcard_checksum = bit_xor sio.memcard_checksum b;
        }
  unfolding memcard_response write_response
  data_step sio k b h =
      let index : 6 + k - 6 ≡ k = omega arith in
      ground (arith, ap (λ (i : ℕ). set sio.memcard_write i b) index)

  data_phase :
      (sio : Sio) (k : ℕ) (bytes : List ℕ)
      → k + length bytes ≤ 128
      → after (record sio { memcard_pos = 6 + k; memcard_command = 0x57 }) bytes ≡ record sio {
        memcard_pos = 6 + (k + length bytes);
        memcard_command = 0x57;
        memcard_write = fill sio.memcard_write k bytes;
        memcard_checksum = checksum_of sio.memcard_checksum bytes;
      }
  unfolding after
  data_phase sio k [] h =
      ap (λ (n : ℕ). record sio { memcard_pos = 6 + n; memcard_command = 0x57 }) (omega arith)
  data_phase sio k (b ∷ bytes) h =
      ap (λ (s : Sio). after s bytes) (data_step sio k b (omega arith))
      ∙ data_phase
          (record sio {
            memcard_write = set sio.memcard_write k b;
            memcard_checksum = bit_xor sio.memcard_checksum b;
          })
          (suc k) bytes (omega arith)
      ∙ ap
          (λ (n : ℕ). record sio {
            memcard_pos = 6 + n;
            memcard_command = 0x57;
            memcard_write = fill sio.memcard_write k (b ∷ bytes);
            memcard_checksum = checksum_of sio.memcard_checksum (b ∷ bytes);
          })
          (omega arith)

  -- The card once the address of the sector is sent, before the first byte of the data.
  addressed : Sio → ℕ → ℕ → Sio
  addressed sio msb lsb = record (reset_transaction sio) {
    memcard_sector = sector_of msb lsb;
    memcard_checksum = bit_xor msb lsb;
  }

  -- The bytes before those of the data.
  header :
      (sio : Sio) (msb lsb : ℕ) (rest : List ℕ)
      → after (reset_transaction sio) (0x81 ∷ 0x57 ∷ 0 ∷ 0 ∷ msb ∷ lsb ∷ rest)
        ≡ after
            (record (addressed sio msb lsb) { memcard_pos = 6 + 0; memcard_command = 0x57 })
            rest
  unfolding after memcard_response reset_transaction addressed
  header sio msb lsb rest = refl

  -- The checksum and the two bytes after it.
  trailer :
      (sio : Sio) (checksum : ℕ)
      → after (record sio { memcard_pos = 134; memcard_command = 0x57 }) (checksum ∷ 0 ∷ 0 ∷ [])
        ≡ record sio {
          memcard_pos = 137;
          memcard_command = 0x57;
          memcard_received_checksum = checksum;
          memcard_write_valid = checksum == sio.memcard_checksum && ltb sio.memcard_sector 1024;
        }
  unfolding after memcard_response write_response
  trailer sio checksum = refl

  -- The last byte, at which the sector is stored.
  last :
      (sio : Sio)
      → let (done, reply) =
          memcard_response write_file
            (record sio { memcard_pos = 137; memcard_command = 0x57 })
            0 in
        (done.memcard_data ≡ (
          if sio.memcard_write_valid
          then put_sector sio.memcard_data (sector_offset sio) sio.memcard_write
          else sio.memcard_data))
        × (reply ≡ (if sio.memcard_write_valid && flushed write_file done then 0x47 else 0x4e))
  unfolding memcard_response write_response
  last sio = elim (Bool-cases sio.memcard_write_valid) [
    | inl e ↦ rw e (refl, refl)
    | inr e ↦ rw e (refl, refl)
  ]

  -- A sector's write, sent to the card from the start of a transaction: the command 0x57, the sector's
  -- two bytes, its 128 bytes, a checksum, and four bytes until the reply. If the checksum is the
  -- exclusive or of the sector's two bytes and the data, and the sector is below 1024, the card has
  -- the bytes at 128 times the sector and its other bytes as before, and the reply is 0x47 if the
  -- file is written and 0x4E if it is not. Otherwise the card's bytes do not change and the reply is 0x4E.
  pub memcard_response-write :
      (sio : Sio) (msb lsb checksum : ℕ) (bytes : List ℕ)
      → IsFifo sio
      → length bytes ≡ 128
      → let sector = sector_of msb lsb in
        let valid = checksum == checksum_of (bit_xor msb lsb) bytes && ltb sector 1024 in
        let sent = 0x81 ∷ 0x57 ∷ 0 ∷ 0 ∷ msb ∷ lsb ∷ (bytes ++ (checksum ∷ 0 ∷ 0 ∷ [])) in
        let (done, reply) = memcard_response write_file (after (reset_transaction sio) sent) 0 in
        (done.memcard_data ≡ (
          if valid
          then put_sector sio.memcard_data (low_bits sector 10 * 128) bytes
          else sio.memcard_data))
        × (reply ≡ (if valid && flushed write_file done then 0x47 else 0x4e))
  unfolding addressed reset_transaction
  memcard_response-write sio msb lsb checksum bytes v h = rw before (last written)
    where
      tail : List ℕ
      tail = checksum ∷ 0 ∷ 0 ∷ []

      card : Sio
      card = addressed sio msb lsb

      filled : Sio
      filled = record (addressed sio msb lsb) {
        memcard_write = bytes;
        memcard_checksum = checksum_of (bit_xor msb lsb) bytes;
      }

      written : Sio
      written = record filled {
        memcard_received_checksum = checksum;
        memcard_write_valid =
            checksum == checksum_of (bit_xor msb lsb) bytes && ltb (sector_of msb lsb) 1024;
      }

      full : fill sio.memcard_write 0 bytes ≡ bytes
      full = fill_all sio.memcard_write bytes (v.write_length ∙ sym h)

      counted : 0 + length bytes ≡ 128
      counted = omega (arith, h)

      data_sent :
          after (record card { memcard_pos = 6 + 0; memcard_command = 0x57 }) bytes
          ≡ record filled { memcard_pos = 134; memcard_command = 0x57 }
      data_sent =
          data_phase card 0 bytes (omega (arith, h))
          ∙ ap
              (λ (n : ℕ). record card {
                memcard_pos = 6 + n;
                memcard_command = 0x57;
                memcard_write = fill sio.memcard_write 0 bytes;
                memcard_checksum = checksum_of (bit_xor msb lsb) bytes;
              })
              counted
          ∙ ap
              (λ (w : List ℕ). record filled {
                memcard_pos = 134;
                memcard_command = 0x57;
                memcard_write = w;
              })
              full

      before :
          after (reset_transaction sio) (0x81 ∷ 0x57 ∷ 0 ∷ 0 ∷ msb ∷ lsb ∷ (bytes ++ tail))
          ≡ record written { memcard_pos = 137; memcard_command = 0x57 }
      before =
          header sio msb lsb (bytes ++ tail)
          ∙ after-++ (record card { memcard_pos = 6 + 0; memcard_command = 0x57 }) bytes tail
          ∙ ap (λ (s : Sio). after s tail) data_sent
          ∙ trailer filled checksum
