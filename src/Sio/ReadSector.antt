-- ===== src/Sio/ReadSector.antt =====
-- sio.c: the exchange of bytes that reads a sector of the memory card.
use psx_emulator_em_c.Base.{
  ℕ, zero, suc, ◌+◌, ◌-◌, ◌*◌, ◌≤◌, ◌<◌, ◌≡◌, refl, ap, ap₂, ◌∙◌, arith, length, List, [], ◌∷◌,
  ◌++◌, Bool, bit_xor, u8, u16, low_bits, if◌then◌else◌, ◌>>◌,
}
use psx_emulator_em_c.Sio.{Sio, reset_transaction}
use psx_emulator_em_c.Sio.Card.{Bytes, memcard_response, read_response, sector_offset}
use psx_emulator_em_c.Sio.WriteSector.{after, replies, sector_of, checksum_of}

-- The bytes from an offset on.
abbrev pub bytes_from : Bytes → ℕ → ℕ → List ℕ
bytes_from bytes at zero = []
bytes_from bytes at (suc count) = bytes at ∷ bytes_from bytes (suc at) count

module _ (write_file : List ℕ → Bytes → Bool) where
  replies-++ :
      (sio : Sio) (xs ys : List ℕ)
      → replies write_file sio (xs ++ ys)
        ≡ replies write_file sio xs ++ replies write_file (after write_file sio xs) ys
  unfolding after replies
  replies-++ sio [] ys = refl
  replies-++ sio (x ∷ xs) ys =
      let (next, r) = memcard_response write_file sio x in ap (◌∷◌ r) (replies-++ next xs ys)

  -- One byte of the data, the `k`th.
  read_step :
      (sio : Sio) (k v : ℕ)
      → k < 128
      → let byte = sio.memcard_data (sector_offset sio + k) in
        memcard_response write_file (record sio { memcard_pos = 10 + k; memcard_command = 0x52 }) v
        ≡ (
          record sio {
            memcard_pos = 10 + suc k;
            memcard_command = 0x52;
            memcard_checksum = bit_xor sio.memcard_checksum byte;
          },
          byte,
        )
  unfolding memcard_response read_response
  read_step sio k v h =
      let index : sector_offset sio + (10 + k) - 10 ≡ sector_offset sio + k = omega arith in
      let next : u16 (10 + k + 1) ≡ 10 + suc k = omega arith in ground (arith, index, next)

  read_phase :
      (sio : Sio) (k : ℕ) (vs : List ℕ)
      → k + length vs ≤ 128
      → let bytes = bytes_from sio.memcard_data (sector_offset sio + k) (length vs) in
        let start = record sio { memcard_pos = 10 + k; memcard_command = 0x52 } in
        (replies write_file start vs ≡ bytes)
        × (after write_file start vs ≡ record sio {
          memcard_pos = 10 + (k + length vs);
          memcard_command = 0x52;
          memcard_checksum = checksum_of sio.memcard_checksum bytes;
        })
  unfolding after replies
  read_phase sio k [] h = (
    refl,
    ap (λ (n : ℕ). record sio { memcard_pos = 10 + n; memcard_command = 0x52 }) (omega arith),
  )
  read_phase sio k (v ∷ vs) h =
      let data_at = sector_offset sio in
      let byte = sio.memcard_data (data_at + k) in
      let next = record sio { memcard_checksum = bit_xor sio.memcard_checksum byte } in
      let step = read_step sio k v (omega arith) in
      let rest = read_phase next (suc k) vs (omega arith) in
      let shift : data_at + suc k ≡ suc (data_at + k) = omega arith in
      let same = ap (λ (n : ℕ). bytes_from sio.memcard_data n (length vs)) shift in
      (
        ap (λ (r : Sio × ℕ). r.1 ∷ replies write_file r.0 vs) step ∙ ap (◌∷◌ byte) (rest.0 ∙ same),
        ap (λ (r : Sio × ℕ). after write_file r.0 vs) step
            ∙ rest.1
            ∙ ap₂
                (λ (n : ℕ) (bytes : List ℕ). record sio {
                  memcard_pos = 10 + n;
                  memcard_command = 0x52;
                  memcard_checksum = checksum_of (bit_xor sio.memcard_checksum byte) bytes;
                })
                (omega arith) same,
      )

  -- The bytes before those of the data, and the two after them.
  read_header :
      (sio : Sio) (msb lsb a b c d : ℕ) (rest : List ℕ)
      → let sector = sector_of msb lsb in
        let start = record (reset_transaction sio) {
          memcard_pos = 10 + 0;
          memcard_command = 0x52;
          memcard_sector = sector;
          memcard_checksum = bit_xor msb lsb;
        } in
        replies write_file
          (reset_transaction sio)
          (0x81 ∷ 0x52 ∷ 0 ∷ 0 ∷ msb ∷ lsb ∷ a ∷ b ∷ c ∷ d ∷ rest)
        ≡ 0xff
          ∷ (if sio.memcard_new then 0x08 else 0x00)
          ∷ 0x5a
          ∷ 0x5d
          ∷ 0x00
          ∷ u8 (sector >> 8)
          ∷ 0x5c
          ∷ 0x5d
          ∷ u8 (sector >> 8)
          ∷ u8 sector
          ∷ replies write_file start rest
  unfolding replies memcard_response read_response reset_transaction
  read_header sio msb lsb a b c d rest = refl

  read_trailer :
      (sio : Sio) (a b : ℕ)
      → replies write_file (record sio { memcard_pos = 138; memcard_command = 0x52 }) (a ∷ b ∷ [])
        ≡ sio.memcard_checksum ∷ 0x47 ∷ []
  unfolding replies memcard_response read_response
  read_trailer sio a b = refl

  -- A sector's read, sent to the card from the start of a transaction: whatever is sent after the
  -- command 0x52 and the sector's two bytes, the card replies with 0xFF, the flag of a new card, its
  -- identification, the acknowledgements and the sector, then with the 128 bytes of the sector, of
  -- whose number the low ten bits count, their checksum, and 0x47.
  pub memcard_response-read :
      (sio : Sio) (msb lsb a b c d e f : ℕ) (sent : List ℕ)
      → length sent ≡ 128
      → let sector = sector_of msb lsb in
        let bytes = bytes_from sio.memcard_data (low_bits sector 10 * 128) 128 in
        replies write_file
          (reset_transaction sio)
          (0x81 ∷ 0x52 ∷ 0 ∷ 0 ∷ msb ∷ lsb ∷ a ∷ b ∷ c ∷ d ∷ (sent ++ (e ∷ f ∷ [])))
        ≡ 0xff
          ∷ (if sio.memcard_new then 0x08 else 0x00)
          ∷ 0x5a
          ∷ 0x5d
          ∷ 0x00
          ∷ u8 (sector >> 8)
          ∷ 0x5c
          ∷ 0x5d
          ∷ u8 (sector >> 8)
          ∷ u8 sector
          ∷ (bytes ++ (checksum_of (bit_xor msb lsb) bytes ∷ 0x47 ∷ []))
  unfolding reset_transaction
  memcard_response-read sio msb lsb a b c d e f sent h =
      read_header sio msb lsb a b c d (sent ++ (e ∷ f ∷ []))
      ∙ ap
          (λ (l : List ℕ).
            0xff
            ∷ (if sio.memcard_new then 0x08 else 0x00)
            ∷ 0x5a
            ∷ 0x5d
            ∷ 0x00
            ∷ u8 (sector >> 8)
            ∷ 0x5c
            ∷ 0x5d
            ∷ u8 (sector >> 8)
            ∷ u8 sector
            ∷ l)
          data_read
    where
      sector : ℕ
      sector = sector_of msb lsb

      card : Sio
      card = record (reset_transaction sio) {
        memcard_sector = sector;
        memcard_checksum = bit_xor msb lsb;
      }

      bytes : List ℕ
      bytes = bytes_from sio.memcard_data (low_bits sector 10 * 128) 128

      start : Sio
      start = record card { memcard_pos = 10 + 0; memcard_command = 0x52 }

      read : ℕ → List ℕ
      read n = bytes_from sio.memcard_data (low_bits sector 10 * 128 + 0) n

      at_data : read (length sent) ≡ bytes
      at_data = ap read h ∙ ap (λ (n : ℕ). bytes_from sio.memcard_data n 128) (omega arith)

      phase :
          (replies write_file start sent ≡ read (length sent))
          × (after write_file start sent ≡ record card {
            memcard_pos = 10 + (0 + length sent);
            memcard_command = 0x52;
            memcard_checksum = checksum_of (bit_xor msb lsb) (read (length sent));
          })
      phase = read_phase card 0 sent (omega (arith, h))

      done : List ℕ → ℕ → Sio
      done l n = record card {
        memcard_pos = n;
        memcard_command = 0x52;
        memcard_checksum = checksum_of (bit_xor msb lsb) l;
      }

      data_read :
          replies write_file start (sent ++ (e ∷ f ∷ []))
          ≡ bytes ++ (checksum_of (bit_xor msb lsb) bytes ∷ 0x47 ∷ [])
      data_read =
          replies-++ start sent (e ∷ f ∷ [])
          ∙ ap₂ (λ (l : List ℕ) (s : Sio). l ++ replies write_file s (e ∷ f ∷ []))
              (phase.0 ∙ at_data) (phase.1 ∙ ap₂ done at_data (omega (arith, h)))
          ∙ ap (◌++◌ bytes) (read_trailer (done bytes 138) e f)
