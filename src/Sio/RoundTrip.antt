-- ===== src/Sio/RoundTrip.antt =====
-- sio.c: a sector of the memory card is read as it was written.
use psx_emulator_em_c.Base.{
  ℕ, suc, ◌+◌, ◌*◌, ◌<◌, ◌≡◌, refl, ap, ap₂, sym, Bool, ◌∙◌, ◌-◌, arith, length, List, [], ◌∷◌,
  ◌++◌, get_or, bit_xor, u8, ltb, ◌==◌, ==_refl, lt→ltb, low_bits, if◌then◌else◌, ◌>>◌, ◌&&◌, true,
}
use psx_emulator_em_c.Sio.{Sio, reset_transaction}
use psx_emulator_em_c.Sio.Fifo.{IsFifo}
use psx_emulator_em_c.Sio.Card.{Bytes, memcard_response, put_sector}
use psx_emulator_em_c.Sio.WriteSector.{
  after, replies, sector_of, checksum_of, memcard_response-write,
}
use psx_emulator_em_c.Sio.ReadSector.{bytes_from, memcard_response-read}

bytes_from-all :
    (f : Bytes) (at : ℕ) (bytes : List ℕ)
    → ((i : ℕ) → i < length bytes → f (at + i) ≡ get_or bytes i 0)
    → bytes_from f at (length bytes) ≡ bytes
bytes_from-all f at [] h = refl
bytes_from-all f at (b ∷ bytes) h =
    let first : at + 0 ≡ at = omega arith in
    ap₂ ◌∷◌ (sym (ap f first) ∙ h 0 (omega arith)) (
      bytes_from-all f (suc at) bytes (λ i p.
        let next : suc at + i ≡ at + suc i = omega arith in ap f next ∙ h (suc i) (omega arith)))

put_sector-at :
    (old : Bytes) (at : ℕ) (bytes : List ℕ) (i : ℕ)
    → i < 128
    → put_sector old at bytes (at + i) ≡ get_or bytes i 0
put_sector-at old at bytes i h =
    let index : at + i - at ≡ i = omega arith in
    ground (arith, ap (λ (n : ℕ). get_or bytes n 0) index)

bytes_from-put_sector :
    (old : Bytes) (at : ℕ) (bytes : List ℕ)
    → length bytes ≡ 128
    → bytes_from (put_sector old at bytes) at 128 ≡ bytes
bytes_from-put_sector old at bytes h =
    ap (bytes_from (put_sector old at bytes) at) (sym h)
    ∙ bytes_from-all (put_sector old at bytes) at bytes
        (λ i p. put_sector-at old at bytes i (omega (arith, h)))

module _ (write_file : List ℕ → Bytes → Bool) where
  -- What is written is read: after the bytes of a sector below 1024 are sent with their checksum, the
  -- card replies to a read of this sector, in the next transaction, with these bytes and this checksum,
  -- whatever is sent meanwhile, even if the write of the card's file fails.
  pub memcard_response-read_write :
      (sio : Sio) (msb lsb a b c d e f : ℕ) (bytes sent : List ℕ)
      → IsFifo sio
      → length bytes ≡ 128
      → length sent ≡ 128
      → sector_of msb lsb < 1024
      → let sector = sector_of msb lsb in
        let checksum = checksum_of (bit_xor msb lsb) bytes in
        let written =
          (memcard_response write_file
            (after write_file
              (reset_transaction sio)
              (0x81 ∷ 0x57 ∷ 0 ∷ 0 ∷ msb ∷ lsb ∷ (bytes ++ (checksum ∷ 0 ∷ 0 ∷ []))))
            0).0 in
        replies write_file
          (reset_transaction written)
          (0x81 ∷ 0x52 ∷ 0 ∷ 0 ∷ msb ∷ lsb ∷ a ∷ b ∷ c ∷ d ∷ (sent ++ (e ∷ f ∷ [])))
        ≡ 0xff
          ∷ (if written.memcard_new then 0x08 else 0x00)
          ∷ 0x5a
          ∷ 0x5d
          ∷ 0x00
          ∷ u8 (sector >> 8)
          ∷ 0x5c
          ∷ 0x5d
          ∷ u8 (sector >> 8)
          ∷ u8 sector
          ∷ (bytes ++ (checksum ∷ 0x47 ∷ []))
  memcard_response-read_write sio msb lsb a b c d e f bytes sent v hb hs small =
      memcard_response-read write_file written msb lsb a b c d e f sent hs
      ∙ ap
          (λ (l : List ℕ).
            0xff
            ∷ (if written.memcard_new then 0x08 else 0x00)
            ∷ 0x5a
            ∷ 0x5d
            ∷ 0x00
            ∷ u8 (sector >> 8)
            ∷ 0x5c
            ∷ 0x5d
            ∷ u8 (sector >> 8)
            ∷ u8 sector
            ∷ (l ++ (checksum_of (bit_xor msb lsb) l ∷ 0x47 ∷ [])))
          stored
    where
      sector : ℕ
      sector = sector_of msb lsb

      checksum : ℕ
      checksum = checksum_of (bit_xor msb lsb) bytes

      written : Sio
      written =
          (memcard_response write_file
            (after write_file (reset_transaction sio)
              (0x81 ∷ 0x57 ∷ 0 ∷ 0 ∷ msb ∷ lsb ∷ (bytes ++ (checksum ∷ 0 ∷ 0 ∷ []))))
            0).0

      valid : (checksum == checksum && ltb sector 1024) ≡ true
      valid = ap₂ ◌&&◌ (==_refl checksum) (lt→ltb sector 1024 small)

      place : ℕ
      place = low_bits sector 10 * 128

      card_data : written.memcard_data ≡ put_sector sio.memcard_data place bytes
      card_data =
          (memcard_response-write write_file sio msb lsb checksum bytes v hb).0
          ∙ ap
              (λ (t : Bool).
                if t then put_sector sio.memcard_data place bytes else sio.memcard_data)
              valid

      stored : bytes_from written.memcard_data place 128 ≡ bytes
      stored =
          ap (λ (g : Bytes). bytes_from g place 128) card_data
          ∙ bytes_from-put_sector sio.memcard_data place bytes hb
