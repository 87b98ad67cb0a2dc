-- ===== src/Sio/CardFileLaws.antt =====
-- sio.c: a memory card whose file does not exist, and the file that is made for it.
use psx_emulator_em_c.Base.{
  ℕ, ◌<◌, ◌≡◌, refl, ap, sym, ◌∙◌, arith, Bool-cases, inl, inr, ℤ, ◌∷◌, negsuc, true, false, Bool,
  pos, List, length, leb, some, if◌then◌else◌,
}
use psx_emulator_em_c.Sio.{Sio, reset_transaction, memcard_size}
use psx_emulator_em_c.Sio.Card.{
  Bytes, CardFile, absent, opened, format_memory_card, memory_card_metadata_valid, for_each,
  frames_valid, xor_bytes, mount_file, flushed, is_done, sio_memory_card_eject,
  sio_memory_card_load, sio_memory_card_flush,
}

-- A formatted card has the marks and the 36 checksums that a card's file is checked for.
format_memory_card-valid :
    (bytes : Bytes) → memory_card_metadata_valid (format_memory_card bytes) ≡ true
unfolding format_memory_card memory_card_metadata_valid for_each frames_valid xor_bytes
format_memory_card-valid bytes = refl

module _ (write_file : List ℕ → Bytes → Bool) (sio : Sio) where
  load_file :
      (c : ℕ) (cs : List ℕ) (file : CardFile)
      → leb 512 (length (c ∷ cs)) ≡ false
      → sio_memory_card_load write_file sio (some (c ∷ cs)) file
        ≡ mount_file write_file sio (c ∷ cs) file
  unfolding sio_memory_card_load
  load_file c cs file e =
      ap (λ (b : Bool). if b then (sio, negsuc 0) else mount_file write_file sio (c ∷ cs) file) e

  -- The port with the new card, before its file is written.
  abbrev made : List ℕ → Sio
  made path = record sio {
    memcard_data = format_memory_card sio.memcard_data;
    memcard_path = path;
    memcard_present = true;
    memcard_new = true;
    memcard_corrupt = false;
  }

  mount_absent :
      (c : ℕ) (cs : List ℕ)
      → mount_file write_file sio (c ∷ cs) absent ≡ (
          if write_file (c ∷ cs) (format_memory_card sio.memcard_data)
          then (made (c ∷ cs), pos 1)
          else (sio_memory_card_eject (made (c ∷ cs)), negsuc 0))
  unfolding mount_file sio_memory_card_flush
  mount_absent c cs =
      elim (Bool-cases (write_file (c ∷ cs) (format_memory_card sio.memcard_data))) [
        | inl e ↦ chosen e ∙ sym (ap pick e)
        | inr e ↦ chosen e ∙ sym (ap pick e)
      ]
    where
      pick : Bool → Sio × ℤ
      pick b =
          if b then (made (c ∷ cs), pos 1) else (sio_memory_card_eject (made (c ∷ cs)), negsuc 0)

      chosen :
          {b : Bool}
          → write_file (c ∷ cs) (format_memory_card sio.memcard_data) ≡ b
          → pick (flushed write_file (made (c ∷ cs)))
            ≡ pick (is_done (if b then pos 0 else negsuc 0))
      chosen e = ap (λ (t : Bool). pick (is_done (if t then pos 0 else negsuc 0))) e

  mount_valid :
      (path : List ℕ) (bytes : Bytes)
      → memory_card_metadata_valid bytes ≡ true
      → mount_file write_file sio path (opened bytes memcard_size false false) ≡ (
        record sio {
          memcard_data = bytes;
          memcard_path = path;
          memcard_present = true;
          memcard_new = false;
          memcard_corrupt = false;
        },
        pos 0,
      )
  unfolding mount_file
  mount_valid path bytes e = rw e refl

-- Loading a card whose file does not exist makes a new card of formatted bytes and writes them: if that
-- succeeds the result is 1 and the card is present and new, otherwise the result is -1 and there is no
-- card. A later load, by any port, that is given the bytes written returns 0, and has a card with these
-- bytes that is not new.
pub sio_memory_card_load-made :
    (write_file write_file' : List ℕ → Bytes → Bool) (sio sio' : Sio) (c : ℕ) (cs : List ℕ)
    → let path = c ∷ cs in
      length path < 512
      → let written = format_memory_card sio.memcard_data in
        let done = write_file path written in
        let (made, result) = sio_memory_card_load write_file sio (some path) absent in
        let (loaded, result') =
          sio_memory_card_load write_file' sio'
            (some path)
            (opened written memcard_size false false) in
        (result ≡ (if done then pos 1 else negsuc 0))
        × (made.memcard_present ≡ done)
        × (made.memcard_new ≡ done)
        × (result' ≡ pos 0)
        × (loaded.memcard_data ≡ written)
        × (loaded.memcard_present ≡ true)
        × (loaded.memcard_new ≡ false)
unfolding sio_memory_card_eject reset_transaction
sio_memory_card_load-made write_file write_file' sio sio' c cs short =
    let path = c ∷ cs in
    let long : leb 512 (length path) ≡ false = ground arith in
    let written = format_memory_card sio.memcard_data in
    let second =
      load_file write_file' sio' c cs (opened written memcard_size false false) long
      ∙ mount_valid write_file' sio' path written (format_memory_card-valid sio.memcard_data) in
    let first = load_file write_file sio c cs absent long ∙ mount_absent write_file sio c cs in
    rw (first, second)
      (elim (Bool-cases (write_file path written)) [
        | inl e ↦ rw e (refl, refl, refl, refl, refl, refl, refl)
        | inr e ↦ rw e (refl, refl, refl, refl, refl, refl, refl)
      ])
