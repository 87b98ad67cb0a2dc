-- ===== src/Tests/Words.antt =====
-- Runs of the arithmetic of the core, the unaligned accesses and the coprocessor's registers.
use psx_emulator_em_c.Base.{ℕ, ◌+◌, ◌≡◌, arith, test_bit, low_bits, clear_low, ◌<<◌, leading_zeroes}
use psx_emulator_em_c.Gte.{lzcr, count_leading}
use psx_emulator_em_c.Gte.Lzcr.{lzcr_lem}
use psx_emulator_em_c.Cpu.Arithmetic.{swl_merge, swr_merge}
use psx_emulator_em_c.Cpu.UnalignedAccess.{swr_merge-swl_merge}

-- The byte at an address is the address.
abbrev counting : ℕ → ℕ
counting a = low_bits a 8

swr_merge-swl_merge_example :
    (swr_merge 0 1 0x1234_5678 ≡ 0x1234_5678)
    × (swl_merge 3 1 0x1234_5678 ≡ 0x1234_5678)
    × (swr_merge 1 1 0x1234_5678 + swl_merge 0 2 0x1234_5678 << 32
        ≡ low_bits 1 8 + 0x1234_5678 << 8 + clear_low 2 8 << 32)
    × (swr_merge 2 1 0x1234_5678 + swl_merge 1 2 0x1234_5678 << 32
        ≡ low_bits 1 16 + 0x1234_5678 << 16 + clear_low 2 16 << 32)
    × (swr_merge 3 1 0x1234_5678 + swl_merge 2 2 0x1234_5678 << 32
        ≡ low_bits 1 24 + 0x1234_5678 << 24 + clear_low 2 24 << 32)
swr_merge-swl_merge_example =
    swr_merge-swl_merge 1 2 0x1234_5678 (omega arith) (omega arith) (omega arith)

-- -7 divided by 2.
lzcr_lem_example :
    (lzcr 0xfff0_0000 ≡ leading_zeroes 32 0xf_ffff)
    × (lzcr 0xfff0_0000 ≡ count_leading (test_bit 0xfff0_0000 31) 40 0xfff0_0000)
lzcr_lem_example = lzcr_lem 0xfff0_0000 40 (omega arith) (omega arith)
