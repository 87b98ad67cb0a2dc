-- ===== src/Tests/Program.antt =====
-- A program of four bytes, loaded at 0x80010000.
use psx_emulator_em_c.Base.{
  ℕ, ◌+◌, ◌≡◌, refl, ◌&&◌, ◌||◌, ltb, leb, if◌then◌else◌, length, get_or, List, [], ◌∷◌, ◌++◌,
  replicate, some, pos, negsuc,
}
use psx_emulator_em_c.Exe.{
  PsxExe, magic, exe_parse, exe_load, destination, starts_with, read_u32le, psx_default_sp,
}
use psx_emulator_em_c.Exe.Laws.{exe_load_lem}

abbrev program : List ℕ
program =
    magic
    ++ (replicate 16 0
        ++ (0 ∷ 0 ∷ 1 ∷ 0x80 ∷ 4 ∷ 0 ∷ 0 ∷ 0 ∷ (replicate 2016 0 ++ (1 ∷ 2 ∷ 3 ∷ 4 ∷ []))))

abbrev header : PsxExe
header = record { pc = 0; gp = 0; load_addr = 0x8001_0000; load_size = 4; sp = psx_default_sp }

header_read : exe_parse (some program) ≡ some header
unfolding exe_parse starts_with read_u32le
header_read = refl

exe_load_lem_example :
    let dest = destination header in
    let (ram', result) = exe_load (some program) header (λ i. 0) 0x20_0000 in
    let loads = leb (dest + 4) 0x20_0000 && leb (0x800 + 4) (length program) in
    let outside = ltb 5 dest || leb (dest + 4) 5 || leb 0x20_0000 5 in
    (result ≡ (if loads then pos 0 else negsuc 0))
    × ((if outside then ram' 5 else 0) ≡ 0)
    × ((if loads && ltb 2 4 then ram' (dest + 2) else get_or program (0x800 + 2) 0)
        ≡ get_or program (0x800 + 2) 0)
exe_load_lem_example = exe_load_lem program header (λ i. 0) 0x20_0000 5 2 header_read
