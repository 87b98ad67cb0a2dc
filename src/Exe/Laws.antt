-- ===== src/Exe/Laws.antt =====
-- exe.c: where a program is copied to.
use psx_emulator_em_c.Base.{
  ℕ, ◌+◌, ◌-◌, ◌≤◌, ◌<◌, ◌≡◌, ap, arith, ◌&&◌, leb, if◌then◌else◌, length, get_or, List, some, pos,
  negsuc, min, ◌||◌, ltb,
}
use psx_emulator_em_c.Exe.{PsxExe, exe_parse, exe_load, read_into, destination, psx_exe_header_size}

parsed-length :
    (file : List ℕ) (info : PsxExe) → exe_parse (some file) ≡ some info → 0x800 ≤ length file
unfolding exe_parse
parsed-length file info h = ground arith

read_at :
    (ram : ℕ → ℕ) (dest : ℕ) (file : List ℕ) (count j : ℕ)
    → j < count
    → read_into ram dest file count (dest + j) ≡ get_or file (0x800 + j) 0
read_at ram dest file count j h =
    let index : dest + j - dest ≡ j = omega arith in
    ground (arith, ap (λ (n : ℕ). get_or file (0x800 + n) 0) index)

-- A program whose header `exe_parse` accepts is copied by `exe_load` without a write outside of its
-- region, nor outside of the memory: the result is 0 exactly if the region ends within the memory and
-- the file has all its bytes, every byte that is not of the region, or is behind the memory, is as before,
-- and on success the region has the bytes that follow the header.
pub exe_load_lem :
    (file : List ℕ) (info : PsxExe) (ram : ℕ → ℕ) (ram_size i j : ℕ)
    → exe_parse (some file) ≡ some info
    → let dest = destination info in
      let (ram', result) = exe_load (some file) info ram ram_size in
      let loads =
        leb (dest + info.load_size) ram_size && leb (0x800 + info.load_size) (length file) in
      let outside = ltb i dest || leb (dest + info.load_size) i || leb ram_size i in
      (result ≡ (if loads then pos 0 else negsuc 0))
      × ((if outside then ram' i else ram i) ≡ ram i)
      × ((if loads && ltb j info.load_size then ram' (dest + j) else get_or file (0x800 + j) 0)
          ≡ get_or file (0x800 + j) 0)
unfolding exe_load
exe_load_lem file info ram ram_size i j h =
    let enough = parsed-length file info h in
    let count = min info.load_size (length file - psx_exe_header_size) in
    (ground arith, ground arith, ground (arith, read_at ram (destination info) file count j))
