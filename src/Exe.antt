-- ===== src/Exe.antt =====
-- exe.h and exe.c: the header of a PS-X EXE file, and the copy of its program into main memory. A
-- file is the list of its bytes, and `none` is one that cannot be opened.
pub mod Laws
use psx_emulator_em_c.Base.{
  ℕ, ◌+◌, ◌-◌, min, Bool, ◌&&◌, not, ◌==◌, ltb, leb, if◌then◌else◌, bit_or, ◌<<◌, low_bits, add32,
  length, get_or, List, [], ◌∷◌, Option, none, some, ℤ, pos, negsuc, u32, true,
}

-- PSX_EXE_HEADER_SIZE and PSX_DEFAULT_SP.
abbrev pub psx_exe_header_size : ℕ
psx_exe_header_size = 0x800

abbrev pub psx_default_sp : ℕ
psx_default_sp = 0x801f_fff0

-- `PsxExe`.
pub record PsxExe : Type 0 where
  pub pc : ℕ
  pub gp : ℕ
  pub load_addr : ℕ
  pub load_size : ℕ
  pub sp : ℕ

unfoldable pub read_u32le : List ℕ → ℕ → ℕ
read_u32le buf offset =
    bit_or
      (bit_or (bit_or (get_or buf offset 0) (u32 (get_or buf (offset + 1) 0 << 8)))
        (u32 (get_or buf (offset + 2) 0 << 16)))
      (u32 (get_or buf (offset + 3) 0 << 24))

-- `memcmp` with "PS-X EXE".
abbrev pub magic : List ℕ
magic = 0x50 ∷ 0x53 ∷ 0x2d ∷ 0x58 ∷ 0x20 ∷ 0x45 ∷ 0x58 ∷ 0x45 ∷ []

unfoldable pub starts_with : List ℕ → List ℕ → Bool
starts_with [] bytes = true
starts_with (m ∷ ms) bytes = get_or bytes 0 0 == m && starts_with ms (rest bytes)
  where
    rest : List ℕ → List ℕ
    rest [] = []
    rest (b ∷ bs) = bs

-- `none` is the result -1.
unfoldable pub exe_parse : Option (List ℕ) → Option PsxExe
exe_parse none = none
exe_parse (some file) =
    let sp_base = read_u32le file 0x30 in
    let sp_offset = read_u32le file 0x34 in
    if ltb (length file) psx_exe_header_size
    then none
    else if not (starts_with magic file)
    then none
    else some (record {
      pc = read_u32le file 0x10;
      gp = read_u32le file 0x14;
      load_addr = read_u32le file 0x18;
      load_size = read_u32le file 0x1c;
      sp = if sp_base == 0 then psx_default_sp else add32 sp_base sp_offset;
    })

-- `fread` of `count` bytes after the header into the memory from `dest` on.
abbrev pub read_into : (ℕ → ℕ) → ℕ → List ℕ → ℕ → ℕ → ℕ
read_into ram dest file count = λ i.
    if leb dest i && ltb i (dest + count)
    then get_or file (psx_exe_header_size + (i - dest)) 0
    else ram i

abbrev pub destination : PsxExe → ℕ
destination info = low_bits info.load_addr 21

-- The memory after, and the result.
unfoldable pub exe_load : Option (List ℕ) → PsxExe → (ℕ → ℕ) → ℕ → (ℕ → ℕ) × ℤ
exe_load none info ram ram_size = (ram, negsuc 0)
exe_load (some file) info ram ram_size =
    let dest = destination info in
    let count = min info.load_size (length file - psx_exe_header_size) in
    if ltb ram_size (dest + info.load_size)
    then (ram, negsuc 0)
    else (read_into ram dest file count, if count == info.load_size then pos 0 else negsuc 0)
