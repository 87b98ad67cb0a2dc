-- ===== src/Tests/Geometry.antt =====
-- Runs of the commands of the geometry coprocessor.
use psx_emulator_em_c.Base.{
  ℕ, ◌+◌, ◌*◌, ◌^◌, ◌<◌, ◌≤◌, ◌≡◌, refl, arith, leb, if◌then◌else◌, replicate, low_bits,
  All-replicate, ◌+ℤ◌, ◌-ℤ◌, ◌*ℤ◌, shift_right,
}
use psx_emulator_em_c.Gte.{Gte, dr_at, cr_at, put_dr, put_cr}
use psx_emulator_em_c.Gte.Divide.{normalise, gte_divide, reciprocal}
use psx_emulator_em_c.Gte.DivideLaws.{gte_divide_lem, normalise_ends}
use psx_emulator_em_c.Gte.Execute.{commands, gte_execute}
use psx_emulator_em_c.Gte.Words.{IsWord, IsGte, put_dr-IsGte, put_cr-IsGte}
use psx_emulator_em_c.Gte.CommandKeeps.{gte_execute-IsGte, gte_execute-inputs}
use psx_emulator_em_c.Gte.Flag.{is_label, gte_execute-flag}

-- A cleared register file with a vertex, a depth and a projection plane.
abbrev cleared : Gte
cleared = record { dr = replicate 32 0; cr = replicate 32 0 }

abbrev scene : Gte
scene = put_cr (put_cr (put_dr (put_dr cleared 0 0x0020_0010) 1 0x300) 0 0x1000) 26 0x200

cleared-IsGte : IsGte cleared
cleared-IsGte = record {
  dr_count = refl;
  dr_words = All-replicate IsWord 32 0 (omega arith);
  cr_count = refl;
  cr_words = All-replicate IsWord 32 0 (omega arith);
}

scene-IsGte : IsGte scene
scene-IsGte =
    put_cr-IsGte
      (put_cr-IsGte
        (put_dr-IsGte (put_dr-IsGte {g = cleared} cleared-IsGte 0 0x0020_0010 (omega arith)) 1 0x300
          (omega arith))
        0 0x1000 (omega arith))
      26 0x200 (omega arith)

-- RTPS with the shift.
abbrev rtps : ℕ
rtps = 0x0008_0001

gte_execute-IsGte_example : IsGte (gte_execute scene rtps)
gte_execute-IsGte_example = gte_execute-IsGte scene rtps scene-IsGte

gte_execute-inputs_example :
    (dr_at (gte_execute scene rtps) 0 ≡ dr_at scene 0)
    × (cr_at (gte_execute scene rtps) 26 ≡ cr_at scene 26)
gte_execute-inputs_example =
    gte_execute-inputs scene rtps 0 26 scene-IsGte (omega arith) (omega arith)

gte_execute-flag_example : gte_execute (put_cr scene 31 0x8000_0000) rtps ≡ (
    if is_label commands (low_bits rtps 6)
    then gte_execute scene rtps
    else put_cr scene 31 0x8000_0000)
gte_execute-flag_example = gte_execute-flag scene 0x8000_0000 rtps

gte_divide_lem_example :
    (gte_divide 0x200 0x300 ≤ 0x1_ffff)
    × (if leb (0x300 * 2) 0x200
        then gte_divide 0x200 0x300 ≡ 0x1_ffff
        else (gte_divide 0x200 0x300 * 0x300 ≤ 0x200 * 2 ^ 16 + 3 * 0x300)
          × (0x200 * 2 ^ 16 ≤ gte_divide 0x200 0x300 * 0x300 + 4 * 0x300))
gte_divide_lem_example = gte_divide_lem 0x200 0x300 (omega arith) (omega arith)

normalise_ends_example :
    (0x8000 ≤ (normalise 15 0x200 0x300).rhs)
    × ((normalise 15 0x200 0x300).rhs < 0x1_0000)
    × ((k : ℕ) × ((normalise 15 0x200 0x300).rhs ≡ 0x300 * 2 ^ k))
    × (normalise 20 0x200 0x300 ≡ normalise 15 0x200 0x300)
normalise_ends_example = normalise_ends 0x200 0x300 20 (omega arith) (omega arith) (omega arith)

-- Two thirds, as a multiple of 2 ^ -16.
gte_divide_runs : gte_divide 0x200 0x300 ≡ 43691
unfolding gte_divide normalise reciprocal shift_right ◌+ℤ◌ ◌-ℤ◌ ◌*ℤ◌
gte_divide_runs = refl
