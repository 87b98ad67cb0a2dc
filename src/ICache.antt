-- ===== src/ICache.antt =====
-- cpu_cache.h and cpu_cache.c: the instruction cache, 256 lines of four words.
pub mod Laws
use psx_emulator_em_c.Base.{
  ℕ, ◌*◌, ◌/◌, ◌%◌, ◌^◌, Bool, false, true, ◌&&◌, ◌||◌, not, Option, none, some, List, ltb, ◌==◌,
  ◌!=◌, if◌then◌else◌, get_or, set, replicate, ◌>>◌, low_bits, clear_low, test_bit, bit,
}

abbrev pub line_count : ℕ
line_count = 256

abbrev pub words_per_line : ℕ
words_per_line = 4

abbrev pub ram_mirror_end : ℕ
ram_mirror_end = 0x0080_0000

pub record CpuICacheLine : Type 0 where
  pub tag : ℕ
  pub words : List ℕ
  pub valid : Bool

pub record CpuICache : Type 0 where
  pub lines : List CpuICacheLine

abbrev pub empty_line : CpuICacheLine
empty_line = record { tag = 0; words = replicate words_per_line 0; valid = false }

abbrev pub physical_address : ℕ → ℕ
physical_address addr = low_bits addr 29

-- The index of `cache_line` and `cache_line_const`.
abbrev pub line_index : ℕ → ℕ
line_index addr = low_bits (physical_address addr >> 4) 8

abbrev pub tag_of : ℕ → ℕ
tag_of addr = clear_low (physical_address addr) 4

abbrev pub word_index : ℕ → ℕ
word_index addr = low_bits (addr >> 2) 2

abbrev pub line_at : CpuICache → ℕ → CpuICacheLine
line_at cache addr = get_or cache.lines (line_index addr) empty_line

unfoldable pub cpu_icache_init : CpuICache
cpu_icache_init = record { lines = replicate line_count empty_line }

unfoldable pub cpu_icache_is_cacheable : ℕ → Bool
cpu_icache_is_cacheable addr = ltb addr 0xa000_0000 && ltb (physical_address addr) ram_mirror_end

-- Bit 16 of the status register isolates the cache.
unfoldable pub cpu_cache_isolation_blocks_store : ℕ → ℕ → Bool
unfolding cpu_icache_is_cacheable
cpu_cache_isolation_blocks_store status addr = test_bit status 16 && cpu_icache_is_cacheable addr

-- `some` is the return value `true` with what goes through `*value`.
unfoldable pub cpu_icache_lookup : CpuICache → ℕ → Option ℕ
cpu_icache_lookup cache addr =
    let line = line_at cache addr in
    if not (cpu_icache_is_cacheable addr)
    then none
    else if not line.valid || line.tag != tag_of addr
    then none
    else some (get_or line.words (word_index addr) 0)

unfoldable pub cpu_icache_fill : CpuICache → ℕ → List ℕ → CpuICache
cpu_icache_fill cache line_addr words = record {
  lines =
      set cache.lines (line_index line_addr)
        (record { tag = tag_of line_addr; words = words; valid = true });
}
