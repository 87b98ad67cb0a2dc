-- ===== src/ICache/Laws.antt =====
-- The instruction cache answers with what its lines were filled with.
use psx_emulator_em_c.Base.{
  ◌==◌, if◌then◌else◌, ◌&&◌, Bool-cases, inl, inr, ==_iff, ℕ, ◌≡◌, ◌≢◌, arith, true, none, some,
  List, length, get_or, get_or-set_self, get_or-set_ne, length-set, get_or-replicate,
}
use psx_emulator_em_c.ICache.{
  CpuICache, CpuICacheLine, empty_line, line_count, line_at, line_index, tag_of, word_index,
  cpu_icache_init, cpu_icache_is_cacheable, cpu_icache_lookup, cpu_icache_fill,
}

abbrev pub IsValid : CpuICache → Type 0
IsValid cache = length cache.lines ≡ line_count

pub cpu_icache_fill-IsValid :
    (cache : CpuICache) (addr : ℕ) (words : List ℕ)
    → IsValid cache
    → IsValid (cpu_icache_fill cache addr words)
unfolding cpu_icache_fill
cpu_icache_fill-IsValid cache addr words v = omega (
  arith,
  length-set cache.lines (line_index addr)
      (record { tag = tag_of addr; words = words; valid = true }),
)

filled : ℕ → List ℕ → CpuICacheLine
filled addr words = record { tag = tag_of addr; words = words; valid = true }

line_at-fill_self :
    (cache : CpuICache) (a b : ℕ) (words : List ℕ)
    → IsValid cache
    → line_index b ≡ line_index a
    → line_at (cpu_icache_fill cache a words) b ≡ filled a words
unfolding cpu_icache_fill filled
line_at-fill_self cache a b words v e =
    rw e (get_or-set_self cache.lines (line_index a) (filled a words) empty_line (omega (arith, v)))

line_at-fill_ne :
    (cache : CpuICache) (a b : ℕ) (words : List ℕ)
    → line_index b ≢ line_index a
    → line_at (cpu_icache_fill cache a words) b ≡ line_at cache b
unfolding cpu_icache_fill filled
line_at-fill_ne cache a b words ne =
    get_or-set_ne cache.lines (line_index a) (line_index b) (filled a words) empty_line
      (λ e. ne (omega arith))

lookup-fill_line :
    (cache : CpuICache) (a b : ℕ) (words : List ℕ)
    → IsValid cache
    → line_index b ≡ line_index a
    → cpu_icache_lookup (cpu_icache_fill cache a words) b ≡ (
        if cpu_icache_is_cacheable b && tag_of b == tag_of a
        then some (get_or words (word_index b) 0)
        else none)
unfolding filled cpu_icache_lookup
lookup-fill_line cache a b words v e = rw (line_at-fill_self cache a b words v e) (ground arith)

lookup-fill_other :
    (cache : CpuICache) (a b : ℕ) (words : List ℕ)
    → line_index b ≢ line_index a
    → cpu_icache_lookup (cpu_icache_fill cache a words) b ≡ cpu_icache_lookup cache b
unfolding cpu_icache_lookup
lookup-fill_other cache a b words ne = rw (line_at-fill_ne cache a b words ne)

-- What a cache of 256 lines answers once a line has been filled for the address a: at an address of
-- that line, if it is cacheable and has the tag of a, the word of the new line that it selects, and
-- else nothing; at an address of another line, what it answered before.
pub cpu_icache_lookup-fill :
    (cache : CpuICache) (a b : ℕ) (words : List ℕ)
    → length cache.lines ≡ 256
    → cpu_icache_lookup (cpu_icache_fill cache a words) b ≡ (
        if line_index b == line_index a
        then if cpu_icache_is_cacheable b && tag_of b == tag_of a
          then some (get_or words (word_index b) 0)
          else none
        else cpu_icache_lookup cache b)
cpu_icache_lookup-fill cache a b words v = elim (Bool-cases (line_index b == line_index a)) [
  | inl e ↦ rw e (lookup-fill_line cache a b words v ((==_iff (line_index b) (line_index a)).0 e))
  | inr e ↦ rw e (lookup-fill_other cache a b words (ground arith))
]

-- An empty cache misses at every address.
pub cpu_icache_lookup-init : (addr : ℕ) → cpu_icache_lookup cpu_icache_init addr ≡ none
unfolding cpu_icache_init cpu_icache_lookup
cpu_icache_lookup-init addr =
    rw (get_or-replicate line_count (line_index addr) empty_line) (ground arith)
