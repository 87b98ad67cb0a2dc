-- ===== src/Interconnect/Visited.antt =====
-- interconnect.c: the words of main memory, and how many of them a linked list has not visited.
use psx_emulator_em_c.Base.{
  ℕ, zero, suc, ◌+◌, ◌^◌, ◌<◌, ◌≤◌, ◌≡◌, refl, ap, ◌∙◌, arith, Bool, true, false, not, Option, none,
  some, ◌==◌, ==_false, if◌then◌else◌, inl, inr, ◌⊎◌, ◌>>◌, add32, of_bool, u8, ◌<<◌,
}
use native.Mathlib.Decide.{dec_lt}
use psx_emulator_em_c.Ram.{Ram, ram_load32, ram_store32}
use psx_emulator_em_c.Interconnect.Transfer.{word_address, mark}

abbrev pub Succeeds {ℓ} : {A : Type ℓ} → Option A → Type ℓ
Succeeds {A = A} o = (a : A) × (o ≡ some a)

pub Option-cases : {A : Type 0} (o : Option A) → (o ≡ none) ⊎ ((a : A) × (o ≡ some a))
Option-cases none = inl refl
Option-cases (some a) = inr (a, refl)

-- Words of main memory are in range.
pub load_word : (ram : Ram) (addr : ℕ) → addr + 3 < 2 ^ 21 → Succeeds (ram_load32 ram addr)
unfolding ram_load32
load_word ram addr h = (
  ram.data_at addr
      + ram.data_at (add32 addr 1) << 8
      + ram.data_at (add32 addr 2) << 16
      + ram.data_at (add32 addr 3) << 24,
  ground arith,
)

pub store_word :
    (ram : Ram) (addr val : ℕ) → addr + 3 < 2 ^ 21 → Succeeds (ram_store32 ram addr val)
unfolding ram_store32
store_word ram addr val h = (_, written)
  where
    written :
        ram_store32 ram addr val
        ≡ some (record {
          data_at = λ j.
              if add32 addr 3 == j
              then u8 (val >> 24)
              else if add32 addr 2 == j
              then u8 (val >> 16)
              else if add32 addr 1 == j
              then u8 (val >> 8)
              else if addr == j
              then u8 val
              else ram.data_at j;
        })
    written = ground arith

pub word_address-in : (addr : ℕ) → word_address addr + 3 < 2 ^ 21
word_address-in addr = omega arith

-- How many of the first n words of memory are not visited yet.
pub unvisited : (ℕ → Bool) → ℕ → ℕ
unvisited visited zero = 0
unvisited visited (suc n) = of_bool (not (visited n)) + unvisited visited n

pub unvisited-none : (n : ℕ) → unvisited (λ i. false) n ≡ n
unfolding unvisited
unvisited-none zero = refl
unvisited-none (suc n) = omega (arith, unvisited-none n)

pub unvisited-above :
    (visited : ℕ → Bool) (i n : ℕ) → n ≤ i → unvisited (mark visited i) n ≡ unvisited visited n
unfolding unvisited
unvisited-above visited i zero h = refl
unvisited-above visited i (suc n) h =
    rw (==_false i n (omega arith), unvisited-above visited i n (omega arith)) refl

pub unvisited-marked :
    (visited : ℕ → Bool) (i n : ℕ)
    → i < n
    → visited i ≡ false
    → suc (unvisited (mark visited i) n) ≡ unvisited visited n
unfolding unvisited
unvisited-marked visited i zero h e = absurd (omega arith)
unvisited-marked visited i (suc n) h e = elim (dec_lt i n) [
  | yes below ↦
      rw (==_false i n (omega arith)) (omega (arith, unvisited-marked visited i n below e))
  | no top ↦
      let same : n ≡ i = omega arith in
      let last : visited n ≡ false = ap visited same ∙ e in
      let hit : (i == n) ≡ true = ground arith in
      rw (hit, last) (omega (arith, unvisited-above visited i n (omega arith)))
]
