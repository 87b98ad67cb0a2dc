-- ===== src/Interconnect/Serving.antt =====
-- interconnect.c: the accesses that the entries of the memory map make stay inside of the arrays.
use psx_emulator_em_c.Base.{
  ℕ, zero, suc, ◌+◌, ◌%◌, ◌^◌, ◌<◌, ◌≤◌, ◌≡◌, refl, sym, subst, arith, true, Option, some, List, [],
  ◌∷◌, All, ltb, lt→ltb, leb, ◌==◌, if◌then◌else◌, Bool-cases, if-cases, inl, inr, u8, ◌<<◌, ◌>>◌,
  clear_low, add32,
}
use psx_emulator_em_c.Dma.{Dma, port_from_index}
use psx_emulator_em_c.Ram.{◌>>=◌, Ram, ram_load16, ram_load8, ram_store16, ram_store8}
use psx_emulator_em_c.Bios.{byte_of, word_of, half_of}
use psx_emulator_em_c.Interconnect.Map.{Range, range_contains, route}
use psx_emulator_em_c.Interconnect.Control.{
  major, minor, dma_reg_read, dma_reg_read16, dma_reg_read8,
}
use psx_emulator_em_c.Interconnect.Visited.{Option-cases, Succeeds}

-- An entry of a map serves every address of its range that has the property.
abbrev pub ServesIf {ℓ} : {A : Type ℓ} → (ℕ → Type 0) → Range × (ℕ → Option A) → Type ℓ
ServesIf P r = (off : ℕ) → off < (r.0).length → P ((r.0).start + off) → Succeeds (r.1 off)

-- An entry serves every address of its range that is a multiple of n.
abbrev pub Serves {ℓ} : {A : Type ℓ} → ℕ → Range × (ℕ → Option A) → Type ℓ
Serves n = ServesIf (λ a. a % n ≡ 0)

pub in_range :
    (r : Range) (addr : ℕ) {off : ℕ}
    → range_contains r addr ≡ some off
    → (off < r.length) × (r.start + off ≡ addr)
in_range r addr h = ground arith

pub route-succeeds {ℓ} :
    {A : Type ℓ} (P : ℕ → Type 0) (rs : List (Range × (ℕ → Option A))) (addr : ℕ) {u : Option A}
    → All (ServesIf P) rs
    → P addr
    → Succeeds u
    → Succeeds (route rs addr u)
unfolding route
route-succeeds P [] addr s al u = u
route-succeeds P (r ∷ rs) addr s al u = elim (Option-cases (range_contains r.0 addr)) [
  | inl out ↦ rw (route, out) (route-succeeds P rs addr s.1 al u)
  | inr at ↦
      let i = in_range r.0 addr at.1 in rw (route, at.1) (s.0 at.0 i.0 (subst P (sym i.1) al))
]

pub word_of-succeeds :
    (size : ℕ) (bytes : ℕ → ℕ) (off : ℕ) → off + 3 < size → Succeeds (word_of size bytes off)
unfolding word_of
word_of-succeeds size bytes off h =
    (bytes off + bytes (off + 1) << 8 + bytes (off + 2) << 16 + bytes (off + 3) << 24, ground arith)

pub half_of-succeeds :
    (size : ℕ) (bytes : ℕ → ℕ) (off : ℕ) → off + 1 < size → Succeeds (half_of size bytes off)
unfolding half_of
half_of-succeeds size bytes off h = (bytes off + bytes (off + 1) << 8, ground arith)

pub byte_of-succeeds :
    (size : ℕ) (bytes : ℕ → ℕ) (off : ℕ) → off < size → Succeeds (byte_of size bytes off)
byte_of-succeeds size bytes off h =
    let t : ltb off size ≡ true = lt→ltb off size h in rw t (_, refl)

pub port-succeeds : (n : ℕ) → n ≤ 6 → Succeeds (port_from_index n)
unfolding port_from_index
port-succeeds zero h = (_, refl)
port-succeeds (suc zero) h = (_, refl)
port-succeeds (suc (suc zero)) h = (_, refl)
port-succeeds (suc (suc (suc zero))) h = (_, refl)
port-succeeds (suc (suc (suc (suc zero)))) h = (_, refl)
port-succeeds (suc (suc (suc (suc (suc zero))))) h = (_, refl)
port-succeeds (suc (suc (suc (suc (suc (suc zero)))))) h = (_, refl)
port-succeeds (suc (suc (suc (suc (suc (suc (suc n))))))) h = absurd (omega arith)

pub dma_reg_read-succeeds : (dma : Dma) (off : ℕ) → Succeeds (dma_reg_read dma off)
unfolding dma_reg_read
dma_reg_read-succeeds dma off = elim (Bool-cases (leb (major off) 6)) [
  | inl channel ↦
      let port = port-succeeds (major off) (ground arith) in
      rw (dma_reg_read, channel) (rw (port.1) (_, refl))
  | inr other ↦
      rw (dma_reg_read, other)
        (if-cases Succeeds (minor off == 0) (_, refl)
          (if-cases Succeeds (minor off == 4) (_, refl) (_, refl)))
]

pub bind-succeeds :
    {A B : Type 0} (o : Option A) (f : A → Option B)
    → Succeeds o
    → ((a : A) → Succeeds (f a))
    → Succeeds (o >>= f)
bind-succeeds o f s k = rw (s.1) (k s.0)

pub dma_reg_read16-succeeds : (dma : Dma) (off : ℕ) → Succeeds (dma_reg_read16 dma off)
unfolding dma_reg_read16
dma_reg_read16-succeeds dma off =
    bind-succeeds _ _ (dma_reg_read-succeeds dma (clear_low off 2)) (λ w. (_, refl))

pub dma_reg_read8-succeeds : (dma : Dma) (off : ℕ) → Succeeds (dma_reg_read8 dma off)
unfolding dma_reg_read8
dma_reg_read8-succeeds dma off =
    bind-succeeds _ _ (dma_reg_read-succeeds dma (clear_low off 2)) (λ w. (_, refl))

pub load_half : (ram : Ram) (addr : ℕ) → addr + 1 < 2 ^ 21 → Succeeds (ram_load16 ram addr)
unfolding ram_load16
load_half ram addr h = (ram.data_at addr + ram.data_at (add32 addr 1) << 8, ground arith)

pub load_byte : (ram : Ram) (addr : ℕ) → addr < 2 ^ 21 → Succeeds (ram_load8 ram addr)
unfolding ram_load8
load_byte ram addr h = (ram.data_at addr, ground arith)

pub store_byte : (ram : Ram) (addr val : ℕ) → addr < 2 ^ 21 → Succeeds (ram_store8 ram addr val)
unfolding ram_store8
store_byte ram addr val h =
    (record { data_at = λ j. if addr == j then u8 val else ram.data_at j }, ground arith)

pub store_half :
    (ram : Ram) (addr val : ℕ) → addr + 1 < 2 ^ 21 → Succeeds (ram_store16 ram addr val)
unfolding ram_store16
store_half ram addr val h = (_, written)
  where
    written :
        ram_store16 ram addr val
        ≡ some (record {
          data_at = λ j.
              if add32 addr 1 == j
              then u8 (val >> 8)
              else if addr == j
              then u8 val
              else ram.data_at j;
        })
    written = ground arith
