-- ===== src/Sio/Poll.antt =====
-- sio.c: what a pad replies to the command that polls it.
use psx_emulator_em_c.Base.{
  ℕ, ◌<◌, ◌≤◌, zero, suc, subst, if◌then◌else◌, ◌==◌, ◌≡◌, refl, ap, ◌∙◌, arith, List, [], ◌∷◌,
  get_or, u8, ◌>>◌, Bool, true, false, Bool-cases, inl, inr,
}
use psx_emulator_em_c.Sio.{Sio, PadState}
use psx_emulator_em_c.Sio.Pads.{
  active_pad, put_pad, pad_id, pad_byte, pad_byte3, pad_byte4, pad_query, pad_response_byte,
  pad_response_length,
}

-- The bytes of a reply to 0x42.
abbrev pub poll_reply : PadState → List ℕ
poll_reply p =
    0xff
    ∷ pad_id p
    ∷ 0x5a
    ∷ u8 p.buttons
    ∷ u8 (p.buttons >> 8)
    ∷ p.right_x
    ∷ p.right_y
    ∷ p.left_x
    ∷ p.left_y
    ∷ []

put_active : (sio : Sio) → put_pad sio (active_pad sio) ≡ sio
put_active sio = elim (Bool-cases sio.slot2) [ inl e ↦ rw e refl | inr e ↦ rw e refl ]

-- A reply of more than five bytes is an analog pad's.
analog :
    (p : PadState) (index : ℕ)
    → (p.analog_enabled ≡ false → index < 5)
    → 5 ≤ index
    → p.analog_enabled ≡ true
analog p index digital h = elim (Bool-cases p.analog_enabled) [
  | inl e ↦ e
  | inr e ↦ absurd (omega (arith, digital e))
]

poll_byte :
    (p : PadState) (index value : ℕ)
    → (p.analog_enabled ≡ false → index < 5)
    → index < 9
    → pad_byte p 0x42 index value ≡ (p, get_or (poll_reply p) index 0xff)
unfolding pad_byte pad_byte3 pad_byte4 pad_query
poll_byte p zero value digital h = refl
poll_byte p (suc zero) value digital h = refl
poll_byte p (suc (suc zero)) value digital h = refl
poll_byte p (suc (suc (suc zero))) value digital h = refl
poll_byte p (suc (suc (suc (suc zero)))) value digital h = refl
poll_byte p (suc (suc (suc (suc (suc zero))))) value digital h =
    ap (λ (b : Bool). (p, if b then p.right_x else 0)) (analog p 5 digital (omega arith))
poll_byte p (suc (suc (suc (suc (suc (suc zero)))))) value digital h =
    ap (λ (b : Bool). (p, if b then p.right_y else 0)) (analog p 6 digital (omega arith))
poll_byte p (suc (suc (suc (suc (suc (suc (suc zero))))))) value digital h =
    ap (λ (b : Bool). (p, if b then p.left_x else 0)) (analog p 7 digital (omega arith))
poll_byte p (suc (suc (suc (suc (suc (suc (suc (suc zero)))))))) value digital h =
    ap (λ (b : Bool). (p, if b then p.left_y else 0)) (analog p 8 digital (omega arith))
poll_byte p (suc (suc (suc (suc (suc (suc (suc (suc (suc index))))))))) value digital h =
    absurd (omega arith)

-- A pad that is polled by the command 0x42 replies, as far as its reply reaches, with 0xFF, its
-- identification, 0x5A, the two bytes of the buttons, and, if it is analog, its sticks. The reply
-- changes nothing, whatever is sent.
pub pad_response_byte-poll :
    (sio : Sio) (index value : ℕ)
    → sio.pad_command ≡ 0x42
    → index < pad_response_length sio
    → pad_response_byte sio index value ≡ (sio, get_or (poll_reply (active_pad sio)) index 0xff)
unfolding pad_response_byte pad_response_length
pad_response_byte-poll sio index value command h =
    let p = active_pad sio in
    let reach : index < (if p.analog_enabled then 9 else 5) =
      subst (λ (n : ℕ). index < (if n == 0x42 then (if p.analog_enabled then 9 else 5) else 9))
        command h in
    let digital : p.analog_enabled ≡ false → index < 5 =
      λ e. subst (λ (b : Bool). index < (if b then 9 else 5)) e reach in
    let byte = poll_byte p index value digital (omega (arith, reach_le p.analog_enabled reach)) in
    ap (λ (c : ℕ). let (q, reply) = pad_byte p c index value in (put_pad sio q, reply)) command
    ∙ ap (λ (r : PadState × ℕ). (put_pad sio r.0, r.1)) byte
    ∙ ap (λ (s : Sio). (s, get_or (poll_reply p) index 0xff)) (put_active sio)
  where
    reach_le : (b : Bool) → index < (if b then 9 else 5) → index < 9
    reach_le true r = r
    reach_le false r = omega (arith, r)
