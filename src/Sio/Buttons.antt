-- ===== src/Sio/Buttons.antt =====
-- sio.c: the state of the buttons and sticks that the front end sets.
use psx_emulator_em_c.Base.{ℕ, ◌^◌, Bool, ◌==◌, if◌then◌else◌, bit_and, bit_or, List, [], ◌∷◌}
use psx_emulator_em_c.Sio.{Sio, PadState, refresh_pad_buttons, not16}

unfoldable pub sio_set_button : Sio → ℕ → Bool → Sio
sio_set_button sio mask pressed =
    let buttons = sio.controller_buttons in
    refresh_pad_buttons (record sio {
      controller_buttons = if pressed then bit_or buttons mask else bit_and buttons (not16 mask);
    })

unfoldable pub sio_set_port_controller_state : Sio → ℕ → ℕ → Sio
sio_set_port_controller_state sio port pressed_mask =
    if port == 0
    then refresh_pad_buttons (record sio { controller_buttons = pressed_mask })
    else if port == 1
    then refresh_pad_buttons (record sio { controller_buttons_port2 = pressed_mask })
    else sio

unfoldable pub sio_set_controller_state : Sio → ℕ → Sio
sio_set_controller_state sio pressed_mask = sio_set_port_controller_state sio 0 pressed_mask

unfoldable pub sio_set_port_analog_state : Sio → ℕ → ℕ → ℕ → ℕ → ℕ → Sio
sio_set_port_analog_state sio port left_x left_y right_x right_y =
    let move : PadState → PadState =
      λ p. record p { left_x = left_x; left_y = left_y; right_x = right_x; right_y = right_y } in
    if port == 0
    then record sio { pad = move sio.pad }
    else if port == 1
    then record sio { pad_port2 = move sio.pad_port2 }
    else sio

unfoldable pub sio_set_forced_state : Sio → ℕ → Sio
sio_set_forced_state sio pressed_mask =
    refresh_pad_buttons (record sio { forced_buttons = pressed_mask })

unfoldable pub sio_clear_keyboard_state : Sio → Sio
sio_clear_keyboard_state sio = refresh_pad_buttons (record sio { keyboard_buttons = 0 })

-- The keys of the table, whose scan codes are SDL's.
pub data Key : Type 0 where
  key_up key_down key_left key_right key_return key_rshift key_z key_x key_a key_s key_q key_w key_1
        key_2 :
      Key

abbrev pub key_map : List (Key × ℕ)
key_map =
    (key_up, 2 ^ 4)
    ∷ (key_down, 2 ^ 6)
    ∷ (key_left, 2 ^ 7)
    ∷ (key_right, 2 ^ 5)
    ∷ (key_return, 2 ^ 3)
    ∷ (key_rshift, 2 ^ 0)
    ∷ (key_z, 2 ^ 14)
    ∷ (key_x, 2 ^ 13)
    ∷ (key_a, 2 ^ 15)
    ∷ (key_s, 2 ^ 12)
    ∷ (key_q, 2 ^ 10)
    ∷ (key_w, 2 ^ 11)
    ∷ (key_1, 2 ^ 8)
    ∷ (key_2, 2 ^ 9)
    ∷ []

module _ (scancode : Key → ℕ) where
  unfoldable pub press_key : List (Key × ℕ) → Sio → ℕ → Bool → Sio
  press_key [] sio sc pressed = sio
  press_key ((key, mask) ∷ keys) sio sc pressed =
      let buttons = sio.keyboard_buttons in
      let rest = press_key keys sio sc pressed in
      if scancode key == sc
      then refresh_pad_buttons (record sio {
        keyboard_buttons = if pressed then bit_or buttons mask else bit_and buttons (not16 mask);
      })
      else rest

  unfoldable pub sio_on_key : Sio → ℕ → Bool → Sio
  sio_on_key sio sc pressed = press_key key_map sio sc pressed
