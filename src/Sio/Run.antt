-- ===== src/Sio/Run.antt =====
-- sio.c: the orders in which the serial port is used, and what holds in all of them.
use psx_emulator_em_c.Base.{
  ℤ, ◌||◌, leb, length, [], ◌∷◌, ℕ, refl, arith, Bool, if-cases, List, Option, none, some, ◌==◌,
  clear_low,
}
use psx_emulator_em_c.Irq.{Irq}
use psx_emulator_em_c.Sio.{Sio, reset_transaction, sio_init, refresh_pad_buttons}
use psx_emulator_em_c.Sio.Card.{
  Bytes, CardFile, sio_memory_card_load, mount_file, absent, unreadable, opened, is_empty,
  sio_memory_card_eject,
}
use psx_emulator_em_c.Sio.Registers.{
  sio_load16, sio_load8, sio_store16, sio_store8, sio_step, select_device, store_ctrl, apply_ctrl,
  written_ctrl,
}
use psx_emulator_em_c.Sio.Buttons.{
  sio_set_button, sio_set_port_controller_state, sio_set_port_analog_state, sio_set_forced_state,
  sio_clear_keyboard_state, sio_on_key, press_key, Key, key_map,
}
use psx_emulator_em_c.Sio.Fifo.{
  IsFifo, fits-IsFifo, SameFifo, SameFifo-IsFifo, reset_transaction-IsFifo, load_rx_data-IsFifo,
  store_tx_data-IsFifo,
}

load16-IsFifo : {sio : Sio} (off : ℕ) → IsFifo sio → IsFifo (sio_load16 sio off).0
unfolding sio_load16
load16-IsFifo {sio} off v =
    if-cases (λ (r : Sio × ℕ). IsFifo r.0) (off == 0) (load_rx_data-IsFifo v)
      (SameFifo-IsFifo (ground arith) v)

load8-IsFifo : {sio : Sio} (off : ℕ) → IsFifo sio → IsFifo (sio_load8 sio off).0
unfolding sio_load8
load8-IsFifo {sio} off v =
    if-cases (λ (r : Sio × ℕ). IsFifo r.0) (off == 0) (load_rx_data-IsFifo v)
      (load16-IsFifo (clear_low off 1) v)

apply_ctrl-IsFifo : {sio : Sio} (val : ℕ) → IsFifo sio → IsFifo (apply_ctrl sio val)
unfolding apply_ctrl select_device reset_transaction
apply_ctrl-IsFifo {sio} val v =
    fits-IsFifo (apply_ctrl sio val) (ground (arith, v.rx_buf_length, v.write_length))

store_ctrl-IsFifo : {sio : Sio} (val : ℕ) → IsFifo sio → IsFifo (store_ctrl sio val)
unfolding store_ctrl
store_ctrl-IsFifo {sio} val v =
    SameFifo-IsFifo (refl, refl, refl, refl) (apply_ctrl-IsFifo (written_ctrl sio val) v)

store16-IsFifo : {sio : Sio} (off val : ℕ) → IsFifo sio → IsFifo (sio_store16 sio off val)
unfolding sio_store16
store16-IsFifo {sio} off val v =
    if-cases IsFifo (off == 8) (SameFifo-IsFifo (refl, refl, refl, refl) v)
      (if-cases IsFifo (off == 0xa) (store_ctrl-IsFifo val v) (SameFifo-IsFifo (ground arith) v))

step-SameFifo : (sio : Sio) (irq : Irq) (cycles : ℕ) → SameFifo sio (sio_step sio irq cycles).0
unfolding sio_step
step-SameFifo sio irq cycles = ground arith

eject-IsFifo : {sio : Sio} → IsFifo sio → IsFifo (sio_memory_card_eject sio)
unfolding sio_memory_card_eject
eject-IsFifo v = reset_transaction-IsFifo (SameFifo-IsFifo (refl, refl, refl, refl) v)

port-SameFifo :
    (sio : Sio) (port mask : ℕ) → SameFifo sio (sio_set_port_controller_state sio port mask)
unfolding sio_set_port_controller_state refresh_pad_buttons
port-SameFifo sio port mask = ground arith

analog-SameFifo :
    (sio : Sio) (port a b c d : ℕ) → SameFifo sio (sio_set_port_analog_state sio port a b c d)
unfolding sio_set_port_analog_state
analog-SameFifo sio port a b c d = ground arith

key-SameFifo :
    (scancode : Key → ℕ) (keys : List (Key × ℕ)) (sio : Sio) (sc : ℕ) (pressed : Bool)
    → SameFifo sio (press_key scancode keys sio sc pressed)
unfolding press_key refresh_pad_buttons
key-SameFifo scancode [] sio sc pressed = (refl, refl, refl, refl)
key-SameFifo scancode ((key, mask) ∷ keys) sio sc pressed =
    ground (arith, key-SameFifo scancode keys sio sc pressed)

module _ (write_file : List ℕ → Bytes → Bool) where
  mount_file-IsFifo :
      {sio : Sio} (path : List ℕ) (file : CardFile)
      → IsFifo sio
      → IsFifo (mount_file write_file sio path file).0
  unfolding mount_file sio_memory_card_eject reset_transaction
  mount_file-IsFifo {sio} path absent v =
      fits-IsFifo (mount_file write_file sio path absent).0
        (ground (arith, v.rx_buf_length, v.write_length))
  mount_file-IsFifo path unreadable v = v
  mount_file-IsFifo path (opened bytes size extra read_error) v = SameFifo-IsFifo (ground arith) v

  load-IsFifo :
      {sio : Sio} (path : Option (List ℕ)) (file : CardFile)
      → IsFifo sio
      → IsFifo (sio_memory_card_load write_file sio path file).0
  unfolding sio_memory_card_load
  load-IsFifo none file v = v
  load-IsFifo {sio} (some path) file v =
      if-cases (λ (r : Sio × ℤ). IsFifo r.0) (is_empty path || leb 512 (length path)) v
        (mount_file-IsFifo path file v)

  store8-IsFifo :
      {sio : Sio} (off val : ℕ) → IsFifo sio → IsFifo (sio_store8 write_file sio off val)
  unfolding sio_store8
  store8-IsFifo {sio} off val v =
      if-cases IsFifo (off == 0) (store_tx_data-IsFifo write_file val v)
        (store16-IsFifo (clear_low off 1) _ (load16-IsFifo (clear_low off 1) v))

-- What the file system does in a call that reaches the card's file.
abbrev pub WriteFile : Type 0
WriteFile = List ℕ → Bytes → Bool

module _ (scancode : Key → ℕ) where
  -- One call of the port's interface.
  pub data Use : Sio → Sio → Type 0 where
    by_load8 : (sio : Sio) (off : ℕ) → Use sio (sio_load8 sio off).0
    by_load16 : (sio : Sio) (off : ℕ) → Use sio (sio_load16 sio off).0
    by_store8 :
        (write_file : WriteFile) (sio : Sio) (off val : ℕ)
        → Use sio (sio_store8 write_file sio off val)
    by_store16 : (sio : Sio) (off val : ℕ) → Use sio (sio_store16 sio off val)
    by_step : (sio : Sio) (irq : Irq) (cycles : ℕ) → Use sio (sio_step sio irq cycles).0
    by_button : (sio : Sio) (mask : ℕ) (pressed : Bool) → Use sio (sio_set_button sio mask pressed)
    by_port : (sio : Sio) (port mask : ℕ) → Use sio (sio_set_port_controller_state sio port mask)
    by_stick :
        (sio : Sio) (port left_x left_y right_x right_y : ℕ)
        → Use sio (sio_set_port_analog_state sio port left_x left_y right_x right_y)
    by_key : (sio : Sio) (sc : ℕ) (pressed : Bool) → Use sio (sio_on_key scancode sio sc pressed)
    by_forced : (sio : Sio) (mask : ℕ) → Use sio (sio_set_forced_state sio mask)
    by_clear : (sio : Sio) → Use sio (sio_clear_keyboard_state sio)
    by_card :
        (write_file : WriteFile) (sio : Sio) (path : Option (List ℕ)) (file : CardFile)
        → Use sio (sio_memory_card_load write_file sio path file).0
    by_eject : (sio : Sio) → Use sio (sio_memory_card_eject sio)

  -- The states that calls in any order lead to.
  pub data Used : Sio → Type 0 where
    start : Used sio_init
    use_of : (sio sio' : Sio) → Used sio → Use sio sio' → Used sio'

  Use-IsFifo : {sio sio' : Sio} → Use sio sio' → IsFifo sio → IsFifo sio'
  unfolding sio_set_button sio_set_forced_state sio_clear_keyboard_state sio_on_key
      refresh_pad_buttons
  Use-IsFifo (by_load8 sio off) v = load8-IsFifo off v
  Use-IsFifo (by_load16 sio off) v = load16-IsFifo off v
  Use-IsFifo (by_store8 write_file sio off val) v = store8-IsFifo write_file off val v
  Use-IsFifo (by_store16 sio off val) v = store16-IsFifo off val v
  Use-IsFifo (by_step sio irq cycles) v = SameFifo-IsFifo (step-SameFifo sio irq cycles) v
  Use-IsFifo (by_button sio mask pressed) v = SameFifo-IsFifo (refl, refl, refl, refl) v
  Use-IsFifo (by_port sio port mask) v = SameFifo-IsFifo (port-SameFifo sio port mask) v
  Use-IsFifo (by_stick sio port a b c d) v = SameFifo-IsFifo (analog-SameFifo sio port a b c d) v
  Use-IsFifo (by_key sio sc pressed) v =
      SameFifo-IsFifo (key-SameFifo scancode key_map sio sc pressed) v
  Use-IsFifo (by_forced sio mask) v = SameFifo-IsFifo (refl, refl, refl, refl) v
  Use-IsFifo (by_clear sio) v = SameFifo-IsFifo (refl, refl, refl, refl) v
  Use-IsFifo (by_card write_file sio path file) v = load-IsFifo write_file path file v
  Use-IsFifo (by_eject sio) v = eject-IsFifo v

  sio_init-IsFifo : IsFifo sio_init
  unfolding sio_init refresh_pad_buttons
  sio_init-IsFifo = record {
    rx_buf_length = refl;
    rx_pos-rx_len = omega arith;
    rx_len-le = omega arith;
    write_length = refl;
  }

  -- In every state that calls of the port's interface lead to from its start, in any order and with
  -- any arguments and files, the buffer of received bytes and the one of the sector have their sizes,
  -- and the bytes not yet read end within the 16 of the buffer.
  pub Used-IsFifo : {sio : Sio} → Used sio → IsFifo sio
  Used-IsFifo start = sio_init-IsFifo
  Used-IsFifo (use_of sio sio' u step) = Use-IsFifo step (Used-IsFifo u)
