-- ===== src/Kernel/Keyboard/Decode.antt =====
-- `clks_keyboard_handle_scancode` of clks/kernel/keyboard.c, the log lines aside, over the state of
-- the keyboard and that of the other components.
use cleon_os_jgz_yes_fork.Base.{
  leb, ◌==◌, if◌then◌else◌, add64, ℕ, ◌-◌, ◌%◌, Bool, true, false, not, ◌&&◌,
}
use cleon_os_jgz_yes_fork.Kernel.Keyboard.{
  Keyboard, KbdConfig, Console, queue_push_for_tty, ctrl_active, ctrl_shortcut, translate_scancode,
  translate_ext_scancode,
}

-- CLKS_SC_EXT_PREFIX
abbrev pub ext_prefix : ℕ
ext_prefix = 0xE0

-- CLKS_SC_CTRL, CLKS_SC_ALT, CLKS_SC_LSHIFT, CLKS_SC_RSHIFT, CLKS_SC_C, CLKS_SC_F1, CLKS_SC_F4
abbrev pub sc_ctrl : ℕ
sc_ctrl = 0x1D

abbrev pub sc_alt : ℕ
sc_alt = 0x38

abbrev pub sc_lshift : ℕ
sc_lshift = 0x2A

abbrev pub sc_rshift : ℕ
sc_rshift = 0x36

abbrev pub sc_c : ℕ
sc_c = 0x2E

abbrev pub sc_f1 : ℕ
sc_f1 = 0x3B

abbrev pub sc_f4 : ℕ
sc_f4 = 0x3E

-- A release of the key ends the force stop.
abbrev pub unlatch : Bool → Keyboard → Keyboard
unlatch released k = if released then record k { force_stop_latch = false } else k

-- The branches of the modifier keys.
unfoldable pub handle_ctrl : Bool → Keyboard → Keyboard
handle_ctrl released k = unlatch released (
    if k.e0_prefix
    then record k { rctrl_down = not released; e0_prefix = false }
    else record k { lctrl_down = not released })

unfoldable pub handle_alt : Bool → Keyboard → Keyboard
handle_alt released k = unlatch released (record k { alt_down = not released; e0_prefix = false })

-- A key other than the modifiers is released.
unfoldable pub handle_release : ℕ → Keyboard → Keyboard
handle_release code k = unlatch (code == sc_c) (record k { e0_prefix = false })

module _ {E : Type 0} (c : Console E) where
  -- `clks_keyboard_should_pump_shell_now`
  abbrev pub should_pump_shell_now : E → Bool
  should_pump_shell_now e = if c.tty_active e == 0 then not (c.exec_is_running e) else false

  -- A character is queued for a terminal, and the kernel shell takes it if it is its turn.
  unfoldable pub deliver : ℕ → ℕ → Keyboard × E → Keyboard × E
  deliver tty_index ch (k, e) =
      let (queued, k') = queue_push_for_tty (c.tty_count e) k tty_index ch in
      if queued then (if should_pump_shell_now e then c.pump k' e else (k', e)) else (k', e)

  -- `clks_keyboard_try_emit_ctrl_shortcut`
  unfoldable pub try_emit_ctrl_shortcut : KbdConfig → ℕ → ℕ → Keyboard × E → Bool × (Keyboard × E)
  unfolding deliver
  try_emit_ctrl_shortcut cfg code tty_index (k, e) =
      if cfg.ctrl_shortcuts && ctrl_active k
      then (if ctrl_shortcut code == 0
          then (false, (k, e))
          else (true, deliver tty_index (ctrl_shortcut code) (k, e)))
      else (false, (k, e))

  -- `clks_keyboard_try_force_stop_hotkey`
  unfoldable pub try_force_stop_hotkey : KbdConfig → ℕ → Keyboard × E → Bool × (Keyboard × E)
  try_force_stop_hotkey cfg code (k, e) =
      if cfg.force_stop_hotkey && (code == sc_c) && k.alt_down && ctrl_active k
      then (if k.force_stop_latch
          then (true, (k, e))
          else (true, (record k { force_stop_latch = true }, c.force_stop e (c.tty_active e))))
      else (false, (k, e))

  -- A key behind the prefix is pressed.
  unfoldable pub handle_ext : ℕ → Keyboard × E → Keyboard × E
  unfolding deliver
  handle_ext code (k, e) =
      let k' = record k { e0_prefix = false } in
      let ext = translate_ext_scancode k' code in
      if code == 0x49
      then (k', c.scrollback_page_up e)
      else (if code == 0x51
          then (k', c.scrollback_page_down e)
          else (if ext == 0 then (k', e) else deliver (c.tty_active e) ext (k', e)))

  -- The switch to another terminal by alt and a function key.
  unfoldable pub handle_tty_hotkey : ℕ → Keyboard × E → Keyboard × E
  handle_tty_hotkey code (k, e) =
      let e' = c.tty_switch e (code - sc_f1) in
      if c.tty_active e' == c.tty_active e
      then (k, e')
      else (record k { hotkey_switches = add64 k.hotkey_switches 1 }, e')

  -- Any other key is pressed.
  unfoldable pub handle_key : KbdConfig → ℕ → Keyboard × E → Keyboard × E
  unfolding try_force_stop_hotkey try_emit_ctrl_shortcut deliver
  handle_key cfg code (k, e) =
      let (stopped, s1) = try_force_stop_hotkey cfg code (k, e) in
      let (emitted, s2) = try_emit_ctrl_shortcut cfg code (c.tty_active e) s1 in
      let translated = translate_scancode s2.0 code in
      if stopped
      then s1
      else (if emitted
          then s2
          else (if translated == 0 then s2 else deliver (c.tty_active e) translated s2))

  -- `clks_keyboard_handle_scancode`
  unfoldable pub handle_scancode : KbdConfig → ℕ → Keyboard × E → Keyboard × E
  unfolding handle_ctrl handle_alt handle_release handle_ext handle_tty_hotkey handle_key
  handle_scancode cfg scancode (k, e) =
      let released = leb 128 scancode in
      let code = scancode % 128 in
      if scancode == ext_prefix
      then (record k { e0_prefix = true }, e)
      else (if code == sc_ctrl
          then (handle_ctrl released k, e)
          else (if code == sc_alt
              then (handle_alt released k, e)
              else (if code == sc_lshift
                  then (record k { lshift_down = not released }, e)
                  else (if code == sc_rshift
                      then (record k { rshift_down = not released }, e)
                      else (if released
                          then (handle_release code k, e)
                          else (if k.e0_prefix
                              then handle_ext code (k, e)
                              else (if cfg.tty_switch_hotkey
                                    && k.alt_down
                                    && leb sc_f1 code
                                    && leb code sc_f4
                                  then handle_tty_hotkey code (k, e)
                                  else handle_key cfg code (k, e))))))))
