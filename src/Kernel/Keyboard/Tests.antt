-- ===== src/Kernel/Keyboard/Tests.antt =====
-- The theorems about the keyboard, applied to one terminal and its shell.
use cleon_os_jgz_yes_fork.Base.{ℕ, ◌≡◌, true, false, [], ◌∷◌}
use cleon_os_jgz_yes_fork.Kernel.Keyboard.{Keyboard, KbdConfig, Console, pop_char_for_tty, init}
use cleon_os_jgz_yes_fork.Kernel.Keyboard.Queue.{
  IsKeyboard, init-IsKeyboard, pop_char_for_tty-IsKeyboard,
}
use cleon_os_jgz_yes_fork.Kernel.Keyboard.Spec.{
  push, pop, replies, replies_spec, view, replies-eq-spec,
}
use cleon_os_jgz_yes_fork.Kernel.Keyboard.Decode.{sc_c, handle_scancode}
use cleon_os_jgz_yes_fork.Kernel.Keyboard.Scancodes.{handle_scancode-IsKeyboard}

-- The state of the other components is the terminal that is active; the shell takes a character.
abbrev demo_console : Console ℕ
demo_console = record {
  tty_count = λ e. 4;
  tty_active = λ e. e;
  tty_switch = λ e t. t;
  scrollback_page_up = λ e. e;
  scrollback_page_down = λ e. e;
  exec_is_running = λ e. false;
  force_stop = λ e t. e;
  pump = λ k e. ((pop_char_for_tty 4 k e).1, e);
}

abbrev demo_config : KbdConfig
demo_config = record { tty_switch_hotkey = true; ctrl_shortcuts = true; force_stop_hotkey = true }

demo_pump : (k : Keyboard) (e : ℕ) → IsKeyboard k → IsKeyboard (demo_console.pump k e).0
demo_pump k e v = pop_char_for_tty-IsKeyboard 4 k e v

replies-eq-spec_example :
    replies 4 (push 1 b'a' ∷ push 1 b'b' ∷ pop 1 ∷ pop 0 ∷ []) init
    ≡ replies_spec 4 (push 1 b'a' ∷ push 1 b'b' ∷ pop 1 ∷ pop 0 ∷ []) (view init)
replies-eq-spec_example =
    replies-eq-spec 4 (push 1 b'a' ∷ push 1 b'b' ∷ pop 1 ∷ pop 0 ∷ []) init init-IsKeyboard

handle_scancode-IsKeyboard_example :
    IsKeyboard (handle_scancode demo_console demo_config sc_c (init, 0)).0
handle_scancode-IsKeyboard_example =
    handle_scancode-IsKeyboard demo_console demo_pump demo_config sc_c init 0 init-IsKeyboard
