-- ===== src/Kernel/Keyboard.antt =====
-- The keyboard, clks/kernel/keyboard.c: a ring of pending characters for each terminal, and the
-- decoding of scancodes. What the decoder asks of the terminals, the executables and the kernel
-- shell is an interface, `Console`, over any state of theirs.
pub mod Fifo
pub mod Queue
pub mod Spec
pub mod Decode
pub mod Scancodes
mod Tests
use cleon_os_jgz_yes_fork.Base.{
  ltb, leb, ◌==◌, if◌then◌else◌, get_or, add64, store, ℕ, zero, suc, ◌+◌, ◌-◌, ◌%◌, Bool, true,
  false, ◌||◌, Option, none, some, List, [], ◌∷◌,
}

-- CLKS_KBD_INPUT_CAP
abbrev pub input_cap : ℕ
input_cap = 256

-- CLKS_KBD_TTY_MAX
abbrev pub tty_max : ℕ
tty_max = 8

-- The queue of one terminal: its row of `clks_kbd_input_queue`, and its head, tail and count.
pub record Ring : Type 0 where
  pub slots : ℕ → ℕ
  pub head : ℕ
  pub tail : ℕ
  pub count : ℕ

-- The static variables of keyboard.c.
pub record Keyboard : Type 0 where
  pub rings : ℕ → Ring
  pub alt_down : Bool
  pub lshift_down : Bool
  pub rshift_down : Bool
  pub lctrl_down : Bool
  pub rctrl_down : Bool
  pub e0_prefix : Bool
  pub force_stop_latch : Bool
  pub hotkey_switches : ℕ
  pub push_count : ℕ
  pub pop_count : ℕ
  pub drop_count : ℕ

-- `clks_kbd_map`, from scancode 0 on.
abbrev pub kbd_map : List ℕ
kbd_map =
    0 ∷ 0 ∷ b'1' ∷ b'2' ∷ b'3' ∷ b'4' ∷ b'5' ∷ b'6' ∷ b'7' ∷ b'8' ∷ b'9' ∷ b'0' ∷ b'-' ∷ b'=' ∷ 8
    ∷ 9 ∷ b'q' ∷ b'w' ∷ b'e' ∷ b'r' ∷ b't' ∷ b'y' ∷ b'u' ∷ b'i' ∷ b'o' ∷ b'p' ∷ b'[' ∷ b']' ∷ 10 ∷ 0
    ∷ b'a' ∷ b's' ∷ b'd' ∷ b'f' ∷ b'g' ∷ b'h' ∷ b'j' ∷ b'k' ∷ b'l' ∷ b';' ∷ 39 ∷ b'`' ∷ 0 ∷ 92
    ∷ b'z' ∷ b'x' ∷ b'c' ∷ b'v' ∷ b'b' ∷ b'n' ∷ b'm' ∷ b',' ∷ b'.' ∷ b'/' ∷ 0 ∷ 0 ∷ 0 ∷ b' ' ∷ []

-- `clks_kbd_shift_map`, from scancode 0 on.
abbrev pub kbd_shift_map : List ℕ
kbd_shift_map =
    0 ∷ 0 ∷ b'!' ∷ b'@' ∷ b'#' ∷ b'$' ∷ b'%' ∷ b'^' ∷ b'&' ∷ b'*' ∷ b'(' ∷ b')' ∷ b'_' ∷ b'+' ∷ 8
    ∷ 9 ∷ b'Q' ∷ b'W' ∷ b'E' ∷ b'R' ∷ b'T' ∷ b'Y' ∷ b'U' ∷ b'I' ∷ b'O' ∷ b'P' ∷ b'{' ∷ b'}' ∷ 10 ∷ 0
    ∷ b'A' ∷ b'S' ∷ b'D' ∷ b'F' ∷ b'G' ∷ b'H' ∷ b'J' ∷ b'K' ∷ b'L' ∷ b':' ∷ 34 ∷ b'~' ∷ 0 ∷ b'|'
    ∷ b'Z' ∷ b'X' ∷ b'C' ∷ b'V' ∷ b'B' ∷ b'N' ∷ b'M' ∷ b'<' ∷ b'>' ∷ b'?' ∷ 0 ∷ 0 ∷ 0 ∷ b' ' ∷ []

abbrev pub empty_ring : Ring
empty_ring = record { slots = λ i. 0; head = 0; tail = 0; count = 0 }

-- `clks_keyboard_init`. What stands in a queue of count 0 is never read.
unfoldable pub init : Keyboard
init = record {
  rings = λ t. empty_ring;
  alt_down = false;
  lshift_down = false;
  rshift_down = false;
  lctrl_down = false;
  rctrl_down = false;
  e0_prefix = false;
  force_stop_latch = false;
  hotkey_switches = 0;
  push_count = 0;
  pop_count = 0;
  drop_count = 0;
}

-- `clks_keyboard_effective_tty_count`, of what `clks_tty_count` returns.
unfoldable pub effective_tty_count : ℕ → ℕ
effective_tty_count n = if n == 0 then 1 else (if ltb tty_max n then tty_max else n)

-- `clks_keyboard_clamp_tty_index`
unfoldable pub clamp_tty_index : ℕ → ℕ → ℕ
unfolding effective_tty_count
clamp_tty_index tty_count i = if leb (effective_tty_count tty_count) i then 0 else i

-- The writes of `clks_keyboard_queue_push_for_tty` to a queue that is not full.
unfoldable pub push_ring : Ring → ℕ → Ring
push_ring r ch = record r {
  slots = store r.slots r.head ch;
  head = (r.head + 1) % input_cap;
  count = r.count + 1;
}

-- The writes of `clks_keyboard_pop_char_for_tty` to a queue that is not empty.
unfoldable pub pop_ring : Ring → Ring
pop_ring r = record r { tail = (r.tail + 1) % input_cap; count = r.count - 1 }

-- `clks_keyboard_queue_push_for_tty`, the log lines aside. The first argument is the number of
-- terminals.
unfoldable pub queue_push_for_tty : ℕ → Keyboard → ℕ → ℕ → Bool × Keyboard
unfolding clamp_tty_index push_ring
queue_push_for_tty tty_count k tty_index ch =
    let tty = clamp_tty_index tty_count tty_index in
    if leb input_cap (k.rings tty).count
    then (false, record k { drop_count = add64 k.drop_count 1 })
    else (
      true,
      record k {
        rings = store k.rings tty (push_ring (k.rings tty) ch);
        push_count = add64 k.push_count 1;
      },
    )

-- `clks_keyboard_pop_char_for_tty` into a place that is not NULL; `none` is failure.
unfoldable pub pop_char_for_tty : ℕ → Keyboard → ℕ → Option ℕ × Keyboard
unfolding clamp_tty_index pop_ring
pop_char_for_tty tty_count k tty_index =
    let tty = clamp_tty_index tty_count tty_index in
    let r = k.rings tty in
    if r.count == 0 then (none, k) else (
      some (r.slots r.tail),
      record k { rings = store k.rings tty (pop_ring r); pop_count = add64 k.pop_count 1 },
    )

-- `clks_keyboard_buffered_count`: the loop over the terminals below `n`.
unfoldable pub buffered_below : Keyboard → ℕ → ℕ
buffered_below k zero = 0
buffered_below k (suc n) = buffered_below k n + (k.rings n).count

unfoldable pub buffered_count : Keyboard → ℕ
unfolding buffered_below
buffered_count k = buffered_below k tty_max

-- `clks_keyboard_shift_active`, `clks_keyboard_ctrl_active`
abbrev pub shift_active : Keyboard → Bool
shift_active k = k.lshift_down || k.rshift_down

abbrev pub ctrl_active : Keyboard → Bool
ctrl_active k = k.lctrl_down || k.rctrl_down

-- `clks_keyboard_translate_scancode`, for a code below 128.
unfoldable pub translate_scancode : Keyboard → ℕ → ℕ
translate_scancode k code =
    if shift_active k then get_or kbd_shift_map code 0 else get_or kbd_map code 0

-- `clks_keyboard_translate_ext_scancode`, with the CLKS_KEY constants written out.
unfoldable pub translate_ext_scancode : Keyboard → ℕ → ℕ
translate_ext_scancode k code =
    let shift = shift_active k in
    if code == 0x4B
    then (if shift then 0x13 else 0x01)
    else (if code == 0x4D
        then (if shift then 0x14 else 0x02)
        else (if code == 0x48
            then 0x03
            else (if code == 0x50
                then 0x04
                else (if code == 0x47
                    then (if shift then 0x15 else 0x05)
                    else (if code == 0x4F
                        then (if shift then 0x16 else 0x06)
                        else (if code == 0x53 then 0x07 else 0))))))

-- The shortcut of a key under ctrl, 0 if it has none: the switch of
-- `clks_keyboard_try_emit_ctrl_shortcut`.
abbrev pub ctrl_shortcut : ℕ → ℕ
ctrl_shortcut code =
    if code == 0x1E
    then 0x10
    else (if code == 0x2E then 0x11 else (if code == 0x2F then 0x12 else 0))

-- The CLKS_CFG_KBD switches.
pub record KbdConfig : Type 0 where
  pub tty_switch_hotkey : Bool
  pub ctrl_shortcuts : Bool
  pub force_stop_hotkey : Bool

-- The functions of other components that the decoder calls, over a state `E` of theirs.
-- `pump` is `clks_shell_pump_input(1)`, which takes characters from the keyboard.
pub record Console (E : Type 0) : Type 0 where
  pub tty_count : E → ℕ
  pub tty_active : E → ℕ
  pub tty_switch : E → ℕ → E
  pub scrollback_page_up : E → E
  pub scrollback_page_down : E → E
  pub exec_is_running : E → Bool
  pub force_stop : E → ℕ → E
  pub pump : Keyboard → E → Keyboard × E
