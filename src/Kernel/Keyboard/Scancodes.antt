-- ===== src/Kernel/Keyboard/Scancodes.antt =====
-- What a scancode does to the queues of the keyboard.
use cleon_os_jgz_yes_fork.Base.{
  leb, ◌==◌, if_cases, add64, ℕ, zero, suc, ◌+◌, ◌-◌, ◌%◌, ◌≤◌, ◌≡◌, refl, sym, ap, ap₂, subst, ◌∙◌,
  ◌⊎◌, Bool, true, false, not, ◌&&◌, arith,
}
use cleon_os_jgz_yes_fork.Kernel.Keyboard.{
  Keyboard, Ring, KbdConfig, Console, queue_push_for_tty, ctrl_active, ctrl_shortcut,
  translate_scancode, translate_ext_scancode, buffered_below, buffered_count, tty_max,
}
use cleon_os_jgz_yes_fork.Kernel.Keyboard.Fifo.{IsRing}
use cleon_os_jgz_yes_fork.Kernel.Keyboard.Queue.{IsKeyboard, queue_push_for_tty-IsKeyboard}
use cleon_os_jgz_yes_fork.Kernel.Keyboard.Decode.{
  sc_ctrl, sc_alt, sc_lshift, sc_rshift, sc_c, sc_f1, sc_f4, ext_prefix, should_pump_shell_now,
  deliver, try_emit_ctrl_shortcut, try_force_stop_hotkey, handle_ctrl, handle_alt, handle_release,
  handle_ext, handle_tty_hotkey, handle_key, handle_scancode,
}

-- The same queues and counters: only the state of the modifier keys differs.
pub record SameQueues (k k' : Keyboard) : Type 0 where
  pub rings_same : k'.rings ≡ k.rings
  pub push_same : k'.push_count ≡ k.push_count
  pub pop_same : k'.pop_count ≡ k.pop_count
  pub drop_same : k'.drop_count ≡ k.drop_count

buffered_below-same :
    (k k' : Keyboard) (n : ℕ) → k'.rings ≡ k.rings → buffered_below k' n ≡ buffered_below k n
unfolding buffered_below
buffered_below-same k k' zero e = refl
buffered_below-same k k' (suc n) e =
    ap₂ (λ a b. a + b) (buffered_below-same k k' n e) (ap (λ (f : ℕ → Ring). (f n).count) e)

SameQueues-IsKeyboard : {k k' : Keyboard} → SameQueues k k' → IsKeyboard k → IsKeyboard k'
unfolding buffered_count
SameQueues-IsKeyboard {k} {k'} s v = record {
  all_rings = λ t. subst (λ (f : ℕ → Ring). IsRing (f t)) (sym s.rings_same) (v.all_rings t);
  balance =
      s.push_same
      ∙ (v.balance
          ∙ ap₂ add64 (sym s.pop_same) (sym (buffered_below-same k k' tty_max s.rings_same)));
}

handle_ctrl-SameQueues : (released : Bool) (k : Keyboard) → SameQueues k (handle_ctrl released k)
unfolding handle_ctrl
handle_ctrl-SameQueues released k = record {
  rings_same = ground arith;
  push_same = ground arith;
  pop_same = ground arith;
  drop_same = ground arith;
}

handle_alt-SameQueues : (released : Bool) (k : Keyboard) → SameQueues k (handle_alt released k)
unfolding handle_alt
handle_alt-SameQueues released k = record {
  rings_same = ground arith;
  push_same = ground arith;
  pop_same = ground arith;
  drop_same = ground arith;
}

handle_release-SameQueues : (code : ℕ) (k : Keyboard) → SameQueues k (handle_release code k)
unfolding handle_release
handle_release-SameQueues code k = record {
  rings_same = ground arith;
  push_same = ground arith;
  pop_same = ground arith;
  drop_same = ground arith;
}

held :
    (k : Keyboard) (e0 l r : Bool)
    → SameQueues k (record k { e0_prefix = e0; lshift_down = l; rshift_down = r })
held k e0 l r = record { rings_same = refl; push_same = refl; pop_same = refl; drop_same = refl }

latched : (k : Keyboard) → SameQueues k (record k { force_stop_latch = true })
latched k = record { rings_same = refl; push_same = refl; pop_same = refl; drop_same = refl }

switched : (k : Keyboard) → SameQueues k (record k { hotkey_switches = add64 k.hotkey_switches 1 })
switched k = record { rings_same = refl; push_same = refl; pop_same = refl; drop_same = refl }

module _ {E : Type 0} (c : Console E) where
  -- A key that is released, or pressed as a modifier, queues nothing, counts nothing and calls no
  -- other component, whatever keys are held; so does the prefix byte.
  quiet_scancode :
      (cfg : KbdConfig) (scancode : ℕ) (k : Keyboard) (e : E)
      → (128 ≤ scancode)
        ⊎ ((scancode ≡ sc_ctrl)
            ⊎ ((scancode ≡ sc_alt) ⊎ ((scancode ≡ sc_lshift) ⊎ (scancode ≡ sc_rshift))))
      → SameQueues k (handle_scancode c cfg scancode (k, e)).0
        × ((handle_scancode c cfg scancode (k, e)).1 ≡ e)
  unfolding handle_scancode
  quiet_scancode cfg scancode k e h =
      if_cases P (scancode == ext_prefix) (λ _. (held k true k.lshift_down k.rshift_down, refl))
        λ _.
          if_cases P (scancode % 128 == sc_ctrl)
            (λ _. (handle_ctrl-SameQueues (leb 128 scancode) k, refl))
            λ n1.
              if_cases P (scancode % 128 == sc_alt)
                (λ _. (handle_alt-SameQueues (leb 128 scancode) k, refl))
                λ n2.
                  if_cases P (scancode % 128 == sc_lshift)
                    (λ _. (held k k.e0_prefix (not (leb 128 scancode)) k.rshift_down, refl))
                    λ n3.
                      if_cases P (scancode % 128 == sc_rshift)
                        (λ _. (held k k.e0_prefix k.lshift_down (not (leb 128 scancode)), refl))
                        λ n4.
                          if_cases P (leb 128 scancode)
                            (λ _. (handle_release-SameQueues (scancode % 128) k, refl))
                            λ pressed. absurd (ground arith)
    where
      P : Keyboard × E → Type 0
      P s = SameQueues k s.0 × (s.1 ≡ e)

  deliver-IsKeyboard :
      ((k : Keyboard) (e : E) → IsKeyboard k → IsKeyboard (c.pump k e).0)
      → (t ch : ℕ) (k : Keyboard) (e : E) → IsKeyboard k
      → IsKeyboard (deliver c t ch (k, e)).0
  unfolding deliver
  deliver-IsKeyboard pump t ch k e v =
      let pushed = queue_push_for_tty-IsKeyboard (c.tty_count e) k t ch v in
      if_cases P (queue_push_for_tty (c.tty_count e) k t ch).0
        (λ _.
          if_cases P (should_pump_shell_now c e)
            (λ _. pump (queue_push_for_tty (c.tty_count e) k t ch).1 e pushed) λ _. pushed)
        λ _. pushed
    where
      P : Keyboard × E → Type 0
      P s = IsKeyboard s.0

  try_force_stop-IsKeyboard :
      (cfg : KbdConfig) (code : ℕ) (k : Keyboard) (e : E)
      → IsKeyboard k
      → IsKeyboard (try_force_stop_hotkey c cfg code (k, e)).1.0
  unfolding try_force_stop_hotkey
  try_force_stop-IsKeyboard cfg code k e v =
      if_cases P (cfg.force_stop_hotkey && (code == sc_c) && k.alt_down && ctrl_active k)
        (λ _. if_cases P k.force_stop_latch (λ _. v) λ _. SameQueues-IsKeyboard (latched k) v)
        λ _. v
    where
      P : Bool × (Keyboard × E) → Type 0
      P s = IsKeyboard s.1.0

  try_emit-IsKeyboard :
      ((k : Keyboard) (e : E) → IsKeyboard k → IsKeyboard (c.pump k e).0)
      → (cfg : KbdConfig) (code t : ℕ) (k : Keyboard) (e : E) → IsKeyboard k
      → IsKeyboard (try_emit_ctrl_shortcut c cfg code t (k, e)).1.0
  unfolding try_emit_ctrl_shortcut
  try_emit-IsKeyboard pump cfg code t k e v =
      if_cases P (cfg.ctrl_shortcuts && ctrl_active k)
        (λ _.
          if_cases P (ctrl_shortcut code == 0) (λ _. v)
            λ _. deliver-IsKeyboard pump t (ctrl_shortcut code) k e v)
        λ _. v
    where
      P : Bool × (Keyboard × E) → Type 0
      P s = IsKeyboard s.1.0

  handle_key-IsKeyboard :
      ((k : Keyboard) (e : E) → IsKeyboard k → IsKeyboard (c.pump k e).0)
      → (cfg : KbdConfig) (code : ℕ) (k : Keyboard) (e : E) → IsKeyboard k
      → IsKeyboard (handle_key c cfg code (k, e)).0
  unfolding handle_key
  handle_key-IsKeyboard pump cfg code k e v =
      let v1 = try_force_stop-IsKeyboard cfg code k e v in
      let s1 : Keyboard × E = (try_force_stop_hotkey c cfg code (k, e)).1 in
      let v2 = try_emit-IsKeyboard pump cfg code (c.tty_active e) s1.0 s1.1 v1 in
      let s2 : Keyboard × E = (try_emit_ctrl_shortcut c cfg code (c.tty_active e) s1).1 in
      if_cases P (try_force_stop_hotkey c cfg code (k, e)).0 (λ _. v1)
        λ _.
          if_cases P (try_emit_ctrl_shortcut c cfg code (c.tty_active e) s1).0 (λ _. v2)
            λ _.
              if_cases P (translate_scancode s2.0 code == 0) (λ _. v2)
                λ _.
                  deliver-IsKeyboard pump (c.tty_active e) (translate_scancode s2.0 code) s2.0 s2.1
                    v2
    where
      P : Keyboard × E → Type 0
      P s = IsKeyboard s.0

  handle_ext-IsKeyboard :
      ((k : Keyboard) (e : E) → IsKeyboard k → IsKeyboard (c.pump k e).0)
      → (code : ℕ) (k : Keyboard) (e : E) → IsKeyboard k
      → IsKeyboard (handle_ext c code (k, e)).0
  unfolding handle_ext
  handle_ext-IsKeyboard pump code k e v =
      let k' = record k { e0_prefix = false } in
      let w = SameQueues-IsKeyboard (held k false k.lshift_down k.rshift_down) v in
      if_cases P (code == 0x49) (λ _. w)
        λ _.
          if_cases P (code == 0x51) (λ _. w)
            λ _.
              if_cases P (translate_ext_scancode k' code == 0) (λ _. w)
                λ _.
                  deliver-IsKeyboard pump (c.tty_active e) (translate_ext_scancode k' code) k' e w
    where
      P : Keyboard × E → Type 0
      P s = IsKeyboard s.0

  handle_tty_hotkey-IsKeyboard :
      (code : ℕ) (k : Keyboard) (e : E)
      → IsKeyboard k
      → IsKeyboard (handle_tty_hotkey c code (k, e)).0
  unfolding handle_tty_hotkey
  handle_tty_hotkey-IsKeyboard code k e v =
      if_cases P (c.tty_active (c.tty_switch e (code - sc_f1)) == c.tty_active e) (λ _. v)
        λ _. SameQueues-IsKeyboard (switched k) v
    where
      P : Keyboard × E → Type 0
      P s = IsKeyboard s.0

  -- Every scancode, in any state of the modifiers and under any configuration, keeps the queues well
  -- formed and the count of pushes equal to that of pops and of the characters that are pending,
  -- provided that the kernel shell, which takes characters, does.
  pub handle_scancode-IsKeyboard :
      ((k : Keyboard) (e : E) → IsKeyboard k → IsKeyboard (c.pump k e).0)
      → (cfg : KbdConfig) (scancode : ℕ) (k : Keyboard) (e : E) → IsKeyboard k
      → IsKeyboard (handle_scancode c cfg scancode (k, e)).0
  unfolding handle_scancode handle_ext handle_tty_hotkey
  handle_scancode-IsKeyboard pump cfg scancode k e v =
      if_cases P (scancode == ext_prefix) (λ _. by_flags (held k true k.lshift_down k.rshift_down))
        λ _.
          if_cases P (scancode % 128 == sc_ctrl) (λ _. by_flags (handle_ctrl-SameQueues released k))
            λ _.
              if_cases P (scancode % 128 == sc_alt)
                (λ _. by_flags (handle_alt-SameQueues released k))
                λ _.
                  if_cases P (scancode % 128 == sc_lshift)
                    (λ _. by_flags (held k k.e0_prefix (not released) k.rshift_down))
                    λ _.
                      if_cases P (scancode % 128 == sc_rshift)
                        (λ _. by_flags (held k k.e0_prefix k.lshift_down (not released)))
                        λ _.
                          if_cases P released
                            (λ _. by_flags (handle_release-SameQueues (scancode % 128) k))
                            λ _.
                              if_cases P k.e0_prefix
                                (λ _. handle_ext-IsKeyboard pump (scancode % 128) k e v)
                                λ _.
                                  if_cases P
                                    (cfg.tty_switch_hotkey
                                      && k.alt_down
                                      && leb sc_f1 (scancode % 128)
                                      && leb (scancode % 128) sc_f4)
                                    (λ _. handle_tty_hotkey-IsKeyboard (scancode % 128) k e v)
                                    λ _. handle_key-IsKeyboard pump cfg (scancode % 128) k e v
    where
      P : Keyboard × E → Type 0
      P s = IsKeyboard s.0

      released : Bool
      released = leb 128 scancode

      by_flags : {k' : Keyboard} → SameQueues k k' → IsKeyboard k'
      by_flags s = SameQueues-IsKeyboard s v
