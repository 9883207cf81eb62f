-- ===== src/Kernel/Keyboard/Fifo.antt =====
-- The ring of one terminal implements a bounded queue: the list of its pending characters.
use cleon_os_jgz_yes_fork.Base.{
  store, ℕ, zero, suc, ◌+◌, ◌-◌, ◌%◌, ◌≤◌, ◌<◌, ◌≡◌, refl, ap, ap₂, subst, ◌∙◌, List, [], ◌∷◌, ◌++◌,
  arith,
}
use cleon_os_jgz_yes_fork.Kernel.Keyboard.{Ring, input_cap, push_ring, pop_ring}

pub record IsRing (r : Ring) : Type 0 where
  pub tail_below : r.tail < input_cap
  pub count_fits : r.count ≤ input_cap
  pub head_at : r.head ≡ (r.tail + r.count) % input_cap

-- `n` characters from a slot on, the last slot followed by the first.
unfoldable pub items : (ℕ → ℕ) → ℕ → ℕ → List ℕ
items slots at zero = []
items slots at (suc n) = slots at ∷ items slots ((at + 1) % input_cap) n

-- The queue that a ring stands for, the oldest character first.
abbrev pub pending : Ring → List ℕ
pending r = items r.slots r.tail r.count

items-snoc :
    (slots : ℕ → ℕ) (at n : ℕ)
    → at < input_cap
    → items slots at (suc n) ≡ items slots at n ++ slots ((at + n) % input_cap) ∷ []
unfolding items
items-snoc slots at zero h = ap (λ j. slots j ∷ []) (omega arith)
items-snoc slots at (suc n) h =
    ap (λ l. slots at ∷ l)
      (items-snoc slots ((at + 1) % input_cap) n (omega arith)
        ∙ ap (λ j. items slots ((at + 1) % input_cap) n ++ slots j ∷ []) (omega arith))

-- A write to a slot that is not among them changes nothing.
items-store :
    (slots : ℕ → ℕ) (at n m ch : ℕ)
    → at < input_cap
    → n ≤ m
    → m < input_cap
    → items (store slots ((at + m) % input_cap) ch) at n ≡ items slots at n
unfolding items
items-store slots at zero m ch h le lt = refl
items-store slots at (suc n) zero ch h le lt = absurd (omega arith)
items-store slots at (suc n) (suc m) ch h le lt =
    ap₂ (λ x l. x ∷ l) (ground arith)
      (ap (λ j. items (store slots j ch) ((at + 1) % input_cap) n) (omega arith)
        ∙ items-store slots ((at + 1) % input_cap) n m ch (omega arith) (omega arith) (omega arith))

pub push_ring-IsRing :
    (r : Ring) (ch : ℕ) → r.count < input_cap → IsRing r → IsRing (push_ring r ch)
unfolding push_ring
push_ring-IsRing r ch lt v = record {
  tail_below = v.tail_below;
  count_fits = omega arith;
  head_at = omega (arith, v.head_at, v.tail_below);
}

pub pop_ring-IsRing : (r : Ring) → 0 < r.count → IsRing r → IsRing (pop_ring r)
unfolding pop_ring
pop_ring-IsRing r lt v = record {
  tail_below = omega arith;
  count_fits = omega (arith, v.count_fits);
  head_at = omega (arith, v.head_at, v.tail_below);
}

pub push_ring-pending :
    (r : Ring) (ch : ℕ)
    → r.count < input_cap
    → IsRing r
    → pending (push_ring r ch) ≡ pending r ++ ch ∷ []
unfolding push_ring
push_ring-pending r ch lt v =
    ap (λ n. items (store r.slots r.head ch) r.tail n) (omega arith)
    ∙ (items-snoc (store r.slots r.head ch) r.tail r.count v.tail_below
        ∙ ap₂ (λ l x. l ++ x ∷ [])
            (ap (λ h. items (store r.slots h ch) r.tail r.count) v.head_at
              ∙ items-store r.slots r.tail r.count r.count ch v.tail_below (omega arith) lt)
            (ground (arith, v.head_at)))

-- Popping takes the oldest character.
pub pop_ring-pending : (r : Ring) → 0 < r.count → pending r ≡ r.slots r.tail ∷ pending (pop_ring r)
unfolding pop_ring items
pop_ring-pending r lt =
    subst
      (λ n.
        items r.slots r.tail n
        ≡ r.slots r.tail ∷ items r.slots ((r.tail + 1) % input_cap) (r.count - 1))
      {x = suc (r.count - 1)} (omega arith) refl
