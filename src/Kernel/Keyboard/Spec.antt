-- ===== src/Kernel/Keyboard/Spec.antt =====
-- The queues of the keyboard refine bounded queues, one list of characters for each terminal.
use cleon_os_jgz_yes_fork.Base.{
  ltb, leb, ◌==◌, if◌then◌else◌, Bool-cases, if_cases, length, store, ℕ, zero, suc, ◌+◌, ◌%◌, ◌≤◌,
  ◌<◌, ◌≡◌, refl, sym, ap, ap₂, ◌∙◌, fun_ext, inl, inr, Bool, true, false, Option, none, some, List,
  [], ◌∷◌, ◌++◌, arith,
}
use cleon_os_jgz_yes_fork.Kernel.Keyboard.{
  Keyboard, Ring, input_cap, clamp_tty_index, push_ring, pop_ring, queue_push_for_tty,
  pop_char_for_tty,
}
use cleon_os_jgz_yes_fork.Kernel.Keyboard.Fifo.{items, pending, push_ring-pending, pop_ring-pending}
use cleon_os_jgz_yes_fork.Kernel.Keyboard.Queue.{
  IsKeyboard, queue_push_for_tty-IsKeyboard, pop_char_for_tty-IsKeyboard,
}

-- The abstract state, and its two operations.
abbrev pub Queues : Type 0
Queues = ℕ → List ℕ

abbrev pub enqueue : Queues → ℕ → ℕ → Bool × Queues
enqueue qs t ch =
    if ltb (length (qs t)) input_cap then (true, store qs t (qs t ++ ch ∷ [])) else (false, qs)

abbrev pub dequeue : Queues → ℕ → Option ℕ × Queues
dequeue qs t = elim (qs t) as (λ _. Option ℕ × Queues) [
  | [] ↦ (none, qs)
  | ch ∷ rest ↦ (some ch, store qs t rest)
]

abbrev pub view : Keyboard → Queues
view k t = pending (k.rings t)

length-items : (slots : ℕ → ℕ) (at n : ℕ) → length (items slots at n) ≡ n
unfolding items
length-items slots at zero = refl
length-items slots at (suc n) = ap suc (length-items slots ((at + 1) % input_cap) n)

pending-store :
    (rings : ℕ → Ring) (t : ℕ) (r : Ring) (l : List ℕ)
    → pending r ≡ l
    → (λ j. pending (store rings t r j)) ≡ store (λ j. pending (rings j)) t l
pending-store rings t r l e =
    fun_ext λ j. elim (Bool-cases (j == t)) [ inl q ↦ rw q e | inr q ↦ rw q refl ]

enqueue_full : (qs : Queues) (t ch : ℕ) → input_cap ≤ length (qs t) → enqueue qs t ch ≡ (false, qs)
enqueue_full qs t ch h = ground arith

enqueue_room :
    (qs : Queues) (t ch : ℕ)
    → length (qs t) < input_cap
    → enqueue qs t ch ≡ (true, store qs t (qs t ++ ch ∷ []))
enqueue_room qs t ch h = ground arith

pub queue_push_refines :
    (n : ℕ) (k : Keyboard) (i ch : ℕ)
    → IsKeyboard k
    → let r = queue_push_for_tty n k i ch in
      (r.0, view r.1) ≡ enqueue (view k) (clamp_tty_index n i) ch
unfolding queue_push_for_tty
queue_push_refines n k i ch v =
    let len = length-items r.slots r.tail r.count in
    if_cases P (leb input_cap r.count) (λ full. sym (enqueue_full (view k) t ch (ground arith)))
      λ room.
        ap (λ q. (true, q))
          (pending-store k.rings t (push_ring r ch) (pending r ++ ch ∷ [])
            (push_ring-pending r ch (ground arith) (v.all_rings t)))
        ∙ sym (enqueue_room (view k) t ch (ground arith))
  where
    t : ℕ
    t = clamp_tty_index n i

    r : Ring
    r = k.rings t

    P : Bool × Keyboard → Type 0
    P x = (x.0, view x.1) ≡ enqueue (view k) t ch

dequeue_empty : (qs : Queues) (t : ℕ) → qs t ≡ [] → dequeue qs t ≡ (none, qs)
dequeue_empty qs t e = rw (e, dequeue) refl

dequeue_cons :
    (qs : Queues) (t ch : ℕ) (l : List ℕ) → qs t ≡ ch ∷ l → dequeue qs t ≡ (some ch, store qs t l)
dequeue_cons qs t ch l e = rw (e, dequeue) refl

pub pop_char_refines :
    (n : ℕ) (k : Keyboard) (i : ℕ)
    → IsKeyboard k
    → let r = pop_char_for_tty n k i in (r.0, view r.1) ≡ dequeue (view k) (clamp_tty_index n i)
unfolding pop_char_for_tty items
pop_char_refines n k i v =
    if_cases P (r.count == 0) (λ empty. sym (dequeue_empty (view k) t (none_left (ground arith))))
      λ some_left.
        ap (λ q. (some (r.slots r.tail), q))
          (pending-store k.rings t (pop_ring r) (pending (pop_ring r)) refl)
        ∙ sym (
            dequeue_cons (view k) t (r.slots r.tail) (pending (pop_ring r))
              (pop_ring-pending r (ground arith)))
  where
    t : ℕ
    t = clamp_tty_index n i

    r : Ring
    r = k.rings t

    P : Option ℕ × Keyboard → Type 0
    P x = (x.0, view x.1) ≡ dequeue (view k) t

    none_left : r.count ≡ 0 → pending r ≡ []
    none_left e = ap (items r.slots r.tail) e

-- A request to the queues and its answer.
pub data Request : Type 0 where
  push : ℕ → ℕ → Request
  pop : ℕ → Request

pub data Reply : Type 0 where
  pushed : Bool → Reply
  popped : Option ℕ → Reply

unfoldable pub answer : ℕ → Request → Keyboard → Reply × Keyboard
answer n (push i ch) k = let r = queue_push_for_tty n k i ch in (pushed r.0, r.1)
answer n (pop i) k = let r = pop_char_for_tty n k i in (popped r.0, r.1)

unfoldable pub answer_spec : ℕ → Request → Queues → Reply × Queues
answer_spec n (push i ch) q = let r = enqueue q (clamp_tty_index n i) ch in (pushed r.0, r.1)
answer_spec n (pop i) q = let r = dequeue q (clamp_tty_index n i) in (popped r.0, r.1)

unfoldable pub replies : ℕ → List Request → Keyboard → List Reply
unfolding answer
replies n [] k = []
replies n (q ∷ qs) k = (answer n q k).0 ∷ replies n qs (answer n q k).1

unfoldable pub replies_spec : ℕ → List Request → Queues → List Reply
unfolding answer_spec
replies_spec n [] q = []
replies_spec n (r ∷ rs) q = (answer_spec n r q).0 ∷ replies_spec n rs (answer_spec n r q).1

answer_refines :
    (n : ℕ) (q : Request) (k : Keyboard)
    → IsKeyboard k
    → ((answer n q k).0, view (answer n q k).1) ≡ answer_spec n q (view k)
unfolding answer answer_spec
answer_refines n (push i ch) k v =
    ap (λ (r : Bool × Queues). (pushed r.0, r.1)) (queue_push_refines n k i ch v)
answer_refines n (pop i) k v =
    ap (λ (r : Option ℕ × Queues). (popped r.0, r.1)) (pop_char_refines n k i v)

answer-IsKeyboard :
    (n : ℕ) (q : Request) (k : Keyboard) → IsKeyboard k → IsKeyboard (answer n q k).1
unfolding answer
answer-IsKeyboard n (push i ch) k v = queue_push_for_tty-IsKeyboard n k i ch v
answer-IsKeyboard n (pop i) k v = pop_char_for_tty-IsKeyboard n k i v

-- Any sequence of pushes and pops, for any terminals, is answered exactly as by one list of at most
-- 256 characters for each terminal: a push to a full list is refused and dropped, a pop takes the
-- character that was pushed first.
pub replies-eq-spec :
    (n : ℕ) (qs : List Request) (k : Keyboard)
    → IsKeyboard k
    → replies n qs k ≡ replies_spec n qs (view k)
unfolding replies replies_spec
replies-eq-spec n [] k v = refl
replies-eq-spec n (q ∷ qs) k v =
    let e = answer_refines n q k v in
    ap₂ (λ x l. x ∷ l) (ap (λ (r : Reply × Queues). r.0) e)
      (replies-eq-spec n qs (answer n q k).1 (answer-IsKeyboard n q k v)
        ∙ ap (λ (r : Reply × Queues). replies_spec n qs r.1) e)
