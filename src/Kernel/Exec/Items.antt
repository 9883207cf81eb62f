-- ===== src/Kernel/Exec/Items.antt =====
-- The items that `clks_exec_parse_whitespace_items` finds in a line: how many, how long, and that
-- a line made of items is read back as those items.
use cleon_os_jgz_yes_fork.Base.{
  ◌==◌, if◌then◌else◌, if_cases, length, take, length-append, length-take, All, skip_while,
  until_first, from_first, ℕ, zero, suc, ◌-◌, ◌≤◌, ◌<◌, ◌≡◌, refl, ap, ◌∙◌, false, List, [], ◌∷◌,
  ◌++◌, arith,
}
use cleon_os_jgz_yes_fork.Kernel.Exec.Text.{item_max, is_space, items_from, parse_whitespace_items}

-- An argument that fits its item: not empty, no blank in it.
abbrev pub IsPlain : ℕ → Type 0
IsPlain c = is_space c ≡ false

abbrev pub IsItem : List ℕ → Type 0
IsItem w = (0 < length w) × (length w < item_max) × All IsPlain w

-- Arguments joined by single blanks.
abbrev pub join : List (List ℕ) → List ℕ
join [] = []
join (w ∷ []) = w
join (w ∷ v ∷ ws) = w ++ b' ' ∷ join (v ∷ ws)

skip_while-plain :
    (w rest : List ℕ) → 0 < length w → All IsPlain w → skip_while is_space (w ++ rest) ≡ w ++ rest
unfolding skip_while
skip_while-plain [] rest h k = absurd (omega arith)
skip_while-plain (c ∷ cs) rest h k = ground (arith, k)

until_first-plain : (w rest : List ℕ) → All IsPlain w → until_first is_space (w ++ b' ' ∷ rest) ≡ w
unfolding until_first
until_first-plain [] rest k = refl
until_first-plain (c ∷ cs) rest k = ground (arith, k, until_first-plain cs rest k.1)

from_first-plain :
    (w rest : List ℕ) → All IsPlain w → from_first is_space (w ++ b' ' ∷ rest) ≡ b' ' ∷ rest
unfolding from_first
from_first-plain [] rest k = refl
from_first-plain (c ∷ cs) rest k = ground (arith, k, from_first-plain cs rest k.1)

take-all : (n : ℕ) (w : List ℕ) → length w ≤ n → take n w ≡ w
take-all zero [] h = refl
take-all zero (x ∷ xs) h = absurd (omega arith)
take-all (suc n) [] h = refl
take-all (suc n) (x ∷ xs) h = ap (λ l. x ∷ l) (take-all n xs (omega arith))

-- The blank in front of the next item is skipped.
items_from-blank :
    (fuel : ℕ) (line : List ℕ) (room : ℕ)
    → items_from fuel (b' ' ∷ line) room ≡ items_from fuel line room
unfolding items_from skip_while
items_from-blank zero line room = refl
items_from-blank (suc fuel) line room = refl

items_from_step :
    (fuel : ℕ) (w rest : List ℕ) (room : ℕ)
    → IsItem w
    → items_from (suc fuel) (w ++ b' ' ∷ rest) (suc room) ≡ w ∷ items_from fuel rest room
unfolding items_from
items_from_step fuel [] rest room h = absurd (omega (arith, h.0))
items_from_step fuel (c ∷ cs) rest room h =
    let room_left : suc room - 1 ≡ room = omega arith in
    ground (
      arith,
      skip_while-plain (c ∷ cs) (b' ' ∷ rest) h.0 h.2,
      until_first-plain (c ∷ cs) rest h.2,
      from_first-plain (c ∷ cs) rest h.2,
      take-all (item_max - 1) (c ∷ cs) (omega (arith, h.1)),
      items_from-blank fuel rest room,
    )

until_first-All : (w : List ℕ) → All IsPlain w → until_first is_space w ≡ w
unfolding until_first
until_first-All [] k = refl
until_first-All (c ∷ cs) k = ground (arith, k, until_first-All cs k.1)

from_first-All : (w : List ℕ) → All IsPlain w → from_first is_space w ≡ []
unfolding from_first
from_first-All [] k = refl
from_first-All (c ∷ cs) k = ground (arith, k, from_first-All cs k.1)

items_from-nil : (fuel room : ℕ) → items_from fuel [] room ≡ []
unfolding items_from skip_while
items_from-nil zero room = refl
items_from-nil (suc fuel) room = refl

items_from_last :
    (fuel : ℕ) (w : List ℕ) (room : ℕ) → IsItem w → items_from (suc fuel) w (suc room) ≡ w ∷ []
unfolding items_from skip_while
items_from_last fuel [] room h = absurd (omega (arith, h.0))
items_from_last fuel (c ∷ cs) room h = ground (
  arith,
  h.2,
  until_first-All (c ∷ cs) h.2,
  from_first-All (c ∷ cs) h.2,
  take-all (item_max - 1) (c ∷ cs) (omega (arith, h.1)),
  items_from-nil fuel (suc room - 1),
)

items_from-join :
    (fuel : ℕ) (ws : List (List ℕ)) (room : ℕ)
    → All IsItem ws
    → length ws ≤ room
    → length ws ≤ fuel
    → items_from fuel (join ws) room ≡ ws
items_from-join fuel [] room h r f = items_from-nil fuel room
items_from-join zero (w ∷ ws) room h r f = absurd (omega arith)
items_from-join (suc fuel) (w ∷ ws) zero h r f = absurd (omega arith)
items_from-join (suc fuel) (w ∷ []) (suc room) h r f = items_from_last fuel w room h.0
items_from-join (suc fuel) (w ∷ v ∷ ws) (suc room) h r f =
    items_from_step fuel w (join (v ∷ ws)) room h.0
    ∙ ap (λ l. w ∷ l) (items_from-join fuel (v ∷ ws) room h.1 (omega arith) (omega arith))

length-join : (ws : List (List ℕ)) → All IsItem ws → length ws ≤ length (join ws)
length-join [] h = omega arith
length-join (w ∷ []) h = omega (arith, h.0.0)
length-join (w ∷ v ∷ ws) h =
    omega (arith, length-append w (b' ' ∷ join (v ∷ ws)), length-join (v ∷ ws) h.1, h.0.0)

-- Arguments without blanks, of 1 to 127 characters each and no more than there is room for, joined by
-- single blanks, are parsed back as exactly those arguments in their order.
pub parse_whitespace_items-join :
    (ws : List (List ℕ)) (max_count : ℕ)
    → All IsItem ws
    → length ws ≤ max_count
    → parse_whitespace_items (join ws) max_count ≡ ws
unfolding parse_whitespace_items
parse_whitespace_items-join ws max_count h r =
    items_from-join (suc (length (join ws))) ws max_count h r (omega (arith, length-join ws h))

items_from-bounds :
    (fuel : ℕ) (line : List ℕ) (room : ℕ)
    → (length (items_from fuel line room) ≤ room)
      × All (λ w. length w < item_max) (items_from fuel line room)
unfolding items_from
items_from-bounds zero line room = (omega arith, tt)
items_from-bounds (suc fuel) line room =
    cases (λ text. items_from-bounds fuel (from_first is_space text) (room - 1))
      (skip_while is_space line)
  where
    P : List (List ℕ) → Type 0
    P ws = (length ws ≤ room) × All (λ w. length w < item_max) ws

    Q : ℕ → List (List ℕ) → Type 0
    Q n ws = (length ws ≤ n) × All (λ w. length w < item_max) ws

    cases :
        ((text : List ℕ) → Q (room - 1) (items_from fuel (from_first is_space text) (room - 1)))
        → (text : List ℕ)
        → P (
            let item = take (item_max - 1) (until_first is_space text) in
            let rest = items_from fuel (from_first is_space text) (room - 1) in
            elim text as (λ _. List (List ℕ)) [
              | [] ↦ []
              | c ∷ cs ↦ (if room == 0 then [] else item ∷ rest)
            ])
    cases ih [] = (omega arith, tt)
    cases ih (c ∷ cs) =
        let item = take (item_max - 1) (until_first is_space (c ∷ cs)) in
        if_cases P (room == 0) (λ _. (omega arith, tt))
          λ left. (
            ground (arith, (ih (c ∷ cs)).0),
            (
              omega (arith, length-take (item_max - 1) (until_first is_space (c ∷ cs))),
              (ih (c ∷ cs)).1,
            ),
          )

-- Whatever the line, no more items are found than there is room for, and each fits its buffer of 128
-- bytes with its terminator.
pub parse_whitespace_items-bounds :
    (line : List ℕ) (max_count : ℕ)
    → (length (parse_whitespace_items line max_count) ≤ max_count)
      × All (λ w. length w < item_max) (parse_whitespace_items line max_count)
unfolding parse_whitespace_items
parse_whitespace_items-bounds line max_count = items_from-bounds (suc (length line)) line max_count
