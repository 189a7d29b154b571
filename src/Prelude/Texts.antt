-- ===== src/Prelude/Texts.antt =====
-- What the program uses of `str`: truth, `strip`, `join`, and the order by code points.
use Prim.Native.Nat.{ℕ, zero, suc, Ordering, ◌/◌, ◌%◌}
use Prim.Native.Char.{code}
use Prim.Native.String.{String, ◌++◌, compare}
use mathlib.Core.Path.{◌≡◌, refl}
use mathlib.Core.Logic.{◌≢◌, ◌↔◌}
use native.Mathlib.Omega.{arith}
use mathlib.Core.Bool.{Bool, true, false, ◌&&◌, ◌||◌}
use mathlib.Core.List.{List, [], ◌∷◌}
use human_cos_fft1_trial.Prelude.Tests.{leb, ltb, nat_eqb}
use human_cos_fft1_trial.Prelude.Lists.{all, get_or, length}

-- The code points of a text.
abbrev pub codes : String → List ℕ
codes String.[] = []
codes (String.◌∷◌ c s) = code c ∷ codes s

-- `str.isspace` of one character.
unfoldable pub is_space : ℕ → Bool
is_space c =
    (leb 9 c && leb c 13)
    || (leb 28 c && leb c 32)
    || nat_eqb c 133
    || nat_eqb c 160
    || nat_eqb c 5760
    || (leb 8192 c && leb c 8202)
    || nat_eqb c 8232
    || nat_eqb c 8233
    || nat_eqb c 8239
    || nat_eqb c 8287
    || nat_eqb c 12288

-- `not text.strip()`
unfoldable pub is_blank : String → Bool
unfolding is_space
is_blank text = all is_space (codes text)

is_blank_space : is_blank "  " ≡ true
unfolding is_blank
is_blank_space = refl

-- A character of `[a-f0-9]`.
abbrev is_hex : ℕ → Bool
is_hex c = (leb 48 c && leb c 57) || (leb 97 c && leb c 102)

-- The pattern `^[a-f0-9]{64}$`.
unfoldable pub is_sha256 : String → Bool
is_sha256 text = all is_hex (codes text) && nat_eqb (length (codes text)) 64

-- An f-string: its parts in order.
abbrev pub format : List String → String
format [] = ""
format (part ∷ parts) = part ++ format parts

abbrev digits : List String
digits = "0" ∷ "1" ∷ "2" ∷ "3" ∷ "4" ∷ "5" ∷ "6" ∷ "7" ∷ "8" ∷ "9" ∷ []

-- The decimal text of a number, on fuel above the number of its digits.
unfoldable pub decimal_on : ℕ → ℕ → String
decimal_on zero n = ""
decimal_on (suc fuel) n = elim (ltb n 10) [
  | true ↦ get_or digits n ""
  | false ↦ decimal_on fuel (n / 10) ++ get_or digits (n % 10) ""
]

-- `str(n)`
unfoldable pub decimal : ℕ → String
unfolding decimal_on
decimal n = decimal_on (suc n) n

decimal_example : decimal 1048576 ≡ "1048576"
unfolding decimal
decimal_example = refl

-- `separator.join(items)`
abbrev pub join : String → List String → String
join separator [] = ""
join separator (item ∷ []) = item
join separator (item ∷ next ∷ items) = item ++ separator ++ join separator (next ∷ items)

-- One more item of `sorted(set(items))`: in its place, unless it is there.
unfoldable pub insert_sorted : String → List String → List String
insert_sorted item [] = item ∷ []
insert_sorted item (x ∷ xs) =
    let rest = x ∷ insert_sorted item xs in
    elim (compare item x) [
      | Ordering.lt ↦ item ∷ x ∷ xs
      | Ordering.eq ↦ x ∷ xs
      | Ordering.gt ↦ rest
    ]

-- `sorted(set(items))`
unfoldable pub sorted_set : List String → List String
unfolding insert_sorted
sorted_set [] = []
sorted_set (item ∷ items) = insert_sorted item (sorted_set items)

sorted_set_example : sorted_set ("b" ∷ "a" ∷ "b" ∷ []) ≡ "a" ∷ "b" ∷ []
unfolding sorted_set
sorted_set_example = refl

insert_sorted-ne_nil : (item : String) (xs : List String) → insert_sorted item xs ≢ []
unfolding insert_sorted
insert_sorted-ne_nil item [] = λ h. cc
insert_sorted-ne_nil item (x ∷ xs) = ground arith

pub sorted_set-nil_iff : (xs : List String) → (sorted_set xs ≡ []) ↔ (xs ≡ [])
unfolding sorted_set
sorted_set-nil_iff [] = (λ h. refl, λ h. refl)
sorted_set-nil_iff (x ∷ xs) = (λ h. absurd (insert_sorted-ne_nil x (sorted_set xs) h), λ h. cc)
