-- ===== src/Prelude/Bytes.antt =====
-- The length of a text in UTF-8, and the printing and reading of decimal numbers.
use Prim.Native.Nat.{ℕ, zero, suc, ◌+◌, ◌*◌, ◌-◌, ◌/◌, ◌%◌, ◌<◌, ◌≤◌, ◌^◌}
use mathlib.Core.Path.{◌≡◌, refl}
use mathlib.Core.Bool.{Bool, false, ◌&&◌}
use mathlib.Core.List.{List, [], ◌∷◌, ◌++◌}
use mathlib.Core.List
use mathlib.Core.Logic.{inl, inr}
use native.Mathlib.Nat.{pow-suc}
use native.Mathlib.Omega.{arith}
use evirion_engineering_memo.Prelude.Tests.{ltb, leb, if◌then◌else◌, lt→ltb, Bool-cases}
use evirion_engineering_memo.Prelude.Lists.{All, All-append, length, length-append}
use evirion_engineering_memo.Prelude.Strings.{Text, Lacks}

abbrev is_high : ℕ → Bool
is_high x = leb 0xd800 x && ltb x 0xdc00

abbrev is_low : ℕ → Bool
is_low x = leb 0xdc00 x && ltb x 0xe000

-- What a code unit adds; the flag says that the unit before it was a high surrogate. A pair of
-- surrogates has 4 bytes, and one that stands alone is written as U+FFFD, which has 3.
unit_bytes : Bool → ℕ → ℕ
unit_bytes after_high x =
    if ltb x 0x80 then 1 else if ltb x 0x800 then 2 else if after_high && is_low x then 1 else 3

bytes_from : Bool → Text → ℕ
bytes_from after_high [] = 0
bytes_from after_high (x ∷ xs) = unit_bytes after_high x + bytes_from (is_high x) xs

-- `new TextEncoder().encode(value).length`
unfoldable pub byte_length : Text → ℕ
unfolding bytes_from unit_bytes
byte_length s = bytes_from false s

abbrev pub IsAscii : Text → Type 0
IsAscii = All (λ x. x < 128)

bytes_from_ascii :
    (s t : Text) (after_high : Bool)
    → IsAscii s
    → after_high ≡ false
    → bytes_from after_high (s ++ t) ≡ length s + bytes_from false t
unfolding bytes_from unit_bytes
bytes_from_ascii [] t b h e = rw e (omega arith)
bytes_from_ascii (x ∷ xs) t b (h, hs) e = ground (arith, bytes_from_ascii xs t (is_high x) hs)

pub byte_length-append : (s t : Text) → IsAscii s → byte_length (s ++ t) ≡ length s + byte_length t
unfolding byte_length
byte_length-append s t h = bytes_from_ascii s t false h refl

pub byte_length_ascii : (s : Text) → IsAscii s → byte_length s ≡ length s
unfolding byte_length
byte_length_ascii [] h = refl
byte_length_ascii (x ∷ xs) (h, hs) = ground (
  arith,
  bytes_from_ascii xs [] false hs,
  bytes_from_ascii xs [] (is_high x) hs,
  List.append-nil xs,
)

abbrev pub is_digit : ℕ → Bool
is_digit c = leb b'0' c && leb c b'9'

-- `${n}` for a natural number; `fuel` above the number is enough.
decimal_from : ℕ → ℕ → Text
decimal_from zero n = []
decimal_from (suc fuel) n =
    let rest = decimal_from fuel (n / 10) in
    if ltb n 10 then (b'0' + n) ∷ [] else rest ++ (b'0' + n % 10) ∷ []

unfoldable pub decimal : ℕ → Text
unfolding decimal_from
decimal n = decimal_from (suc n) n

-- `Number(digits)` from the value of the digits before.
value_from : ℕ → Text → ℕ
value_from acc [] = acc
value_from acc (c ∷ s) = value_from (acc * 10 + (c - b'0')) s

unfoldable pub number_of : Text → ℕ
unfolding value_from
number_of s = value_from 0 s

digit_ascii : (c n : ℕ) → n < 10 → (b'0' + n) < 128
digit_ascii c n h = omega arith

decimal_from-IsAscii : (fuel n : ℕ) → IsAscii (decimal_from fuel n)
unfolding decimal_from
decimal_from-IsAscii zero n = tt
decimal_from-IsAscii (suc fuel) n = elim (Bool-cases (ltb n 10)) [
  | inl small ↦ rw small (ground arith, tt)
  | inr large ↦ rw large (
      All-append _ (decimal_from fuel (n / 10)) _ (decimal_from-IsAscii fuel (n / 10))
        (omega arith, tt))
]

pub decimal-IsAscii : (n : ℕ) → IsAscii (decimal n)
unfolding decimal
decimal-IsAscii n = decimal_from-IsAscii (suc n) n

decimal_from-length : (k fuel n : ℕ) → n < 10 ^ suc k → length (decimal_from fuel n) ≤ suc k
unfolding decimal_from
decimal_from-length k zero n h = omega arith
decimal_from-length zero (suc fuel) n h = rw (lt→ltb n 10 h) (omega arith)
decimal_from-length (suc k) (suc fuel) n h = elim (Bool-cases (ltb n 10)) [
  | inl small ↦ rw small (omega arith)
  | inr large ↦
      rw (large, length-append)
        (omega (arith, decimal_from-length k fuel (n / 10) (omega (arith, pow-suc 10 (suc k)))))
]

-- A number below 10 ^ k prints in at most k digits, for k at least 1.
pub length-decimal : (k n : ℕ) → n < 10 ^ suc k → length (decimal n) ≤ suc k
unfolding decimal
length-decimal k n h = decimal_from-length k (suc n) n h

value_from-append :
    (acc : ℕ) (s t : Text) → value_from acc (s ++ t) ≡ value_from (value_from acc s) t
unfolding value_from
value_from-append acc [] t = refl
value_from-append acc (c ∷ s) t = value_from-append (acc * 10 + (c - b'0')) s t

decimal_from-value : (fuel n : ℕ) → n < fuel → value_from 0 (decimal_from fuel n) ≡ n
unfolding decimal_from value_from
decimal_from-value zero n h = elim h [ ]
decimal_from-value (suc fuel) n h = elim (Bool-cases (ltb n 10)) [
  | inl small ↦ rw small (omega arith)
  | inr large ↦
      rw (large, value_from-append)
        (rw (decimal_from-value fuel (n / 10) (ground arith)) (omega arith))
]

-- Reading a printed number gives it back.
pub number_of-decimal : (n : ℕ) → number_of (decimal n) ≡ n
unfolding number_of decimal
number_of-decimal n = decimal_from-value (suc n) n (omega arith)

decimal_from-Lacks : (sep fuel n : ℕ) → b'9' < sep → Lacks sep (decimal_from fuel n)
unfolding decimal_from
decimal_from-Lacks sep zero n h = tt
decimal_from-Lacks sep (suc fuel) n h = elim (Bool-cases (ltb n 10)) [
  | inl small ↦ rw small (ground arith, tt)
  | inr large ↦ rw large (
      All-append _ (decimal_from fuel (n / 10)) _ (decimal_from-Lacks sep fuel (n / 10) h)
        (ground arith, tt))
]

-- A printed number holds no unit behind the digits.
pub decimal-Lacks : (sep n : ℕ) → b'9' < sep → Lacks sep (decimal n)
unfolding decimal
decimal-Lacks sep n h = decimal_from-Lacks sep (suc n) n h
