-- ===== src/Prelude/Strings.antt =====
-- Text as its UTF-16 code units, the way the source's string operations see it: comparison, prefixes,
-- the last separator, and the number of bytes of its UTF-8 form.
use Prim.Native.Nat.{ℕ}
use Prim.Native.Char.{code}
use Prim.Native.String.{String}
use mathlib.Core.Path.{◌≡◌, refl}
use mathlib.Core.Logic.{◌↔◌, inl, inr}
use mathlib.Core.Bool.{Bool, true, false, ◌&&◌}
use mathlib.Core.List.{List, [], ◌∷◌, ◌++◌}
use mathlib.Core.Option.{Option, none, some}
use native.Mathlib.Omega.{arith}
use evirion_engineering_memo.Prelude.Tests.{◌==◌, if◌then◌else◌, Option-cases}
use evirion_engineering_memo.Prelude.Lists.{All}

abbrev pub Text : Type 0
Text = List ℕ

-- A literal of the source, all of which are ASCII.
abbrev pub codes : String → Text
codes String.[] = []
codes (String.◌∷◌ c s) = code c ∷ codes s

-- `a === b`
unfoldable pub text_eq : Text → Text → Bool
text_eq [] [] = true
text_eq [] (y ∷ ys) = false
text_eq (x ∷ xs) [] = false
text_eq (x ∷ xs) (y ∷ ys) = x == y && text_eq xs ys

text_eq_sound : (a b : Text) → text_eq a b ≡ true → a ≡ b
unfolding text_eq
text_eq_sound [] [] h = refl
text_eq_sound [] (y ∷ ys) h = cc
text_eq_sound (x ∷ xs) [] h = cc
text_eq_sound (x ∷ xs) (y ∷ ys) h = ground (arith, text_eq_sound xs ys)

pub text_eq_self : (a : Text) → text_eq a a ≡ true
unfolding text_eq
text_eq_self [] = refl
text_eq_self (x ∷ xs) = ground (arith, text_eq_self xs)

pub text_eq_iff : (a b : Text) → (text_eq a b ≡ true) ↔ (a ≡ b)
text_eq_iff a b = (text_eq_sound a b, λ e. rw e (text_eq_self b))

-- `allowed.includes(a)`
unfoldable pub includes : List Text → Text → Bool
includes [] a = false
includes (x ∷ xs) a = if text_eq x a then true else includes xs a

-- `text.startsWith(prefix)`, the prefix first
unfoldable pub starts_with : Text → Text → Bool
starts_with [] s = true
starts_with (p ∷ ps) [] = false
starts_with (p ∷ ps) (x ∷ xs) = p == x && starts_with ps xs

pub starts_with-append : (p s : Text) → starts_with p (p ++ s) ≡ true
unfolding starts_with
starts_with-append [] s = refl
starts_with-append (x ∷ xs) s = ground (arith, starts_with-append xs s)

-- The text before and after the last separator, if there is one: `lastIndexOf` with both slices.
unfoldable pub split_last : ℕ → Text → Option (Text × Text)
split_last sep [] = none
split_last sep (x ∷ xs) = elim (split_last sep xs) [
  | some (before, after) ↦ some (x ∷ before, after)
  | none ↦ if x == sep then some ([], xs) else none
]

-- No unit of the text is `sep`.
abbrev pub Lacks : ℕ → Text → Type 0
Lacks sep = All (λ x. (x == sep) ≡ false)

split_last-none : (sep : ℕ) (s : Text) → Lacks sep s → split_last sep s ≡ none
unfolding split_last
split_last-none sep [] h = refl
split_last-none sep (x ∷ xs) (h, hs) = rw (split_last-none sep xs hs, h)

pub split_last-append :
    (sep : ℕ) (before after : Text)
    → Lacks sep after
    → split_last sep (before ++ sep ∷ after) ≡ some (before, after)
unfolding split_last
split_last-append sep [] after h = rw (split_last-none sep after h) (ground arith)
split_last-append sep (x ∷ xs) after h = rw (split_last-append sep xs after h)

pub split_last_sound :
    (sep : ℕ) (s : Text) (before after : Text)
    → split_last sep s ≡ some (before, after)
    → s ≡ before ++ sep ∷ after
unfolding split_last
split_last_sound sep [] before after h = cc
split_last_sound sep (x ∷ xs) before after h = elim (Option-cases (split_last sep xs)) [
  | inl e ↦ ground arith
  | inr ((b, a), e) ↦ ground (arith, split_last_sound sep xs b a e)
]
