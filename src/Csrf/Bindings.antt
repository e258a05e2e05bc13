-- ===== src/Csrf/Bindings.antt =====
-- When two bindings have one canonical form (canonicalBinding of src/lib/security/csrf.ts).
use mathlib.Core.List.{append_assoc}
use evirion_engineering_memo.Prelude.{
  ℕ, ◌≡◌, ◌∙◌, ap, drop, sym, [], ◌∷◌, ◌++◌, some, arith, Text, decimal, Lacks, number_of,
  number_of-decimal, split_last, split_last-append, decimal-Lacks,
}
use evirion_engineering_memo.Csrf.{Binding, pre_auth, session, canonical_binding}

-- What canonicalBinding keeps apart, for bindings whose email HMAC holds no colon.
abbrev pub HasPlainHmac : Binding → Type 0
HasPlainHmac (pre_auth t e g) = Lacks b':' e
HasPlainHmac (session s) = Unit

first : Text → ℕ
first [] = 0
first (x ∷ xs) = x

split_pair :
    (sep : ℕ) (a b c d : Text)
    → Lacks sep b
    → Lacks sep d
    → a ++ sep ∷ b ≡ c ++ sep ∷ d
    → (a ≡ c) × (b ≡ d)
split_pair sep a b c d hb hd e =
    let k : some (a, b) ≡ some (c, d) =
      sym (split_last-append sep a b hb) ∙ ap (split_last sep) e ∙ split_last-append sep c d hd in
    (cc k, cc k)

-- Two bindings with one canonical form are one binding, if their email HMACs hold no colon: so a
-- proof for a session is never one for a pre-auth transaction, nor for another session, and a proof
-- for one transaction, email identity and generation is never one for another.
pub canonical_binding-injective :
    (a b : Binding)
    → HasPlainHmac a
    → HasPlainHmac b
    → canonical_binding a ≡ canonical_binding b
    → a ≡ b
unfolding canonical_binding first
canonical_binding-injective (pre_auth t e g) (session s) ha hb h =
    let k : ◌≡◌ {A = ℕ} 112 115 = ap first h in absurd (omega arith)
canonical_binding-injective (session s) (pre_auth t e g) ha hb h =
    let k : ◌≡◌ {A = ℕ} 115 112 = ap first h in absurd (omega arith)
canonical_binding-injective (session s) (session r) ha hb h = ap session (ap (drop 8) h)
canonical_binding-injective (pre_auth t e g) (pre_auth u f k) ha hb h =
    let (ids, numbers) =
      split_pair b':' (t ++ b':' ∷ e) (decimal g) (u ++ b':' ∷ f) (decimal k)
        (decimal-Lacks b':' g (omega arith)) (decimal-Lacks b':' k (omega arith))
        (append_assoc t (b':' ∷ e) (b':' ∷ decimal g)
          ∙ ap (drop 9) h
          ∙ sym (append_assoc u (b':' ∷ f) (b':' ∷ decimal k))) in
    let (same_id, same_hmac) = split_pair b':' t e u f ha hb ids in
    let same_generation : g ≡ k =
      sym (number_of-decimal g) ∙ ap number_of numbers ∙ number_of-decimal k in
    cc
