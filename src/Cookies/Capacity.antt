-- ===== src/Cookies/Capacity.antt =====
-- How large a payload fits, against maximumPayloadBytes of src/lib/auth/session-cookies.ts.
use evirion_engineering_memo.Prelude.{
  subst, sym, All-split, ℕ, ◌+◌, ◌*◌, ◌-◌, ◌≤◌, ◌<◌, ◌≡◌, refl, ap, ◌∙◌, ◌↔◌, inl, inr, Bool, true,
  false, List, [], ◌∷◌, ◌++◌, Result, ok, err, arith, Text, codes, Bool-cases, length,
  length-append, take, drop, All-append, decimal, decimal-IsAscii, length-decimal, byte_length,
  byte_length_ascii, IsAscii, ltb, ltb→lt, lt→ltb, le→ltb-false, ltb-false→le,
}
use evirion_engineering_memo.Policy.{request_header_bytes, response_header_bytes}
use evirion_engineering_memo.Cookies.{CookieInstruction, is_generation, chunk_name}
use evirion_engineering_memo.Cookies.Serialize.{
  chunk_prefix, instructions_from, entries, response_bytes, cookie_header_bytes, assert_budgets,
  finish, serialize_session_cookies, chunk_overhead, maximum_payload_bytes,
}
use evirion_engineering_memo.Cookies.Prefix.{
  is_generation-IsAscii, is_generation-length, decimal_digit, four_chunks, chunks_from_lem,
  join_pieces,
}

-- The value that a cookie carries, and its name.
abbrev value_at : Text → ℕ → Text → Text
value_at g i body = chunk_prefix g i ++ body

name-IsAscii : (base : Text) (i : ℕ) → IsAscii base → IsAscii (chunk_name base i)
name-IsAscii base i hb = All-append _ base _ hb (omega arith, decimal-IsAscii i)

value-IsAscii : (g body : Text) (i : ℕ) → IsAscii g → IsAscii body → IsAscii (value_at g i body)
value-IsAscii g body i hg hp =
    All-append _ (chunk_prefix g i) body
      (All-append _ g _ hg (
        omega arith,
        All-append _ (decimal i) _ (decimal-IsAscii i)
            (omega arith, All-append _ (decimal 4) _ (decimal-IsAscii 4) (omega arith, tt)),
      ))
      hp

length-name : (base : Text) (i : ℕ) → i < 10 → length (chunk_name base i) ≡ length base + 2
length-name base i lt = rw (decimal_digit i lt) (rw length-append (omega arith))

length-value :
    (g body : Text) (i : ℕ)
    → is_generation g ≡ true
    → i < 10
    → length (value_at g i body) ≡ 13 + length body
length-value g body i hg lt =
    rw (decimal_digit i lt, decimal_digit 4 (omega arith))
      (simp length-append (omega (arith, is_generation-length g hg)))

split_four :
    (p q r s : Text)
    → IsAscii (p ++ (q ++ (r ++ (s ++ []))))
    → IsAscii p × IsAscii q × IsAscii r × IsAscii s
split_four p q r s h =
    let (hp, h1) = All-split _ p _ h in
    let (hq, h2) = All-split _ q _ h1 in
    let (hr, h3) = All-split _ r _ h2 in (hp, hq, hr, (All-split _ s [] h3).0)

length_four :
    (p q r s : Text)
    → length (p ++ (q ++ (r ++ (s ++ [])))) ≡ length p + length q + length r + length s
length_four p q r s = simp length-append (omega arith)

module _ (base g : Text) (hb : IsAscii base) (hg : is_generation g ≡ true) where
  header_text_bytes :
      (body : Text) (i : ℕ)
      → IsAscii body
      → i < 10
      → byte_length (chunk_name base i ++ b'=' ∷ (value_at g i body ++ codes "; "))
        ≡ length base + 18 + length body
  header_text_bytes body i hp lt =
      byte_length_ascii _ (
        All-append _ (chunk_name base i) _ (name-IsAscii base i hb) (
          omega arith,
          All-append _ (value_at g i body) (codes "; ")
              (value-IsAscii g body i (is_generation-IsAscii g hg) hp) (omega arith),
        ))
      ∙ length-append (chunk_name base i) _
      ∙ omega (
        arith,
        length-name base i lt,
        length-value g body i hg lt,
        length-append (value_at g i body) (codes "; "),
      )

  set_cookie_bytes :
      (body : Text) (i max_age : ℕ)
      → IsAscii body
      → i < 10
      → max_age < 100000
      → byte_length (
          chunk_name base i
          ++ (b'='
              ∷ (value_at g i body
                  ++ (codes "; Max-Age="
                      ++ (decimal max_age ++ codes "; Path=/; HttpOnly; Secure; SameSite=Lax")))))
        ≤ length base + 75 + length body
  set_cookie_bytes body i max_age hp lt small =
      let age = decimal max_age ++ codes "; Path=/; HttpOnly; Secure; SameSite=Lax" in
      let text = value_at g i body ++ (codes "; Max-Age=" ++ age) in
      rw
        (byte_length_ascii (chunk_name base i ++ b'=' ∷ text) (
          All-append _ (chunk_name base i) _ (name-IsAscii base i hb) (
            omega arith,
            All-append _ (value_at g i body) _
                (value-IsAscii g body i (is_generation-IsAscii g hg) hp)
                (All-append _ (codes "; Max-Age=") age (omega arith)
                  (All-append _ (decimal max_age) _ (decimal-IsAscii max_age) (omega arith))),
          )))
        (omega (
          arith,
          length-append (chunk_name base i) (b'=' ∷ text),
          length-name base i lt,
          length-value g body i hg lt,
          length-append (value_at g i body) (codes "; Max-Age=" ++ age),
          length-append (decimal max_age) (codes "; Path=/; HttpOnly; Secure; SameSite=Lax"),
          length-decimal 4 max_age small,
        ))

  abbrev four : ℕ → Text → Text → Text → Text → List CookieInstruction
  four max_age p q r s =
      instructions_from base max_age 0
        (value_at g 0 p ∷ value_at g 1 q ∷ value_at g 2 r ∷ value_at g 3 s ∷ [])

  module _ (max_age : ℕ) (p q r s : Text) (ascii : IsAscii (p ++ (q ++ (r ++ (s ++ []))))) where
    four_bytes :
        cookie_header_bytes (entries (four max_age p q r s))
        ≡ 4 * (length base + 18) + length (p ++ (q ++ (r ++ (s ++ []))))
    four_bytes =
        let (hp, hq, hr, hs) = split_four p q r s ascii in
        omega (
          arith,
          header_text_bytes p 0 hp (omega arith),
          header_text_bytes q 1 hq (omega arith),
          header_text_bytes r 2 hr (omega arith),
          header_text_bytes s 3 hs (omega arith),
          length_four p q r s,
        )

    four_set_bytes :
        max_age < 100000
        → response_bytes (four max_age p q r s)
          ≤ 4 * (length base + 75) + length (p ++ (q ++ (r ++ (s ++ []))))
    four_set_bytes small =
        let (hp, hq, hr, hs) = split_four p q r s ascii in
        omega (
          arith,
          set_cookie_bytes p 0 max_age hp (omega arith) small,
          set_cookie_bytes q 1 max_age hq (omega arith) small,
          set_cookie_bytes r 2 max_age hr (omega arith) small,
          set_cookie_bytes s 3 max_age hs (omega arith) small,
          length_four p q r s,
        )

chunk_overhead_lem : (base : Text) → IsAscii base → chunk_overhead base 4 0 ≡ 4 * (length base + 18)
unfolding decimal is_generation
chunk_overhead_lem base hb =
    let g = codes "gggggggg" in
    omega (
      arith,
      header_text_bytes base g hb refl [] 0 tt (omega arith),
      header_text_bytes base g hb refl [] 1 tt (omega arith),
      header_text_bytes base g hb refl [] 2 tt (omega arith),
      header_text_bytes base g hb refl [] 3 tt (omega arith),
    )

abbrev pub is_ok {ℓ κ} : {E : Type ℓ} {A : Type κ} → Result E A → Bool
is_ok (ok a) = true
is_ok (err e) = false

assert_budgets_iff :
    (is : List CookieInstruction)
    → response_bytes is ≤ response_header_bytes
    → (is_ok (assert_budgets is) ≡ true) ↔ (cookie_header_bytes (entries is) ≤ request_header_bytes)
unfolding assert_budgets
assert_budgets_iff is h = ground arith

finish_iff :
    (base payload : Text) (max_age cursor : ℕ) (chunks : List Text)
    → length payload ≤ cursor
    → is_ok (finish base payload max_age (ok (chunks, cursor)))
      ≡ is_ok (assert_budgets (instructions_from base max_age 0 chunks))
finish_iff base payload max_age cursor chunks h = rw (le→ltb-false cursor (length payload) h) refl

finish_over :
    (base payload : Text) (max_age cursor : ℕ) (chunks : List Text)
    → cursor < length payload
    → is_ok (finish base payload max_age (ok (chunks, cursor))) ≡ false
finish_over base payload max_age cursor chunks h = rw (lt→ltb cursor (length payload) h) refl

maximum_payload_bytes_lem :
    (base : Text) → IsAscii base → maximum_payload_bytes base ≡ 8192 - 4 * (length base + 18)
unfolding maximum_payload_bytes
maximum_payload_bytes_lem base hb = rw (chunk_overhead_lem base hb) refl

module _ (base payload g : Text) (max_age : ℕ) (hb : IsAscii base) (short : length base ≤ 100)
    (hp : IsAscii payload) (hg : is_generation g ≡ true) (small : max_age < 100000) where
  covered_iff :
      length payload ≤ 12236
      → (is_ok (assert_budgets (instructions_from base max_age 0 (four_chunks g payload))) ≡ true)
        ↔ (length payload ≤ maximum_payload_bytes base)
  covered_iff fits =
      let p = take 3059 (drop 0 payload) in
      let q = take 3059 (drop 3059 payload) in
      let r = take 3059 (drop 6118 payload) in
      let s = take 3059 (drop 9177 payload) in
      let join = join_pieces payload fits in
      let ascii = subst IsAscii (sym join) hp in
      let bytes = four_bytes base g hb hg max_age p q r s ascii in
      let sets = four_set_bytes base g hb hg max_age p q r s ascii small in
      let size = ap length join in
      let most = maximum_payload_bytes_lem base hb in
      let (to, from) =
        assert_budgets_iff (instructions_from base max_age 0 (four_chunks g payload))
          (omega (arith, sets, size, fits, short)) in
      (
        λ e. omega (arith, to e, bytes, size, most),
        λ le. from (omega (arith, le, bytes, size, most)),
      )

  -- A payload is accepted exactly if its bytes do not exceed maximumPayloadBytes of the base: for an
  -- ASCII payload, an ASCII base of at most 100 units, a well-formed generation and a Max-Age below
  -- 100000.
  pub serialize_fits_iff :
      (is_ok (serialize_session_cookies base payload g max_age) ≡ true)
      ↔ (length payload ≤ maximum_payload_bytes base)
  unfolding serialize_session_cookies
  serialize_fits_iff = elim (Bool-cases (ltb 12236 (length payload))) [
    | inr fits ↦
        rw (hg, chunks_from_lem g payload hg)
          (rw
            (finish_iff base payload max_age 12236 (four_chunks g payload) (ltb-false→le _ _ fits))
            (covered_iff (ltb-false→le _ _ fits)))
    | inl over ↦
        rw (hg, chunks_from_lem g payload hg)
          (rw (finish_over base payload max_age 12236 (four_chunks g payload) (ltb→lt _ _ over)) (
            λ e. cc,
            λ le. absurd (omega (arith, ltb→lt _ _ over, maximum_payload_bytes_lem base hb)),
          ))
  ]
