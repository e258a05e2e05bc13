-- ===== src/Cookies/Sound.antt =====
-- What a jar must hold for parseSessionCookies to read a session from it.
use evirion_engineering_memo.Prelude.{
  ltb-false→le, ℕ, suc, ◌≤◌, ◌<◌, ◌≡◌, refl, ap, ◌∙◌, inl, inr, true, List, [], ◌∷◌, ◌++◌, map,
  none, some, ok, arith, Text, Bool-cases, Result-cases, text_eq, text_eq_iff, length, All, all,
  number_of, ◌==◌, ltb, subst, Option,
}
use evirion_engineering_memo.Policy.{chunk_maximum, request_header_bytes}
use evirion_engineering_memo.Cookies.{Cookies, valid}
use evirion_engineering_memo.Cookies.Serialize.{cookie_header_bytes}
use evirion_engineering_memo.Cookies.Parse.{
  lookup, is_slot_name, slot_suffix, add_slot, scan_slots, Slots, Chunk, read_chunk, check_chunk,
  read_chunks, reassemble, read_slots, parse_session_cookies,
}
use evirion_engineering_memo.Cookies.RoundTrip.{slot_cookies}
use mathlib.Core.List.{append_assoc, append-nil}

abbrev slot_of : Text → Text × Text → ℕ × Text
slot_of base (name, value) = (number_of (slot_suffix base name), value)

add_slot_inv :
    (suffix value : Text) (present : Slots) {more : Slots}
    → add_slot suffix value present ≡ ok more
    → (more ≡ present ++ (number_of suffix, value) ∷ []) × (number_of suffix < chunk_maximum)
unfolding add_slot
add_slot_inv suffix value present h = ground arith

scan_slots_inv :
    (base : Text) (cs : Cookies) (present : Slots) {final : Slots}
    → scan_slots base cs present ≡ ok final
    → final ≡ present ++ map (slot_of base) (slot_cookies base cs)
unfolding scan_slots
scan_slots_inv base [] present h = rw append-nil (ground arith)
scan_slots_inv base ((name, value) ∷ cs) present h = elim (Bool-cases (is_slot_name base name)) [
  | inr other ↦ rw other (scan_slots_inv base cs present (rw (other, scan_slots) at h))
  | inl slot ↦ elim (Result-cases (add_slot (slot_suffix base name) value present)) [
    | inr (x, e) ↦ absurd (cc (rw (e, scan_slots) at (rw (slot, scan_slots) at h)))
    | inl (more, e) ↦
        let rest =
          scan_slots_inv base cs more (rw (e, scan_slots) at (rw (slot, scan_slots) at h)) in
        rw slot (
          rest
          ∙ ap (λ t. t ++ map (slot_of base) (slot_cookies base cs))
              (add_slot_inv _ value present e).0
          ∙ append_assoc present _ _)
  ]
]

-- A slot that holds a chunk of one generation and one total, at the index of its name.
abbrev IsRead : Text → ℕ → ℕ × Text → Type 0
IsRead g total p =
    (c : Chunk) × (read_chunk p.1 ≡ some c)
    × (c.index ≡ p.0)
    × (c.generation ≡ g)
    × (c.total ≡ total)

abbrev Agree : Text → ℕ → List Chunk → Type 0
Agree g total = All (λ c. (c.generation ≡ g) × (c.total ≡ total))

check_chunk_inv :
    (index : ℕ) (o : Option Chunk) {c : Chunk}
    → check_chunk index o ≡ ok c
    → (o ≡ some c) × (c.index ≡ index) × (1 ≤ c.total) × (c.total ≤ chunk_maximum)
unfolding check_chunk
check_chunk_inv index none h = ground arith
check_chunk_inv index (some d) h = ground arith

read_chunks-cons_inv :
    (index : ℕ) (value : Text) (ps : Slots) {cs : List Chunk}
    → read_chunks ((index, value) ∷ ps) ≡ ok cs
    → (c : Chunk) × (ds : List Chunk) × (check_chunk index (read_chunk value) ≡ ok c)
      × (read_chunks ps ≡ ok ds)
      × (cs ≡ c ∷ ds)
unfolding read_chunks
read_chunks-cons_inv index value ps h = elim (Result-cases (check_chunk index (read_chunk value))) [
  | inr (x, e) ↦ absurd (cc (rw (e, read_chunks) at h))
  | inl (c, e) ↦ elim (Result-cases (read_chunks ps)) [
    | inr (y, k) ↦ absurd (cc (rw (e, k, read_chunks) at h))
    | inl (ds, k) ↦ (c, ds, e, k, cc (rw (e, k, read_chunks) at h))
  ]
]

read_chunks_inv :
    (g : Text) (total : ℕ) (ps : Slots) {cs : List Chunk}
    → read_chunks ps ≡ ok cs
    → Agree g total cs
    → All (IsRead g total) ps × (length cs ≡ length ps)
read_chunks_inv g total [] h a = (tt, unfold read_chunks in ground arith)
read_chunks_inv g total ((index, value) ∷ ps) {cs} h a =
    let (c, ds, e, k, same) = read_chunks-cons_inv index value ps h in
    let (here, later) = subst (Agree g total) same a in
    let (all_read, counted) = read_chunks_inv g total ps k later in
    let found = check_chunk_inv index (read_chunk value) e in
    (((c, found.0, found.1, here.0, here.1), all_read), ground arith)

Agree-from :
    (g : Text) (total : ℕ) (cs : List Chunk)
    → all (λ d. text_eq d.generation g) cs ≡ true
    → all (λ d. d.total == total) cs ≡ true
    → Agree g total cs
Agree-from g total [] h k = tt
Agree-from g total (c ∷ cs) h k = (
  (ground (arith, text_eq_iff c.generation g), ground arith),
  Agree-from g total cs (ground arith) (ground arith),
)

reassemble_facts :
    (present : Slots) (c : Chunk) (cs : List Chunk) {payload g : Text}
    → reassemble present (c ∷ cs) ≡ valid payload g
    → (all (λ d. text_eq d.generation c.generation) cs ≡ true)
      × (all (λ d. d.total == c.total) cs ≡ true)
      × (c.total ≡ suc (length cs))
      × (c.generation ≡ g)
      × (0 < length payload)
unfolding reassemble
reassemble_facts present c cs h =
    (ground arith, ground arith, ground arith, ground arith, ground arith)

reassemble-Agree :
    (present : Slots) (c : Chunk) (cs : List Chunk) {payload g : Text}
    → reassemble present (c ∷ cs) ≡ valid payload g
    → Agree g (suc (length cs)) (c ∷ cs)
reassemble-Agree present c cs {g} h =
    let (gens, totals, total, gen, _) = reassemble_facts present c cs h in
    (
      (gen, total),
      subst (λ x. Agree x (suc (length cs)) cs) gen
          (subst (λ n. Agree c.generation n cs) total
            (Agree-from c.generation c.total cs gens totals)),
    )

read_slots-IsRead :
    (present : Slots) (plain : Option Text) {payload g : Text}
    → read_slots present plain ≡ valid payload g
    → All (IsRead g (length present)) present
      × (0 < length present)
      × (0 < length payload)
      × (plain ≡ none)
unfolding read_slots
read_slots-IsRead [] none h = cc
read_slots-IsRead [] (some x) h = cc
read_slots-IsRead (p ∷ ps) (some x) h = cc
read_slots-IsRead (p ∷ ps) none {payload} {g} h = elim (Result-cases (read_chunks (p ∷ ps))) [
  | inr (x, e) ↦ absurd (cc (rw (e, read_slots) at h))
  | inl (cs, e) ↦ go cs e (rw (e, read_slots) at h)
]
  where
    go :
        (cs : List Chunk)
        → read_chunks (p ∷ ps) ≡ ok cs
        → reassemble (p ∷ ps) cs ≡ valid payload g
        → All (IsRead g (length (p ∷ ps))) (p ∷ ps)
          × (0 < length (p ∷ ps))
          × (0 < length payload)
          × (◌≡◌ {A = Option Text} none none)
    go [] e k = absurd (cc (read_chunks-cons_inv p.0 p.1 ps e).4)
    go (c ∷ cs) e k =
        let a = reassemble-Agree (p ∷ ps) c cs k in
        let (reads, counted) = read_chunks_inv g (suc (length cs)) (p ∷ ps) e a in
        (
          subst (λ n. All (IsRead g n) (p ∷ ps)) counted reads,
          omega arith,
          (reassemble_facts (p ∷ ps) c cs k).4,
          refl,
        )

-- One slot cookie of a jar that is read: its value is a chunk of the generation, the chunk's index
-- is the number in the cookie's name, and its total is the number of slot cookies of the jar.
abbrev pub IsChunkOf : Text → Text → ℕ → Text × Text → Type 0
IsChunkOf base g total (name, value) = IsRead g total (number_of (slot_suffix base name), value)

All-IsChunkOf :
    (base g : Text) (total : ℕ) (cs : Cookies)
    → All (IsRead g total) (map (slot_of base) cs)
    → All (IsChunkOf base g total) cs
All-IsChunkOf base g total [] h = tt
All-IsChunkOf base g total ((name, value) ∷ cs) (h, hs) = (h, All-IsChunkOf base g total cs hs)

length-map_slots : (base : Text) (cs : Cookies) → length (map (slot_of base) cs) ≡ length cs
length-map_slots base [] = refl
length-map_slots base (c ∷ cs) = ap suc (length-map_slots base cs)

-- A jar from which a session is read.
pub record IsWhole (base : Text) (cookies : Cookies) (payload g : Text) : Type 0 where
  pub within : cookie_header_bytes cookies ≤ request_header_bytes
  pub unchunked : lookup base cookies ≡ none
  pub some_slot : 0 < length (slot_cookies base cookies)
  pub some_payload : 0 < length payload
  pub agreed :
      All (IsChunkOf base g (length (slot_cookies base cookies))) (slot_cookies base cookies)

-- A session is read only from a jar within the budget of the request header, without an unchunked
-- cookie of the base, with at least one slot cookie, each of which carries the one generation that
-- is returned, the index that its name says, and the number of slot cookies as its total; and the
-- payload is not empty.
pub parse-IsWhole :
    (base : Text) (cookies : Cookies) (payload g : Text)
    → parse_session_cookies base cookies ≡ valid payload g
    → IsWhole base cookies payload g
unfolding parse_session_cookies
parse-IsWhole base cookies payload g h =
    elim (Bool-cases (ltb request_header_bytes (cookie_header_bytes cookies))) [
      | inl over ↦ absurd (cc (rw over at h))
      | inr within ↦ elim (Result-cases (scan_slots base cookies [])) [
        | inr (x, e) ↦ absurd (cc (rw (within, e, parse_session_cookies) at h))
        | inl (present, e) ↦
            go present e (ltb-false→le _ _ within) (rw (within, e, parse_session_cookies) at h)
      ]
    ]
  where
    go :
        (present : Slots)
        → scan_slots base cookies [] ≡ ok present
        → cookie_header_bytes cookies ≤ request_header_bytes
        → read_slots present (lookup base cookies) ≡ valid payload g
        → IsWhole base cookies payload g
    go present e small k =
        let same = scan_slots_inv base cookies [] e in
        let counted : length present ≡ length (slot_cookies base cookies) =
          ap length same ∙ length-map_slots base (slot_cookies base cookies) in
        let (reads, some_slots, some_units, plain) =
          read_slots-IsRead present (lookup base cookies) k in
        record {
          within = small;
          unchunked = plain;
          some_slot = omega arith;
          some_payload = some_units;
          agreed = All-IsChunkOf base g _ (slot_cookies base cookies) (
              subst (λ n. All (IsRead g n) (map (slot_of base) (slot_cookies base cookies))) counted
                (subst (All (IsRead g (length present))) same reads));
        }
