-- ===== src/Reauth/State/Signed.antt =====
-- What the signed cookies of src/lib/auth/reauthentication-state.ts let through.
use evirion_engineering_memo.Prelude.{
  ℕ, ◌≡◌, ◌≢◌, ◌<◌, refl, ◌∙◌, subst, ap, ◌⊎◌, inl, inr, true, false, [], ◌∷◌, ◌++◌, Option, none,
  some, Bool-cases, Option-cases, Text, codes, text_eq, text_eq_iff, text_eq_self, leb, split_last,
  split_last_sound, split_last-append, Lacks, arith,
}
use evirion_engineering_memo.Prelude.Json.{
  Json, null, boolean, number, text, array, object, get, get_field,
}
use evirion_engineering_memo.Csrf.{Mac}
use evirion_engineering_memo.Reauth.State.{
  PendingMutation, encode_signed, Read, nothing, found, raised, decode_parts, decode_signed,
  named_session, finite, other_session, check_pending, read_members, read_pending_mutation,
  pending_json, serialize_pending_mutation,
}

abbrev pub IsOf : Option Text → Text → Type 0
IsOf none id = Unit
IsOf (some s) id = id ≡ s

-- A paused mutation that is good at a time for a session.
pub record IsPaused (mac : Mac) (decode : Text → Option Json) (token : Text) (session : Option Text)
    (now : ℕ) (j : Json) : Type 0 where
  pub payload : Text
  pub signature : Text
  pub id : Text
  pub expires_at : ℕ
  pub parts : token ≡ payload ++ b'.' ∷ signature
  pub signed : mac.verify signature payload ≡ some true
  pub decoded : decode payload ≡ some j
  pub names : get (codes "providerSessionId") j ≡ some (text id)
  pub expires : get (codes "expiresAt") j ≡ some (number expires_at)
  pub named : id ≢ []
  pub live : now < expires_at
  pub same : IsOf session id

other_session_inv :
    (session : Option Text) (id : Text) → other_session session id ≡ false → IsOf session id
other_session_inv none id h = tt
other_session_inv (some s) id h = elim (Bool-cases (text_eq id s)) [
  | inl e ↦ (text_eq_iff id s).0 e
  | inr e ↦ absurd (cc (rw e at h))
]

named_session_inv :
    (o : Option Json) {id : Text} → named_session o ≡ some id → (o ≡ some (text id)) × (id ≢ [])
named_session_inv none h = absurd (cc)
named_session_inv (some null) h = absurd (cc)
named_session_inv (some (boolean b)) h = absurd (cc)
named_session_inv (some (number n)) h = absurd (cc)
named_session_inv (some (text [])) h = absurd (cc)
named_session_inv (some (text (c ∷ s))) h = (cc, λ e. absurd (cc))
named_session_inv (some (array es)) h = absurd (cc)
named_session_inv (some (object fs)) h = absurd (cc)

finite_inv : (o : Option Json) {n : ℕ} → finite o ≡ some n → o ≡ some (number n)
finite_inv none h = absurd (cc)
finite_inv (some null) h = absurd (cc)
finite_inv (some (boolean b)) h = absurd (cc)
finite_inv (some (number n)) h = cc
finite_inv (some (text s)) h = absurd (cc)
finite_inv (some (array es)) h = absurd (cc)
finite_inv (some (object fs)) h = absurd (cc)

check_pending_inv :
    (session : Option Text) (now : ℕ) (j k : Json) (o : Option Text) (e : Option ℕ)
    → check_pending session now j o e ≡ found k
    → (id : Text) × (n : ℕ) × (o ≡ some id) × (e ≡ some n) × (now < n) × IsOf session id × (j ≡ k)
check_pending_inv session now j k none e h = absurd (cc)
check_pending_inv session now j k (some id) none h = absurd (cc)
check_pending_inv session now j k (some id) (some n) h = elim (Bool-cases (leb n now)) [
  | inl late ↦ absurd (cc (rw late at h))
  | inr early ↦ elim (Bool-cases (other_session session id)) [
    | inl other ↦ absurd (cc (rw (early, other) at h))
    | inr same ↦ (
      id,
      n,
      refl,
      refl,
      ground arith,
      other_session_inv session id same,
      cc (rw (early, same) at h),
    )
  ]
]

read_members_inv :
    (session : Option Text) (now : ℕ) (j k : Json)
    → read_members session now j ≡ found k
    → check_pending session now j
        (named_session (get (codes "providerSessionId") j))
        (finite (get (codes "expiresAt") j))
      ≡ found k
read_members_inv session now null k h = absurd (cc)
read_members_inv session now (boolean b) k h = h
read_members_inv session now (number n) k h = h
read_members_inv session now (text s) k h = h
read_members_inv session now (array es) k h = h
read_members_inv session now (object fs) k h = h

decode_parts_inv :
    (mac : Mac) (decode : Text → Option Json) (token : Text) (o : Option (Text × Text)) (j : Json)
    → split_last b'.' token ≡ o
    → decode_parts mac decode o ≡ found j
    → (payload : Text) × (signature : Text) × (token ≡ payload ++ b'.' ∷ signature)
      × (mac.verify signature payload ≡ some true)
      × (decode payload ≡ some j)
decode_parts_inv mac decode token none j e h = absurd (cc)
decode_parts_inv mac decode token (some ([], signature)) j e h = absurd (cc)
decode_parts_inv mac decode token (some (c ∷ payload, signature)) j e h =
    elim (Option-cases (mac.verify signature (c ∷ payload))) [
      | inl k ↦ absurd (cc (rw k at h))
      | inr (false, k) ↦ absurd (cc (rw k at h))
      | inr (true, k) ↦ elim (Option-cases (decode (c ∷ payload))) [
        | inl d ↦ absurd (cc (rw (k, d) at h))
        | inr (x, d) ↦ (
          c ∷ payload,
          signature,
          split_last_sound b'.' token (c ∷ payload) signature e,
          k,
          d ∙ cc (rw (k, d) at h),
        )
      ]
    ]

Read-cases : (r : Read) → (r ≡ nothing) ⊎ ((r ≡ raised) ⊎ ((j : Json) × (r ≡ found j)))
Read-cases nothing = inl refl
Read-cases raised = inr (inl refl)
Read-cases (found j) = inr (inr (j, refl))

-- A paused mutation that is read back carries a valid signature over what was decoded, names a session,
-- has not expired, and, where the caller holds a session, names that one.
pub read_pending_mutation-IsPaused :
    (mac : Mac) (decode : Text → Option Json) (token : Text) (session : Option Text) (now : ℕ)
    (j : Json)
    → read_pending_mutation mac decode (some token) session now ≡ found j
    → IsPaused mac decode token session now j
unfolding read_pending_mutation decode_signed
read_pending_mutation-IsPaused mac decode token session now j h =
    elim (Read-cases (decode_parts mac decode (split_last b'.' token))) [
      | inl e ↦ absurd (cc (rw e at h))
      | inr (inl e) ↦ absurd (cc (rw e at h))
      | inr (inr (k, e)) ↦
          let (id, n, o, t, live, same, kj) =
            check_pending_inv session now k j _ _ (read_members_inv session now k j (rw e at h)) in
          let (payload, signature, parts, signed, decoded) =
            decode_parts_inv mac decode token _ k refl e in
          let (names, named) = named_session_inv (get (codes "providerSessionId") k) o in
          record {
            payload = payload;
            signature = signature;
            id = id;
            expires_at = n;
            parts = parts;
            signed = signed;
            decoded = decoded ∙ ap some kj;
            names = subst (λ x. get (codes "providerSessionId") x ≡ some (text id)) kj names;
            expires = subst (λ x. get (codes "expiresAt") x ≡ some (number n)) kj (finite_inv _ t);
            named = named;
            live = live;
            same = same;
          }
    ]

decode_parts-signed :
    (mac : Mac) (decode : Text → Option Json) (body : Text) (j : Json)
    → Lacks b'.' (mac.sign body)
    → mac.verify (mac.sign body) body ≡ some true
    → decode body ≡ some j
    → body ≢ []
    → decode_parts mac decode (split_last b'.' (body ++ b'.' ∷ mac.sign body)) ≡ found j
decode_parts-signed mac decode [] j lacks good decoded filled = absurd (filled refl)
decode_parts-signed mac decode (c ∷ body) j lacks good decoded filled =
    rw (split_last-append b'.' (c ∷ body) (mac.sign (c ∷ body)) lacks, good, decoded) refl

le→leb-false : (a b : ℕ) → a < b → leb b a ≡ false
le→leb-false a b h = ground arith

IsOf-other_session :
    (session : Option Text) (id : Text) → IsOf session id → other_session session id ≡ false
IsOf-other_session none id h = refl
IsOf-other_session (some s) id h = rw (h, text_eq_self s) refl

check_pending_good :
    (session : Option Text) (now expires_at : ℕ) (j : Json) (id : Text)
    → now < expires_at
    → IsOf session id
    → check_pending session now j (some id) (some expires_at) ≡ found j
check_pending_good session now expires_at j id live same =
    rw (le→leb-false now expires_at live, IsOf-other_session session id same) refl

named_session_text : (id : Text) → id ≢ [] → named_session (some (text id)) ≡ some id
named_session_text [] h = absurd (h refl)
named_session_text (c ∷ s) h = refl

read_members-pending_json :
    (session : Option Text) (now : ℕ) (p : PendingMutation)
    → p.provider_session_id ≢ []
    → now < p.expires_at
    → IsOf session p.provider_session_id
    → read_members session now (pending_json p) ≡ found (pending_json p)
unfolding get get_field text_eq
read_members-pending_json session now p named live same =
    rw (named_session_text p.provider_session_id named)
      (check_pending_good session now p.expires_at _ p.provider_session_id live same)

check_pending_other :
    (session : Text) (now expires_at : ℕ) (j : Json) (id : Text)
    → text_eq id session ≡ false
    → check_pending (some session) now j (some id) (some expires_at) ≡ nothing
check_pending_other session now expires_at j id other = elim (Bool-cases (leb expires_at now)) [
  | inl late ↦ rw late refl
  | inr early ↦ rw (early, other) refl
]

read_members-other :
    (session : Text) (now : ℕ) (p : PendingMutation)
    → p.provider_session_id ≢ []
    → text_eq p.provider_session_id session ≡ false
    → read_members (some session) now (pending_json p) ≡ nothing
unfolding get get_field text_eq
read_members-other session now p named other =
    rw (named_session_text p.provider_session_id named)
      (check_pending_other session now p.expires_at _ p.provider_session_id other)

-- For another session than the one that paused it, a paused mutation reads as nothing.
pub read-serialize_pending_mutation-other :
    (mac : Mac) (encode : Json → Text) (decode : Text → Option Json) (p : PendingMutation)
    (session : Text) (now : ℕ)
    → Lacks b'.' (mac.sign (encode (pending_json p)))
    → mac.verify (mac.sign (encode (pending_json p))) (encode (pending_json p)) ≡ some true
    → decode (encode (pending_json p)) ≡ some (pending_json p)
    → encode (pending_json p) ≢ []
    → p.provider_session_id ≢ []
    → text_eq p.provider_session_id session ≡ false
    → read_pending_mutation mac decode
        (some (serialize_pending_mutation mac encode p))
        (some session)
        now
      ≡ nothing
unfolding read_pending_mutation decode_signed serialize_pending_mutation encode_signed
read-serialize_pending_mutation-other mac encode decode p session now lacks good decoded filled
      named other =
    rw
      (decode_parts-signed mac decode (encode (pending_json p)) (pending_json p) lacks good decoded
        filled)
      (read_members-other session now p named other)

-- A paused mutation that was stored is read back as it was before it expires, by the session that
-- paused it and by a caller without one.
pub read-serialize_pending_mutation :
    (mac : Mac) (encode : Json → Text) (decode : Text → Option Json) (p : PendingMutation)
    (session : Option Text) (now : ℕ)
    → Lacks b'.' (mac.sign (encode (pending_json p)))
    → mac.verify (mac.sign (encode (pending_json p))) (encode (pending_json p)) ≡ some true
    → decode (encode (pending_json p)) ≡ some (pending_json p)
    → encode (pending_json p) ≢ []
    → p.provider_session_id ≢ []
    → now < p.expires_at
    → IsOf session p.provider_session_id
    → read_pending_mutation mac decode (some (serialize_pending_mutation mac encode p)) session now
      ≡ found (pending_json p)
unfolding read_pending_mutation decode_signed serialize_pending_mutation encode_signed
read-serialize_pending_mutation mac encode decode p session now lacks good decoded filled named live
      same =
    rw
      (decode_parts-signed mac decode (encode (pending_json p)) (pending_json p) lacks good decoded
        filled)
      (read_members-pending_json session now p named live same)
