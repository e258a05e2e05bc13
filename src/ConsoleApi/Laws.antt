-- ===== src/ConsoleApi/Laws.antt =====
-- When src/server/adapters/console-api.ts reports a success.
use evirion_engineering_memo.Prelude.{
  and_inv, ℕ, ◌≡◌, ◌<◌, refl, ◌∙◌, subst, ap, inl, inr, true, ◌&&◌, Option, none, some,
  Option-cases, Bool-cases, Text, codes, text_eq_iff, includes, all, leb, arith,
}
use evirion_engineering_memo.Prelude.Json.{
  Json, null, boolean, number, text, array, object, Fields, get_field, keys,
}
use evirion_engineering_memo.ConsoleApi.{
  ConsoleError, success, Answer, thrown, answered, is_uuid, is_text, uuid_text, envelope_keys,
  envelope_members, envelope_of_fields, success_envelope, call_console_api,
}

-- A contract envelope with its data and the identifier of its request.
pub record IsEnvelope (payload : Json) (d : Json) (request_id : Text) : Type 0 where
  pub fields : Fields
  pub is_object : payload ≡ object fields
  pub no_others : all (includes envelope_keys) (keys fields) ≡ true
  pub version : get_field (codes "contractVersion") fields ≡ some (text (codes "1.0"))
  pub carries : get_field (codes "data") fields ≡ some d
  pub names : get_field (codes "requestId") fields ≡ some (text request_id)
  pub uuid : is_uuid request_id ≡ true

is_text_inv : (s : Text) (o : Option Json) → is_text s o ≡ true → o ≡ some (text s)
is_text_inv s none h = absurd (cc)
is_text_inv s (some null) h = absurd (cc)
is_text_inv s (some (boolean b)) h = absurd (cc)
is_text_inv s (some (number n)) h = absurd (cc)
is_text_inv s (some (text t)) h = ap (λ x. some (text x)) ((text_eq_iff t s).0 h)
is_text_inv s (some (array es)) h = absurd (cc)
is_text_inv s (some (object fs)) h = absurd (cc)

uuid_text_inv :
    (o : Option Json) {t : Text} → uuid_text o ≡ some t → (o ≡ some (text t)) × (is_uuid t ≡ true)
uuid_text_inv none h = absurd (cc)
uuid_text_inv (some null) h = absurd (cc)
uuid_text_inv (some (boolean b)) h = absurd (cc)
uuid_text_inv (some (number n)) h = absurd (cc)
uuid_text_inv (some (text t)) h = ground arith
uuid_text_inv (some (array es)) h = absurd (cc)
uuid_text_inv (some (object fs)) h = absurd (cc)

envelope_members_inv :
    (o : Option Json) (i : Option Text) {d : Json} {t : Text}
    → envelope_members o i ≡ some (d, t)
    → (o ≡ some d) × (i ≡ some t)
envelope_members_inv none i h = absurd (cc)
envelope_members_inv (some x) none h = absurd (cc)
envelope_members_inv (some x) (some y) h = (cc, cc)

envelope_of_fields_inv :
    (fs : Fields) (d : Json) (t : Text)
    → envelope_of_fields fs ≡ some (d, t)
    → IsEnvelope (object fs) d t
envelope_of_fields_inv fs d t h =
    elim (Bool-cases (
      all (includes envelope_keys) (keys fs)
      && is_text (codes "1.0") (get_field (codes "contractVersion") fs))) [
        | inr fails ↦ absurd (cc (rw fails at h))
        | inl passes ↦
            let (others, version) = and_inv _ _ passes in
            let (carries, named) = envelope_members_inv _ _ (rw passes at h) in
            let (names, uuid) = uuid_text_inv _ named in
            record {
              fields = fs;
              is_object = refl;
              no_others = others;
              version = is_text_inv _ _ version;
              carries = carries;
              names = names;
              uuid = uuid;
            }
      ]

success_envelope_inv :
    (payload d : Json) (t : Text) → success_envelope payload ≡ some (d, t) → IsEnvelope payload d t
unfolding success_envelope
success_envelope_inv null d t h = absurd (cc)
success_envelope_inv (boolean b) d t h = absurd (cc)
success_envelope_inv (number n) d t h = absurd (cc)
success_envelope_inv (text s) d t h = absurd (cc)
success_envelope_inv (array es) d t h = absurd (cc)
success_envelope_inv (object fs) d t h = envelope_of_fields_inv fs d t h

success_inv : {T : Type 0} (v w : T) (s t : Text) → success v s ≡ success w t → (v ≡ w) × (s ≡ t)
success_inv v w s t h = (cc, cc)

-- A success is reported only for an answer with a status below 400 whose body is a contract envelope:
-- an object with no other members than the version, which is 1.0, the data, which passes the expected
-- check with the reported value, and the identifier of the request, which is a UUID.
pub call_console_api-success :
    {T : Type 0} (console_error : Json → Option ConsoleError) (expected : Json → Option T)
    (a : Answer) (value : T) (request_id : Text)
    → call_console_api console_error expected a ≡ success value request_id
    → (status : ℕ) × (payload : Json) × (d : Json) × (a ≡ answered status (some payload))
      × (status < 400)
      × IsEnvelope payload d request_id
      × (expected d ≡ some value)
unfolding call_console_api
call_console_api-success console_error expected thrown value request_id h = absurd (cc)
call_console_api-success console_error expected (answered status none) value request_id h =
    absurd (cc)
call_console_api-success console_error expected (answered status (some payload)) value request_id
      h =
    elim (Bool-cases (leb 400 status)) [
      | inl high ↦ elim (Option-cases (console_error payload)) [
        | inl e ↦ absurd (cc (rw (high, e) at h))
        | inr (x, e) ↦ absurd (cc (rw (high, e) at h))
      ]
      | inr low ↦ elim (Option-cases (success_envelope payload)) [
        | inl e ↦ absurd (cc (rw (low, e) at h))
        | inr ((d, t), e) ↦ elim (Option-cases (expected d)) [
          | inl x ↦ absurd (cc (rw (low, e, x) at h))
          | inr (v, x) ↦ (
            status,
            payload,
            d,
            refl,
            ground arith,
            subst (IsEnvelope payload d) (success_inv v value t request_id (rw (low, e, x) at h)).1
                (success_envelope_inv payload d t e),
            x ∙ ap some (success_inv v value t request_id (rw (low, e, x) at h)).0,
          )
        ]
      ]
    ]
