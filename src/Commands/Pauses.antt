-- ===== src/Commands/Pauses.antt =====
-- When a command of src/server/actions pauses a mutation, and who resumes it.
use evirion_engineering_memo.Prelude.{
  some_inv, ℕ, ◌+◌, ◌≡◌, ◌<◌, ◌↔◌, refl, ◌≢◌, ◌⊎◌, inl, inr, subst, sym, ap, ◌∙◌, true, [], ◌∷◌,
  Option, none, some, Option-cases, Bool-cases, Text, codes, text_eq, text_eq_iff, Lacks,
  if◌then◌else◌,
}
use evirion_engineering_memo.ConsoleApi.{
  ConsoleError, ConsoleFailure, error, unsupported, unreachable,
}
use evirion_engineering_memo.Reauth.State.{
  PendingDraft, pending_json, found, nothing, read_pending_mutation, serialize_pending_mutation,
  is_reauthentication_fresh,
}
use evirion_engineering_memo.Reauth.State.Signed.{
  read-serialize_pending_mutation, read-serialize_pending_mutation-other,
}
use evirion_engineering_memo.Commands.{
  World, Context, Response, back, pending_of, step_up, pause, context_session, guard_freshness,
  redirect_for_reauthentication, finish_failure,
}

pub none-some : {A : Type 0} {a : A} → none ≢ some a
none-some h = cc

step_up-eq-none :
    (w : World) (draft : PendingDraft) (o : Option Text)
    → (step_up w draft o ≡ none) ↔ ((o ≡ none) ⊎ (o ≡ some []))
step_up-eq-none w draft none = (λ h. inl refl, λ h. refl)
step_up-eq-none w draft (some []) = (λ h. inr refl, λ h. refl)
step_up-eq-none w draft (some (c ∷ id)) =
    (λ h. absurd (cc), λ h. elim h [ inl e ↦ absurd (cc) | inr e ↦ absurd (cc) ])

-- The freshness check lets a command go on exactly if the session is fresh at this instant, or the
-- session context names no session that could be stepped up.
pub guard_freshness_iff :
    (w : World) (context : Context) (draft : PendingDraft)
    → (guard_freshness w context draft ≡ none) ↔ (
        (is_reauthentication_fresh w.parse_date context.fresh_until w.now_ms ≡ true)
        ⊎ ((context.session_id ≡ none) ⊎ (context.session_id ≡ some [])))
unfolding guard_freshness
guard_freshness_iff w context draft =
    elim (Bool-cases (is_reauthentication_fresh w.parse_date context.fresh_until w.now_ms)) [
      | inl fresh ↦ (λ h. inl fresh, λ h. rw fresh refl)
      | inr stale ↦ (
        λ h. inr ((step_up-eq-none w draft context.session_id).0 (rw stale at h)),
        λ h. elim h [
          | inl fresh ↦ absurd (cc)
          | inr unnamed ↦ rw stale ((step_up-eq-none w draft context.session_id).1 unnamed)
        ],
      )
    ]

step_up_inv :
    (w : World) (draft : PendingDraft) (o : Option Text) {response : Response}
    → step_up w draft o ≡ some response
    → (id : Text) × (o ≡ some id)
      × (id ≢ [])
      × (response ≡ redirect_for_reauthentication w draft id none)
step_up_inv w draft none h = absurd (cc)
step_up_inv w draft (some []) h = absurd (cc)
step_up_inv w draft (some (c ∷ id)) h = (c ∷ id, refl, λ e. absurd (cc), cc)

stored_of :
    (w : World) (draft : PendingDraft) (id : Text)
    → (redirect_for_reauthentication w draft id none).stored
      ≡ some (serialize_pending_mutation w.environment.mac w.encode (pending_of w draft id))
unfolding redirect_for_reauthentication
stored_of w draft id = refl

pub guard_freshness_inv :
    (w : World) (context : Context) (draft : PendingDraft) {response : Response}
    → guard_freshness w context draft ≡ some response
    → (id : Text) × (context.session_id ≡ some id)
      × (id ≢ [])
      × (response.stored
          ≡ some (serialize_pending_mutation w.environment.mac w.encode (pending_of w draft id)))
unfolding guard_freshness
guard_freshness_inv w context draft h =
    elim (Bool-cases (is_reauthentication_fresh w.parse_date context.fresh_until w.now_ms)) [
      | inl fresh ↦ absurd (cc (rw fresh at h))
      | inr stale ↦
          let (id, named, filled, e) = step_up_inv w draft context.session_id (rw stale at h) in
          (id, named, filled, ap (λ r. r.stored) e ∙ stored_of w draft id)
    ]

-- What a stale command stores is read back as that command, for ten minutes, by the session that the
-- backend's session context names, and reads as nothing for any other session. This for a MAC that
-- verifies its own signatures and writes them without a dot, and a decoding that undoes the encoding.
pub guard_freshness-resumes :
    (w : World) (context : Context) (draft : PendingDraft) (response : Response) (id session : Text)
    (later : ℕ)
    → guard_freshness w context draft ≡ some response
    → context.session_id ≡ some id
    → Lacks b'.' (w.environment.mac.sign (w.encode (pending_json (pending_of w draft id))))
    → w.environment.mac.verify
        (w.environment.mac.sign (w.encode (pending_json (pending_of w draft id))))
        (w.encode (pending_json (pending_of w draft id)))
      ≡ some true
    → w.decode (w.encode (pending_json (pending_of w draft id)))
      ≡ some (pending_json (pending_of w draft id))
    → w.encode (pending_json (pending_of w draft id)) ≢ []
    → later < w.now_ms + 600000
    → read_pending_mutation w.environment.mac w.decode response.stored (some session) later
      ≡ (if text_eq id session then found (pending_json (pending_of w draft id)) else nothing)
guard_freshness-resumes w context draft response id session later h named lacks good decoded filled
      live =
    let (id2, named2, n, e) = guard_freshness_inv w context draft h in
    let same = some_inv (sym named2 ∙ named) in
    let e2 =
      subst
        (λ i.
          response.stored
          ≡ some (serialize_pending_mutation w.environment.mac w.encode (pending_of w draft i)))
        same e in
    let n2 = subst (λ i. i ≢ []) same n in
    elim (Bool-cases (text_eq id session)) [
      | inl mine ↦
          rw (e2, mine)
            (read-serialize_pending_mutation w.environment.mac w.encode w.decode
              (pending_of w draft id) (some session) later lacks good decoded filled n2 live
              ((text_eq_iff id session).0 mine))
      | inr other ↦
          rw (e2, other)
            (read-serialize_pending_mutation-other w.environment.mac w.encode w.decode
              (pending_of w draft id) session later lacks good decoded filled n2 other)
    ]

pause_inv :
    (w : World) (d : Option PendingDraft) (c : Option Context) {response : Response}
    → pause w d c ≡ some response
    → (draft : PendingDraft) × (id : Text) × (d ≡ some draft)
      × (context_session c ≡ some id)
      × (response ≡ redirect_for_reauthentication w draft id none)
pause_inv w none c h = absurd (cc)
pause_inv w (some draft) c h =
    let (id, named, _, e) = step_up_inv w draft (context_session c) h in (draft, id, refl, named, e)

pub back-stored : (w : World) (path result : Text) → (back w path result).stored ≡ none
unfolding back
back-stored w path result = refl

-- A failed command stores a paused mutation only if the backend's code is REAUTHENTICATION_REQUIRED and
-- both the draft and a session are known; it then stores that draft for that session.
pub finish_failure-stored :
    (w : World) (path : Text) (d : Option PendingDraft) (c : Option Context) (e : ConsoleFailure)
    (token : Text)
    → (finish_failure w path d c e).stored ≡ some token
    → (x : ConsoleError) × (status : ℕ) × (draft : PendingDraft) × (id : Text) × (e
        ≡ error x status)
      × (x.code ≡ codes "REAUTHENTICATION_REQUIRED")
      × (d ≡ some draft)
      × (context_session c ≡ some id)
      × (token ≡ serialize_pending_mutation w.environment.mac w.encode (pending_of w draft id))
unfolding finish_failure
finish_failure-stored w path d c (unsupported status) token h =
    absurd (cc (back-stored w path (codes "UNSUPPORTED_SERVER_RESPONSE")))
finish_failure-stored w path d c unreachable token h =
    absurd (cc (back-stored w path (codes "DEPENDENCY_UNAVAILABLE")))
finish_failure-stored w path d c (error x status) token h =
    elim (Bool-cases (text_eq x.code (codes "REAUTHENTICATION_REQUIRED"))) [
      | inr other ↦ absurd (none-some (sym (back-stored w path x.code) ∙ (rw other at h)))
      | inl asked ↦ elim (Option-cases (pause w d c)) [
        | inl k ↦ absurd (none-some (sym (back-stored w path x.code) ∙ (rw (asked, k) at h)))
        | inr (response, k) ↦
            let (draft, id, drafted, named, e) = pause_inv w d c k in
            (
              x,
              status,
              draft,
              id,
              refl,
              (text_eq_iff _ _).0 asked,
              drafted,
              named,
              some_inv (sym (rw (asked, k) at h) ∙ (ap (λ r. r.stored) e ∙ stored_of w draft id)),
            )
      ]
    ]
