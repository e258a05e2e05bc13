-- ===== src/Ceremony/Resumes.antt =====
-- Which handler replays a paused mutation, and with which request.
use evirion_engineering_memo.Prelude.{
  ◌≢◌, ◌⊎◌, ◌∙◌, true, false, none, Option-cases, codes, ◌≡◌, inl, inr, refl, ap, List, [], ◌∷◌,
  some, Bool-cases, Text, text_eq, if◌then◌else◌,
}
use evirion_engineering_memo.Prelude.Json.{get, get_field}
use evirion_engineering_memo.Csrf.{to_text, issue_token, session}
use evirion_engineering_memo.Policy.{absolute_session_seconds}
use evirion_engineering_memo.Session.{
  StoredSession, ReadOutcome, active, anonymous, refused, read_session,
}
use evirion_engineering_memo.Guard.{Request, session_csrf_cookie}
use evirion_engineering_memo.Reauth.{
  Gate, repository_import, knowledge_lifecycle, membership_change, repository_policy, gate_name,
  gate_of, Handler, switch, resolve_mutation_handler, is_allowed_mutation_path,
}
use evirion_engineering_memo.Reauth.State.{set_field, PendingMutation, pending_json, fields_json}
use evirion_engineering_memo.Commands.{World}
use evirion_engineering_memo.Routes.{Services, Reply, raised}
use evirion_engineering_memo.Routes.Dispatch.{handle}
use evirion_engineering_memo.Ceremony.{
  Ceremony, entries, filled_entries, replay_headers, replay_session, replay_request, proof_for,
  replay_pending_mutation,
}

gate_of-gate_name : (g : Gate) → gate_of (gate_name g) ≡ some g
unfolding gate_of text_eq
gate_of-gate_name repository_import = refl
gate_of-gate_name knowledge_lifecycle = refl
gate_of-gate_name membership_change = refl
gate_of-gate_name repository_policy = refl

entries-fields_json : (fields : List (Text × Text)) → entries (fields_json fields) ≡ fields
unfolding entries to_text
entries-fields_json [] = refl
entries-fields_json ((key, value) ∷ fields) =
    ap (λ rest. (key, value) ∷ rest) (entries-fields_json fields)

pub replay_pending_mutation-handle :
    (w : World) (api : Services) (c : Ceremony) (r : Request) (p : PendingMutation) (h : Handler)
    (s : StoredSession) (generation : Text)
    → resolve_mutation_handler p.draft.mutation_path ≡ some h
    → read_session w.decode r.cookies w.now ≡ active s generation
    → replay_pending_mutation w api c r (pending_json p) ≡ (
        if is_allowed_mutation_path p.draft.gate p.draft.mutation_path
        then handle w api h (replay_request w c r.cookies p.draft.fields (proof_for w c s))
        else raised [])
unfolding replay_pending_mutation get get_field text_eq
replay_pending_mutation-handle w api c r p h s generation resolved held =
    elim (Bool-cases (is_allowed_mutation_path p.draft.gate p.draft.mutation_path)) [
      | inl good ↦
          rw
            (
              gate_of-gate_name p.draft.gate,
              good,
              resolved,
              held,
              entries-fields_json p.draft.fields,
            )
            refl
      | inr bad ↦ rw (gate_of-gate_name p.draft.gate, bad) refl
    ]

-- No handler runs: the gate of the mutation does not admit its path, the path has no handler, or the request
-- holds no live session.
abbrev pub IsRefused : World → Request → PendingMutation → Type 0
IsRefused w r p =
    (is_allowed_mutation_path p.draft.gate p.draft.mutation_path ≡ false)
    ⊎ ((resolve_mutation_handler p.draft.mutation_path ≡ none)
        ⊎ ((s : StoredSession) (generation : Text)
            → read_session w.decode r.cookies w.now ≢ active s generation))

-- A reply that the handler of the mutation's path gives to a request that carries the mutation and a new
-- proof for the provider session of the live session.
pub record IsReplay (w : World) (api : Services) (c : Ceremony) (r : Request) (p : PendingMutation)
    (reply : Reply) : Type 0 where
  pub handler : Handler
  pub session_of : StoredSession
  pub generation : Text
  pub request : Request
  pub proof : Text
  pub admitted : is_allowed_mutation_path p.draft.gate p.draft.mutation_path ≡ true
  pub resolved : resolve_mutation_handler p.draft.mutation_path ≡ some handler
  pub held : read_session w.decode r.cookies w.now ≡ active session_of generation
  pub handled : reply ≡ handle w api handler request
  pub method : request.method ≡ codes "POST"
  pub sent_from : request.headers (codes "origin") ≡ some w.environment.canonical_origin
  pub proven :
      proof
      ≡ issue_token w.environment.mac w.encode c.nonce
          (session session_of.provider_session_id)
          w.now
          absolute_session_seconds
  pub jar :
      request.cookies ≡ c.resend (filled_entries (set_field session_csrf_cookie proof r.cookies))
  pub body : request.form ≡ c.read_back (set_field (codes "csrfToken") proof p.draft.fields)

ReadOutcome-cases :
    (o : ReadOutcome)
    → ((s : StoredSession) × (generation : Text) × (o ≡ active s generation))
      ⊎ ((s : StoredSession) (generation : Text) → o ≢ active s generation)
ReadOutcome-cases (active s generation) = inl (s, generation, refl)
ReadOutcome-cases anonymous = inr (λ s generation h. cc)
ReadOutcome-cases (refused reason clear) = inr (λ s generation h. cc)

module _ (w : World) (api : Services) (c : Ceremony) (r : Request) (p : PendingMutation) where
  replay_session-refused :
      (h : Handler) (o : ReadOutcome)
      → ((s : StoredSession) (generation : Text) → o ≢ active s generation)
      → replay_session w api c r (pending_json p) h o ≡ raised []
  replay_session-refused h (active s generation) n = absurd (n s generation refl)
  replay_session-refused h anonymous n = refl
  replay_session-refused h (refused reason clear) n = refl

  not_admitted :
      is_allowed_mutation_path p.draft.gate p.draft.mutation_path ≡ false
      → replay_pending_mutation w api c r (pending_json p) ≡ raised []
  unfolding replay_pending_mutation get get_field text_eq
  not_admitted bad = rw (gate_of-gate_name p.draft.gate, bad) refl

  not_resolved :
      is_allowed_mutation_path p.draft.gate p.draft.mutation_path ≡ true
      → resolve_mutation_handler p.draft.mutation_path ≡ none
      → replay_pending_mutation w api c r (pending_json p) ≡ raised []
  unfolding replay_pending_mutation get get_field text_eq
  not_resolved good none_of = rw (gate_of-gate_name p.draft.gate, good, none_of) refl

  not_held :
      (h : Handler)
      → is_allowed_mutation_path p.draft.gate p.draft.mutation_path ≡ true
      → resolve_mutation_handler p.draft.mutation_path ≡ some h
      → ((s : StoredSession) (generation : Text)
          → read_session w.decode r.cookies w.now ≢ active s generation)
      → replay_pending_mutation w api c r (pending_json p) ≡ raised []
  unfolding replay_pending_mutation get get_field text_eq
  not_held h good resolved n =
      rw (gate_of-gate_name p.draft.gate, good, resolved) (replay_session-refused h _ n)

  replay_headers-origin :
      replay_headers c w.environment.canonical_origin (codes "origin")
      ≡ some w.environment.canonical_origin
  unfolding replay_headers switch text_eq
  replay_headers-origin = refl

  -- A paused mutation is replayed exactly where its gate admits its path, the path has a handler and the
  -- request holds a live session, and it raises without a call otherwise. The replay is that handler's
  -- reply to a POST from the canonical origin, with the fields of the mutation as its form and the cookies
  -- of the request, both under one new proof, which is issued for the provider session of that session.
  pub replay_pending_mutation-IsReplay :
      (IsRefused w r p × (replay_pending_mutation w api c r (pending_json p) ≡ raised []))
      ⊎ IsReplay w api c r p (replay_pending_mutation w api c r (pending_json p))
  replay_pending_mutation-IsReplay =
      elim (Bool-cases (is_allowed_mutation_path p.draft.gate p.draft.mutation_path)) [
        | inr bad ↦ inl (inl bad, not_admitted bad)
        | inl good ↦ elim (Option-cases (resolve_mutation_handler p.draft.mutation_path)) [
          | inl none_of ↦ inl (inr (inl none_of), not_resolved good none_of)
          | inr (h, resolved) ↦ elim (ReadOutcome-cases (read_session w.decode r.cookies w.now)) [
            | inr n ↦ inl (inr (inr n), not_held h good resolved n)
            | inl (s, generation, held) ↦ inr (record {
              handler = h;
              session_of = s;
              generation = generation;
              request = replay_request w c r.cookies p.draft.fields (proof_for w c s);
              proof = proof_for w c s;
              admitted = good;
              resolved = resolved;
              held = held;
              handled =
                  replay_pending_mutation-handle w api c r p h s generation resolved held
                  ∙ rw good refl;
              method = refl;
              sent_from = replay_headers-origin;
              proven = refl;
              jar = refl;
              body = refl;
            })
          ]
        ]
      ]
