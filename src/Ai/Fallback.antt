-- ===== src/Ai/Fallback.antt =====
-- The orchestrator always answers.
use gotra.Prelude.{
  pos, ◌≡◌, ◌≢◌, ◌∙◌, refl, Str, none, some, codes, str_eq, str_eq_iff, List, [], ◌∷◌, ◌⊎◌, inl,
  inr, Bool-cases, true, false, arith,
}
use gotra.Errors.{GoError, Outcome, ok, err, panic}
use gotra.Ai.{
  Provider, CompletionRequest, CompletionResponse, by_name, if_available, stub_provider,
  stub_severity, new_orchestrator, complete_from, complete,
}

-- The provider does not panic.
abbrev pub Returns : Provider → CompletionRequest → Type 0
Returns p req = p.complete req ≡ panic → ⊥

-- What a name of the configuration stands for.
abbrev pub Named : Provider → Provider → Str → Provider → Type 0
Named gemini claude name p =
    (name ≡ codes "gemini") × (p ≡ gemini) ⊎ (name ≡ codes "claude") × (p ≡ claude)

-- The provider of a name answers with the response.
pub record AnswersAs (gemini claude : Provider) (req : CompletionRequest) (name : Str)
    (r : CompletionResponse) : Type 0 where
  pub provider : Provider
  pub named : Named gemini claude name provider
  pub configured : provider.available ≡ true
  pub answers : provider.complete req ≡ ok r

-- No provider of the name answers: the name stands for none, or for one without a key, or for one
-- that fails.
pub data Silent (gemini claude : Provider) (req : CompletionRequest) (name : Str) : Type 0 where
  unknown : name ≢ codes "gemini" → name ≢ codes "claude" → Silent gemini claude req name
  unavailable :
      (p : Provider)
      → Named gemini claude name p
      → p.available ≡ false
      → Silent gemini claude req name
  failing :
      (p : Provider) (e : GoError)
      → Named gemini claude name p
      → p.available ≡ true
      → p.complete req ≡ err e
      → Silent gemini claude req name

Outcome-cases :
    {A : Type 0} (o : Outcome A)
    → ((a : A) × (o ≡ ok a)) ⊎ (((e : GoError) × (o ≡ err e)) ⊎ (o ≡ panic))
Outcome-cases (ok a) = inl (a, refl)
Outcome-cases (err e) = inr (inl (e, refl))
Outcome-cases panic = inr (inr refl)

by_name-cases :
    (gemini claude : Provider) (name : Str)
    → ((by_name gemini claude name ≡ none) × (name ≢ codes "gemini") × (name ≢ codes "claude"))
      ⊎ ((p : Provider) × (by_name gemini claude name ≡ some p) × Named gemini claude name p)
unfolding by_name
by_name-cases gemini claude name = elim (Bool-cases (str_eq name (codes "gemini"))) [
  | inl e ↦ inr (
    gemini,
    rw (by_name, e) refl,
    inl (ground (arith, e, str_eq_iff name (codes "gemini")), refl),
  )
  | inr e ↦ elim (Bool-cases (str_eq name (codes "claude"))) [
    | inl k ↦ inr (
      claude,
      rw (by_name, e, k) refl,
      inr (ground (arith, k, str_eq_iff name (codes "claude")), refl),
    )
    | inr k ↦ inl (
      rw (by_name, e, k) refl,
      λ h. ground (arith, e, h, str_eq_iff name (codes "gemini")),
      λ h. ground (arith, k, h, str_eq_iff name (codes "claude")),
    )
  ]
]

-- One name of the chain: its provider answers, or it is silent and the rest of the chain answers.
Tried : Provider → Provider → CompletionRequest → Str → List Provider → GoError → Type 0
Tried gemini claude req name rest e =
    ((r : CompletionResponse) × AnswersAs gemini claude req name r
      × (complete_from e (if_available (by_name gemini claude name) rest) req ≡ ok r))
    ⊎ (Silent gemini claude req name
        × ((e' : GoError) × (complete_from e (if_available (by_name gemini claude name) rest) req
              ≡ complete_from e' rest req)))

provider-Tried :
    (gemini claude : Provider) (req : CompletionRequest) (name : Str) (rest : List Provider)
    (e : GoError) (p : Provider)
    → Returns p req
    → by_name gemini claude name ≡ some p
    → Named gemini claude name p
    → Tried gemini claude req name rest e
unfolding Tried complete_from
provider-Tried gemini claude req name rest e p returns same named = elim (Bool-cases p.available) [
  | inr a ↦ inr (unavailable p named a, (e, rw (same, a) refl))
  | inl a ↦ elim (Outcome-cases (p.complete req)) [
    | inl (r, h) ↦ inl (
      r,
      record { provider = p; named = named; configured = a; answers = h },
      rw (same, a, complete_from, h) refl,
    )
    | inr (inl (e', h)) ↦
        inr (failing p e' named a h, (e', rw (same, a) (rw (complete_from, h) refl)))
    | inr (inr h) ↦ absurd (returns h)
  ]
]

Named-Returns :
    (req : CompletionRequest) (gemini claude : Provider) (name : Str) (p : Provider)
    → Returns gemini req
    → Returns claude req
    → Named gemini claude name p
    → Returns p req
Named-Returns req gemini claude name p g c (inl (e, same)) = rw same g
Named-Returns req gemini claude name p g c (inr (e, same)) = rw same c

name-Tried :
    (gemini claude : Provider) (req : CompletionRequest) (name : Str) (rest : List Provider)
    (e : GoError)
    → Returns gemini req
    → Returns claude req
    → Tried gemini claude req name rest e
unfolding Tried
name-Tried gemini claude req name rest e g c = elim (by_name-cases gemini claude name) [
  | inl (none_named, k, l) ↦ inr (unknown k l, (e, rw none_named refl))
  | inr (p, same, named) ↦
      provider-Tried gemini claude req name rest e p
        (Named-Returns req gemini claude name p g c named) same named
]

-- The response of the stub.
abbrev pub stub_response : (Str → Str) → CompletionRequest → CompletionResponse
stub_response payload req = record {
  text = payload (stub_severity req.user);
  provider = codes "stub";
  tokens_in = pos 0;
  tokens_out = pos 0;
}

-- Whatever is configured and however the remote providers fail, short of a panic, Complete returns
-- a response: that of the provider that the primary name stands for, if it has a key and does not
-- fail; otherwise that of the secondary name, under the same conditions; otherwise the stub's.
pub complete_answers :
    (gemini claude : Provider) (payload : Str → Str) (primary secondary : Str)
    (req : CompletionRequest)
    → Returns gemini req
    → Returns claude req
    → (r : CompletionResponse) × (complete
          (new_orchestrator gemini claude payload primary secondary)
          req
        ≡ ok r)
      × (AnswersAs gemini claude req primary r
          ⊎ (Silent gemini claude req primary
              × (AnswersAs gemini claude req secondary r
                  ⊎ (Silent gemini claude req secondary × (r ≡ stub_response payload req)))))
unfolding complete new_orchestrator stub_provider Tried complete_from
complete_answers gemini claude payload primary secondary req g c =
    let stub = stub_provider payload ∷ [] in
    elim (name-Tried gemini claude req primary (if_available (by_name gemini claude secondary) stub)
      GoError.nil g c) [
        | inl (r, answers, h) ↦ (r, h, inl answers)
        | inr (silent, (e, h)) ↦ elim (name-Tried gemini claude req secondary stub e g c) [
          | inl (r, answers, k) ↦ (r, h ∙ k, inr (silent, inl answers))
          | inr (silent', (e', k)) ↦
              (stub_response payload req, h ∙ k, inr (silent, inr (silent', refl)))
        ]
      ]
