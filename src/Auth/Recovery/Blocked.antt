-- ===== src/Auth/Recovery/Blocked.antt =====
-- VerifyEmail, RequestPasswordReset, ResetPassword and AuthenticateOAuth, where a repository
-- method returns the nil pointer of `Wrap` as its error.
use gotra.Prelude.{
  ℕ, suc, ◌≡◌, refl, ◌≢◌, ◌∙◌, Str, Bool, true, false, none, some, List, arith, ltb, length,
  if◌then◌else◌, find, any, str_eq, lower, [], ◌∷◌, ◌==◌, ==_refl, Bool-cases, Option-cases, inl,
  inr,
}
use gotra.Errors.{Code, GoError, AppPtr, null, Sentinel, Outcome, ok, err, panic, wrap, new_error}
use gotra.Errors.Chain.{is_sentinel, is_not_found, code_of}
use gotra.Store.{User, OneTimeToken}
use gotra.Store.Action.{
  Env, World, M, raise, tx, statement, ◌>>=◌, ◌>>◌, continue, attempt, Attempt, begin, commit,
  random_bytes,
}
use gotra.Store.Action.Laws.{spent}
use gotra.Auth.Repository.{
  get_user_by_id, create_password_provider, get_user_by_email, Provider, provider_text,
  user_of_provider, get_user_by_provider,
}
use gotra.Auth.Sessions.{revoke_all_user_sessions}
use gotra.Auth.OneTime.{
  is_usable, consume_email_verification, set_user_email_verified, create_password_reset,
  consume_password_reset, upsert_password_hash,
}
use gotra.Auth.Tokens.{
  hash_new_password, hash_or_fail, ClientInfo, normalize_email, replace_not_found, token_hash,
  generate_opaque_token,
}
use gotra.Auth.Recovery.{
  OAuthProfile, verify_email, reset_for, request_password_reset, reset_password, authenticate_oauth,
  oauth_known,
}
use gotra.Auth.Service.Register.{by_email}

-- The error that a handler gets in place of nil.
abbrev pub nil_pointer : GoError
nil_pointer = GoError.holds null

-- The error of GetUserByEmail for an e-mail that no user has.
abbrev pub unknown_email : GoError
unknown_email = GoError.holds (
    AppPtr.app Code.invalid_input "Auth Repository: Get User By Email" "invalid credentials"
      GoError.nil)

-- A call that ended without a success and left the committed tables as they were.
unfoldable Blocked : {A : Type 0} → Outcome A × World → World → Type 0
Blocked {A} (r, w') w = ((x : A) → r ≢ ok x) × (w'.committed ≡ w.committed)

continue-Blocked :
    {A B : Type 0} (r : Outcome A) (f : A → M B) (w' w : World)
    → w'.committed ≡ w.committed
    → ((a : A) → Blocked (f a w') w')
    → Blocked (continue r f w') w
unfolding Blocked
continue-Blocked (ok a) f w' w kept rest = ((rest a).0, (rest a).1 ∙ kept)
continue-Blocked (err e) f w' w kept rest = ((λ x. ground arith), kept)
continue-Blocked panic f w' w kept rest = ((λ x. ground arith), kept)

bind-Blocked :
    {A B : Type 0} (m : M A) (f : A → M B) (w : World)
    → (m w).1.committed ≡ w.committed
    → ((a : A) (w' : World) → Blocked (f a w') w')
    → Blocked ((m >>= f) w) w
bind-Blocked m f w kept rest = continue-Blocked (m w).0 f (m w).1 w kept (λ a. rest a (m w).1)

guard-Blocked :
    {A : Type 0} (b : Bool) (e : GoError) (k : M A) (w : World)
    → Blocked (k w) w
    → Blocked ((if b then raise e else k) w) w
unfolding Blocked
guard-Blocked true e k w rest = ((λ x. ground arith), refl)
guard-Blocked false e k w rest = rest

found-any_id :
    (p : User → Bool) (us : List User) {u : User}
    → find p us ≡ some u
    → any (λ (x : User). x.id == u.id) us ≡ true
found-any_id p [] h = cc
found-any_id p (x ∷ us) {u} h = elim (Bool-cases (p x)) [
  | inl e ↦ let same : x ≡ u = cc (rw e at h) in rw⁻¹ same (ground (arith, ==_refl x.id))
  | inr e ↦ let later = found-any_id p us {u = u} (rw e at h) in ground (arith, later)
]

module _ (env : Env) where
  -- VerifyEmail never returns nil and leaves the committed tables as they were, whatever the token.
  pub verify_email-fails :
      (token : Str) (w : World)
      → ((x : Unit {0}) → (verify_email env token w).0 ≢ ok x)
        × ((verify_email env token w).1.committed ≡ w.committed)
  unfolding verify_email set_user_email_verified statement wrap begin consume_email_verification
      replace_not_found is_sentinel new_error
  verify_email-fails token w = ((λ x. ground arith), ground arith)

  -- RequestPasswordReset never returns a token and never sends a mail, whatever the e-mail.
  pub request_password_reset-fails :
      (email : Str) (w : World)
      → ((token : Str) → (request_password_reset env email w).0 ≢ ok token)
        × ((request_password_reset env email w).1.outbox ≡ w.outbox)
  unfolding request_password_reset reset_for get_user_by_email create_password_reset
      generate_opaque_token statement wrap new_error is_sentinel
  request_password_reset-fails email w = ((λ token. ground arith), ground arith)

  hash_new_password-keeps :
      (password : Str) (w : World) → (hash_new_password env password w).1.committed ≡ w.committed
  unfolding hash_new_password random_bytes hash_or_fail
  hash_new_password-keeps password w = ground arith

  begin-keeps : (w : World) → (begin env w).1.committed ≡ w.committed
  unfolding begin
  begin-keeps w = ground arith

  consume-keeps :
      (hash : Str) (w : World)
      → (attempt (consume_password_reset env tx hash) w).1.committed ≡ w.committed
  unfolding consume_password_reset statement
  consume-keeps hash w = ground arith

  replace-keeps :
      {A : Type 0} (s : Sentinel) (found : Attempt A) (w : World)
      → (replace_not_found s found w).1.committed ≡ w.committed
  unfolding replace_not_found is_sentinel
  replace-keeps s found w = ground arith

  get_user_by_id-keeps : (id : ℕ) (w : World) → (get_user_by_id env id w).1.committed ≡ w.committed
  unfolding get_user_by_id statement
  get_user_by_id-keeps id w = ground arith

  upsert-keeps :
      (id : ℕ) (email hash : Str) (w : World)
      → (upsert_password_hash env tx id email hash w).1.committed ≡ w.committed
  unfolding upsert_password_hash create_password_provider statement
  upsert-keeps id email hash w = ground arith

  revoke-Blocked :
      (id : ℕ) (w : World) → Blocked ((revoke_all_user_sessions env tx id >> commit env) w) w
  unfolding Blocked revoke_all_user_sessions statement wrap
  revoke-Blocked id w = ((λ x. ground arith), ground arith)

  -- ResetPassword never returns nil and leaves the committed tables as they were, whatever the
  -- token and the password.
  pub reset_password-fails :
      (token new_password : Str) (w : World)
      → ((x : Unit {0}) → (reset_password env token new_password w).0 ≢ ok x)
        × ((reset_password env token new_password w).1.committed ≡ w.committed)
  unfolding reset_password Blocked
  reset_password-fails token new_password w =
      guard-Blocked (ltb (length new_password) 8) (GoError.sentinel Sentinel.weak_password) _ w (
        bind-Blocked (hash_new_password env new_password) _ w
          (hash_new_password-keeps new_password w)
          λ hash w1. bind-Blocked (begin env) _ w1 (begin-keeps w1) λ x w2.
            bind-Blocked (attempt (consume_password_reset env tx (token_hash env token))) _ w2
              (consume-keeps (token_hash env token) w2)
              λ found w3.
                bind-Blocked (replace_not_found Sentinel.invalid_token found) _ w3
                  (replace-keeps Sentinel.invalid_token found w3)
                  λ user_id w4.
                    bind-Blocked (get_user_by_id env user_id) _ w4 (get_user_by_id-keeps user_id w4)
                      λ user w5.
                        bind-Blocked (upsert_password_hash env tx user_id user.email hash) _ w5
                          (upsert-keeps user_id user.email hash w5)
                          λ y w6. revoke-Blocked user_id w6)

module _ (env : Env) (fine : (n : ℕ) → env.fault n ≡ none) where
  -- Where every statement runs, VerifyEmail with a usable token has a nil pointer as its error, on
  -- which `errors.Is` of the handler panics.
  pub verify_email-nil_pointer :
      (token : Str) (w : World) (t : OneTimeToken)
      → find (is_usable (token_hash env token) w.now) w.committed.verifications ≡ some t
      → ((verify_email env token w).0 ≡ err nil_pointer)
        × (is_sentinel nil_pointer Sentinel.email_taken ≡ panic)
  unfolding verify_email set_user_email_verified statement wrap begin consume_email_verification
      replace_not_found is_sentinel new_error
  verify_email-nil_pointer token w t found = (
    ground (arith, fine w.statements, fine (suc w.statements), fine (suc (suc w.statements))),
    refl,
  )

  -- Where every statement runs and tokens can be drawn, RequestPasswordReset tells a registered
  -- e-mail from another: it fails with a nil pointer for the one, after it has stored a token, and
  -- with an error of code InvalidInput for the other.
  pub request_password_reset-distinguishes :
      (email : Str) (w : World) (bs : List ℕ)
      → env.random w.draws 32 ≡ some bs
      → ((request_password_reset env email w).0
          ≡ err (elim (by_email (normalize_email email) w.committed.users) [
            | none ↦ unknown_email
            | some u ↦ nil_pointer
          ]))
        × (code_of unknown_email ≡ ok Code.invalid_input)
        × (code_of nil_pointer ≡ panic)
  unfolding request_password_reset reset_for get_user_by_email create_password_reset
      generate_opaque_token statement wrap new_error is_sentinel code_of
  request_password_reset-distinguishes email w bs drawn = (
    elim (Option-cases (by_email (normalize_email email) w.committed.users)) [
      | inl e ↦ ground (arith, e, fine w.statements, fine (suc w.statements))
      | inr (u, e) ↦ ground (
        arith,
        e,
        fine w.statements,
        fine (suc w.statements),
        found-any_id (λ (u : User). str_eq (lower u.email) (lower (normalize_email email)))
            w.committed.users e,
      )
    ],
    refl,
    refl,
  )

  -- Where the statement runs, AuthenticateOAuth panics for every identity that a user has linked.
  pub authenticate_oauth-panics :
      (provider : Provider) (profile : OAuthProfile) (client : ClientInfo) (w : World) (u : User)
      → user_of_provider
          (provider_text provider)
          profile.provider_user_id
          w.committed.users
          w.committed.providers
        ≡ some u
      → authenticate_oauth env provider profile client w ≡ (panic, spent w)
  unfolding authenticate_oauth get_user_by_provider statement oauth_known is_not_found wrap
  authenticate_oauth-panics provider profile client w u found = ground (arith, fine w.statements)
