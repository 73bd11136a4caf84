-- ===== src/Web.antt =====
-- What the HTTP handlers share: the answer that gin writes, the claims in its context, and the way
-- a handler turns the result of its service into an answer.

pub mod Access
pub mod Laws
mod Tests
use gotra.Prelude.{ℕ, Str, String, Bool, Option, none, some, List, if◌then◌else◌}
use gotra.Errors.{GoError, Sentinel, Outcome, ok}
use gotra.Errors.Sequence as Outcomes
use gotra.Errors.Chain.{is_sentinel}
use gotra.Httpx.{Reply, map_error}
use gotra.Store.Action.{M, pure, lift, ◌>>=◌, Attempt, got, failed, attempt}

-- security.Claims
pub record Claims : Type 0 where
  pub user_id : ℕ
  pub workspace_id : ℕ
  pub roles : List Str

-- The text under "error": a literal, or err.Error().
pub data Text : Type 0 where
  literal : String → Text
  error_text : GoError → Text

-- What a handler answers: a status with a value, or a status with a text under "error".
pub data Answer (A : Type 0) : Type 0 where
  success : ℕ → A → Answer A
  refusal : ℕ → Text → Answer A

-- The answer that httpx writes.
abbrev pub of_reply : {A : Type 0} → Reply → Answer A
of_reply r = refusal r.status (literal r.message)

-- httpx.MapError as the end of a handler.
unfoldable pub mapped_error : {A : Type 0} → GoError → Outcome (Answer A)
mapped_error e = Outcomes.◌>>=◌ (map_error e) (λ r. ok (of_reply r))

-- currentUserID
unfoldable pub current_user_id : Option Claims → ℕ
current_user_id none = 0
current_user_id (some claims) = claims.user_id

-- `case errors.Is(err, target):` of a switch, with the cases after it.
abbrev pub when_is : {A : Type 0} → GoError → Sentinel → A → Outcome A → Outcome A
when_is e target answer rest =
    Outcomes.◌>>=◌ (is_sentinel e target) (λ found. if found then ok answer else rest)

abbrev pub concluded :
    {A B : Type 0} → (GoError → Outcome (Answer B)) → (A → Answer B) → Attempt A → M (Answer B)
concluded write_error render (got a) = pure (render a)
concluded write_error render (failed e) = lift (write_error e)

-- `x, err := call; if err != nil { writeError(c, err); return }` and the answer from `x`.
abbrev pub conclude :
    {A B : Type 0} → (GoError → Outcome (Answer B)) → (A → Answer B) → M A → M (Answer B)
conclude write_error render call = do r ← attempt call; concluded write_error render r

-- A handler that needs an identifier: `id, err := uuid.Parse(text)`.
abbrev pub with_id : {A : Type 0} → String → Option ℕ → (ℕ → M (Answer A)) → M (Answer A)
with_id message none handle = pure (refusal 400 (literal message))
with_id message (some id) handle = handle id

-- A handler that needs a body: `c.ShouldBindJSON(&req)`, where a failure is answered by `refuse`.
abbrev pub with_body :
    {A B : Type 0} → (GoError → Answer B) → Attempt A → (A → M (Answer B)) → M (Answer B)
with_body refuse (failed e) handle = pure (refuse e)
with_body refuse (got a) handle = handle a

-- gin.H{"error": err.Error()} with status 400
abbrev pub bad_request : {A : Type 0} → GoError → Answer A
bad_request e = refusal 400 (error_text e)
