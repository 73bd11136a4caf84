-- ===== src/Web/Laws.antt =====
-- A handler that answers with a success has called its service, and the service has returned.
use gotra.Prelude.{
  ℕ, ◌≡◌, refl, ap, String, Bool, true, false, if◌then◌else◌, arith, Option, none, some,
}
use gotra.Errors.{GoError, Outcome, ok, err, panic}
use gotra.Store.Action.{World, M, Attempt, got, failed, attempted, continue}
use gotra.Errors.{Sentinel}
use gotra.Errors.Chain.{is_sentinel}
use gotra.Errors.Sequence.{◌>>=◌}
use gotra.Httpx.{Reply, map_error}
use gotra.Web.{
  refusal, Text, when_is, mapped_error, of_reply, Answer, success, conclude, concluded, with_id,
  with_body,
}

abbrev pub NoSuccess : {B : Type 0} → Outcome (Answer B) → Type 0
NoSuccess {B} o = (status : ℕ) (b : B) → o ≡ ok (success status b) → ⊥

-- The handler of errors answers with no success.
abbrev pub Refuses : {B : Type 0} → (GoError → Outcome (Answer B)) → Type 0
Refuses write_error = (e : GoError) → NoSuccess (write_error e)

pub refusal-NoSuccess :
    {B : Type 0} (status : ℕ) (text : Text) → NoSuccess {B = B} (ok (refusal status text))
refusal-NoSuccess status text s b h = ground arith

refused-NoSuccess :
    {B : Type 0} (found : Outcome Bool) (status : ℕ) (text : Text) (rest : Outcome (Answer B))
    → NoSuccess rest
    → NoSuccess (found >>= λ b. if b then ok (refusal status text) else rest)
refused-NoSuccess (ok true) status text rest never = refusal-NoSuccess status text
refused-NoSuccess (ok false) status text rest never = never
refused-NoSuccess (err e) status text rest never = λ s b h. ground arith
refused-NoSuccess panic status text rest never = λ s b h. ground arith

-- One more case of the switch over the sentinels.
pub when_is-NoSuccess :
    {B : Type 0} (e : GoError) (target : Sentinel) (status : ℕ) (text : Text)
    (rest : Outcome (Answer B))
    → NoSuccess rest
    → NoSuccess (when_is e target (refusal status text) rest)
when_is-NoSuccess e target status text rest =
    refused-NoSuccess (is_sentinel e target) status text rest

pub mapped_error-Refuses : {B : Type 0} → Refuses {B = B} mapped_error
unfolding mapped_error
mapped_error-Refuses e = relayed-NoSuccess (map_error e)
  where
    relayed-NoSuccess :
        {B : Type 0} (o : Outcome Reply) → NoSuccess {B = B} (o >>= λ r. ok (of_reply r))
    relayed-NoSuccess (ok r) s b h = ground arith
    relayed-NoSuccess (err e) s b h = ground arith
    relayed-NoSuccess panic s b h = ground arith

pair :
    {A : Type 0} {p : Outcome A × World} {r : Outcome A} {w : World}
    → p.0 ≡ r
    → p.1 ≡ w
    → p ≡ (r, w)
pair e k = cc

concluded_success :
    {A B : Type 0} (write_error : GoError → Outcome (Answer B)) (render : A → Answer B)
    (r : Outcome A) (w : World) {status : ℕ} {b : B} {w' : World}
    → Refuses write_error
    → continue (attempted r) (concluded write_error render) w ≡ (ok (success status b), w')
    → (a : A) × (r ≡ ok a) × (w ≡ w') × (render a ≡ success status b)
concluded_success write_error render (ok a) w refuses h = (a, refl, ground arith, ground arith)
concluded_success write_error render (err e) w {status} {b} refuses h =
    absurd (refuses e status b (ap (λ x. x.0) h))
concluded_success write_error render panic w refuses h = ground arith

pub conclude_success :
    {A B : Type 0} (write_error : GoError → Outcome (Answer B)) (render : A → Answer B) (call : M A)
    (w : World) {status : ℕ} {b : B} {w' : World}
    → Refuses write_error
    → conclude write_error render call w ≡ (ok (success status b), w')
    → (a : A) × (call w ≡ (ok a, w')) × (render a ≡ success status b)
conclude_success write_error render call w refuses h =
    let (a, e, same, k) = concluded_success write_error render (call w).0 (call w).1 refuses h in
    (a, pair e same, k)

pub with_id_success :
    {A : Type 0} (message : String) (id : Option ℕ) (handle : ℕ → M (Answer A)) (w : World)
    {status : ℕ} {b : A} {w' : World}
    → with_id message id handle w ≡ (ok (success status b), w')
    → (i : ℕ) × (id ≡ some i) × (handle i w ≡ (ok (success status b), w'))
with_id_success message none handle w h = cc
with_id_success message (some i) handle w h = (i, refl, h)

pub with_body_success :
    {A B : Type 0} (refuse : GoError → Answer B) (body : Attempt A) (handle : A → M (Answer B))
    (w : World) {status : ℕ} {b : B} {w' : World}
    → ((e : GoError) → refuse e ≡ success status b → ⊥)
    → with_body refuse body handle w ≡ (ok (success status b), w')
    → (a : A) × (body ≡ got a) × (handle a w ≡ (ok (success status b), w'))
with_body_success refuse (failed e) handle w {status} {b} never h =
    absurd (never e (let same : refuse e ≡ success status b = ground (arith, h) in same))
with_body_success refuse (got a) handle w never h = (a, refl, h)
