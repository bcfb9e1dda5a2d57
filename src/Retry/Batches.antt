-- ===== src/Retry/Batches.antt =====
-- What `executeAll` of the retry service promises.
use image_app.Common.{ℕ, ◌≤◌, ◌≡◌, ◌⊎◌, false, Option, none, some, List, ◌∷◌, ◌++◌, All}
use image_app.Errors.{Thrown, Result, ok, err}
use image_app.Retry.{RetryConfig, execute, Operation, fulfilled, rejected, results, execute_all}

module _ {A : Type 0} (cfg : RetryConfig) where
  abbrev IsValue : Result A → Type 0
  IsValue (ok a) = Unit
  IsValue (err e) = ⊥

  abbrev result_of : Operation A → Result A
  result_of op = (execute cfg op.script).result

  -- An operation that does not reject before the time `t`.
  abbrev IsAfter : ℕ → Operation A → Type 0
  IsAfter t op = IsValue (result_of op) ⊎ (t ≤ op.ends)

  -- The operation of a batch whose rejection is the first in time, if there is one.
  pub data First (ops : List (Operation A)) (first : Option (ℕ × Thrown)) : Type 0 where
    no_rejection : first ≡ none → All (λ op. IsValue (result_of op)) ops → First ops first
    rejection :
        (before : List (Operation A)) (op : Operation A) (after : List (Operation A))
        → ops ≡ before ++ op ∷ after
        → (e : Thrown) → result_of op ≡ err e
        → first ≡ some (op.ends, e)
        → All (IsAfter op.ends) ops
        → First ops first

  -- How a batch ends without `continueOnError`.
  pub data Settles (ops : List (Operation A)) : Type 0 where
    succeeds :
        execute_all cfg false ops ≡ fulfilled (results cfg ops)
        → All (λ op. IsValue (result_of op)) ops
        → Settles ops
    fails :
        (before : List (Operation A)) (op : Operation A) (after : List (Operation A))
        → ops ≡ before ++ op ∷ after
        → (e : Thrown) → result_of op ≡ err e
        → execute_all cfg false ops ≡ rejected e
        → All (IsAfter op.ends) ops
        → Settles ops
