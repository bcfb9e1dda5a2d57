-- ===== src/UnitOfWork/Retryable.antt =====
-- `isRetryableError` of backend/src/database/UnitOfWork.ts.
use image_app.Common.{
  String, Bool, true, false, Option, none, some, List, [], ◌∷◌, any, ◌==◌, ℕ, if◌then◌else◌, str_eq,
}
use image_app.Common.Text.{codes, lower, includes}
use image_app.Errors.{
  Thrown, string, primitive, Code, number, get_error_code, get_error_labels, get_error_message,
}

-- `labels.includes(label)`, false where there are no labels
abbrev has_label : Option (List String) → String → Bool
has_label none label = false
has_label (some labels) label = any (λ l. str_eq l label) labels

abbrev pub retryable_codes : List ℕ
retryable_codes = 112 ∷ 251 ∷ 11600 ∷ 11602 ∷ 189 ∷ 91 ∷ 10107 ∷ 13435 ∷ 13436 ∷ 64 ∷ []

abbrev has_code : Option Code → List ℕ → Bool
has_code (some (number n)) ns = any (λ m. n == m) ns
has_code _ ns = false

abbrev pub retryable_messages : List String
retryable_messages =
    "write conflict" ∷ "writeconflict" ∷ "transient transaction" ∷ "please retry"
    ∷ "transaction was aborted" ∷ "transaction number" ∷ "network error" ∷ "socket exception"
    ∷ "connection closed" ∷ "not primary" ∷ "node is recovering" ∷ []

-- `!error`: a falsy value is the empty string, or a primitive with one of these prints.
abbrev is_falsy : Thrown → Bool
is_falsy (string s) = str_eq s ""
is_falsy (primitive s) = any (str_eq s) ("undefined" ∷ "null" ∷ "false" ∷ "0" ∷ "NaN" ∷ [])
is_falsy _ = false

abbrev mentions : List String → String → Bool
mentions needles message = let m = lower (codes message) in any (λ n. includes m (codes n)) needles

unfoldable pub is_retryable_error : Thrown → Bool
unfolding get_error_code get_error_labels get_error_message
is_retryable_error error =
    if is_falsy error
    then false
    else if has_label (get_error_labels error) "TransientTransactionError"
    then true
    else if has_label (get_error_labels error) "UnknownTransactionCommitResult"
    then true
    else if has_code (get_error_code error) retryable_codes
    then true
    else mentions retryable_messages (get_error_message error)
