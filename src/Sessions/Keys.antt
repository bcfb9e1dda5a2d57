-- ===== src/Sessions/Keys.antt =====
-- The Redis keys of sessions and of the users' indexes never meet.
use Prim.Native.String.{◌++◌, [], ◌∷◌}
use mathlib.Core.List
use text.Mathlib.TextLemmas.{append_cancel_left, nil-append, cons-append}
use image_app.Common.{
  ◌≡◌, ◌≢◌, refl, ap, String, false, arith, str_eq, eq_iff, Bool-cases, inl, inr, sym, ◌∙◌,
}
use image_app.Common.Text.{codes}
use image_app.Sessions.Service.{session_key, user_sessions_key}

codes-append : (a b : String) → codes (a ++ b) ≡ List.◌++◌ (codes a) (codes b)
codes-append [] b = rw nil-append
codes-append (c ∷ a) b = rw cons-append (rw (codes-append a b))

user-ne-session : (p sid : String) → user_sessions_key p ≢ session_key sid
user-ne-session p sid h =
    let e = sym (codes-append "user:sessions:" p) ∙ (ap codes h ∙ codes-append "session:" sid) in
    ground (arith, e)

prefix_eq : (p a b : String) → str_eq (p ++ a) (p ++ b) ≡ str_eq a b
prefix_eq p a b = elim (Bool-cases (str_eq a b)) [
  | inl same ↦ rw same ((eq_iff _ _).1 (ap (λ s. p ++ s) ((eq_iff a b).0 same)))
  | inr other ↦ elim (Bool-cases (str_eq (p ++ a) (p ++ b))) [
    | inl s ↦ rw (s, other) (cc ((eq_iff a b).1 (append_cancel_left p a b ((eq_iff _ _).0 s))))
    | inr t ↦ rw (t, other) refl
  ]
]

pub session_key_eq : (a b : String) → str_eq (session_key a) (session_key b) ≡ str_eq a b
session_key_eq = prefix_eq "session:"

pub user_sessions_key_eq :
    (a b : String) → str_eq (user_sessions_key a) (user_sessions_key b) ≡ str_eq a b
user_sessions_key_eq = prefix_eq "user:sessions:"

pub user-session : (p sid : String) → str_eq (user_sessions_key p) (session_key sid) ≡ false
user-session p sid = elim (Bool-cases (str_eq (user_sessions_key p) (session_key sid))) [
  | inl s ↦ absurd (user-ne-session p sid ((eq_iff _ _).0 s))
  | inr t ↦ t
]

pub session-user : (sid p : String) → str_eq (session_key sid) (user_sessions_key p) ≡ false
session-user sid p = elim (Bool-cases (str_eq (session_key sid) (user_sessions_key p))) [
  | inl s ↦ absurd (user-ne-session p sid (sym ((eq_iff _ _).0 s)))
  | inr t ↦ t
]
