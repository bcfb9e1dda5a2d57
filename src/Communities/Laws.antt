-- ===== src/Communities/Laws.antt =====
-- The counters of the communities and the lists of the users agree with the documents of the members,
-- and how a change of one document keeps it so.
use image_app.Common.{
  ◌≤◌, ◌≡◌, refl, String, Bool, true, false, not, ◌&&◌, List, [], ◌∷◌, map, any, length,
  length-take, All, All-take, arith, str_eq, eq_iff, Bool-cases, inl, inr, if◌then◌else◌,
}
use image_app.Common.Counters.{counted-update, ℤ, pos}
use image_app.Common.Pairs.{has_pair, firsts, times, remove_pair}
use image_app.Communities.{
  Entry, User, Community, Member, Db, ids, delete_member, delete_members, delete_community,
  at_community, at_user, count_member, push_joined, pull_joined, without,
}

abbrev pub known : String → List Community → Bool
known i cs = any (λ c. str_eq c.id i) cs

-- The cached list of a user is short, and lists of the communities that exist only those that the
-- user is a member of.
pub record IsListed (cs : List Community) (ps : List (String × String)) (u : User) : Type 0 where
  pub entries :
      All
        (λ (e : Entry). known e.community cs ≡ true → has_pair e.community u.id ps ≡ true)
        u.joined
  pub short : length u.joined ≤ 10

abbrev pub IsCounted : List (String × String) → Community → Type 0
IsCounted ps c = c.member_count ≡ pos (firsts c.id ps)

pub record IsSound (db : Db) : Type 0 where
  pub counted : All (IsCounted (ids db.members)) db.communities
  pub once : (c u : String) → times c u (ids db.members) ≤ 1
  pub listed : All (IsListed db.communities (ids db.members)) db.users

pub ids-delete_member :
    (c u : String) (ms : List Member) → ids (delete_member c u ms) ≡ (remove_pair c u (ids ms)).1
unfolding remove_pair
ids-delete_member c u [] = refl
ids-delete_member c u (m ∷ ms) = ground (arith, ids-delete_member c u ms)

module _ (c : String) where
  pub firsts-delete_members :
      (q : String) (ms : List Member)
      → firsts q (ids (delete_members c ms)) ≡ (if str_eq c q then 0 else firsts q (ids ms))
  firsts-delete_members q [] = ground arith
  firsts-delete_members q (m ∷ ms) =
      ground (arith, firsts-delete_members q ms, eq_iff m.community c, eq_iff c q)

  pub times-delete_members :
      (q v : String) (ms : List Member) → times q v (ids (delete_members c ms)) ≤ times q v (ids ms)
  times-delete_members q v [] = omega arith
  times-delete_members q v (m ∷ ms) = ground (arith, times-delete_members q v ms)

  pub has-delete_members :
      (q v : String) (ms : List Member)
      → str_eq c q ≡ false
      → has_pair q v (ids (delete_members c ms)) ≡ has_pair q v (ids ms)
  unfolding has_pair
  has-delete_members q v [] h = refl
  has-delete_members q v (m ∷ ms) h =
      ground (arith, has-delete_members q v ms h, eq_iff m.community c, eq_iff m.community q)

  pub known-delete_community :
      (i : String) (cs : List Community)
      → known i (delete_community c cs) ≡ (known i cs && not (str_eq c i))
  known-delete_community i [] = refl
  known-delete_community i (x ∷ xs) =
      ground (arith, known-delete_community i xs, eq_iff x.id c, eq_iff c i, eq_iff x.id i)

  pub IsCounted-delete :
      (ms : List Member) (cs : List Community)
      → All (IsCounted (ids ms)) cs
      → All (IsCounted (ids (delete_members c ms))) (delete_community c cs)
  IsCounted-delete ms [] h = tt
  IsCounted-delete ms (x ∷ xs) h = ground (
    arith,
    IsCounted-delete ms xs h.1,
    firsts-delete_members x.id ms,
    eq_iff x.id c,
    eq_iff c x.id,
  )

-- A step of the counter of one community, when the numbers of members change in the same way.
pub IsCounted-update :
    (c : String) (step : ℤ → ℤ) (ps ps' : List (String × String)) (cs : List Community)
    → ((q : String)
        → (if str_eq q c then step (pos (firsts q ps)) else pos (firsts q ps)) ≡ pos (firsts q ps'))
    → All (IsCounted ps) cs
    → All (IsCounted ps') (map (at_community c (count_member step)) cs)
IsCounted-update c step ps ps' cs agree h =
    counted-update (λ x. x.id) (λ x. x.member_count) c step (count_member step) (λ q. firsts q ps)
      (λ q. firsts q ps') cs (λ x. refl) (λ x. refl) agree h

pub known-count :
    (i c : String) (step : ℤ → ℤ) (cs : List Community)
    → known i (map (at_community c (count_member step)) cs) ≡ known i cs
known-count i c step [] = refl
known-count i c step (x ∷ xs) = ground (arith, known-count i c step xs)

-- The lists of the users, when the communities and the members change from `cs`, `ps` to `cs'`, `ps'`.
module _ (cs cs' : List Community) (ps ps' : List (String × String)) where
  abbrev Kept : String → Entry → Type 0
  Kept u e =
      (known e.community cs ≡ true → has_pair e.community u ps ≡ true)
      → known e.community cs' ≡ true
      → has_pair e.community u ps' ≡ true

  Kept-entries :
      (u : String) (es : List Entry)
      → ((e : Entry) → Kept u e)
      → All (λ (e : Entry). known e.community cs ≡ true → has_pair e.community u ps ≡ true) es
      → All (λ (e : Entry). known e.community cs' ≡ true → has_pair e.community u ps' ≡ true) es
  Kept-entries u [] k h = tt
  Kept-entries u (e ∷ es) k h = (k e h.0, Kept-entries u es k h.1)

  pub kept-IsListed :
      (u : User) → ((e : Entry) → Kept u.id e) → IsListed cs ps u → IsListed cs' ps' u
  kept-IsListed u k h = record { entries = Kept-entries u.id u.joined k h.entries; short = h.short }

  pub pushed-IsListed :
      (u : User) (e : Entry)
      → ((e : Entry) → Kept u.id e)
      → has_pair e.community u.id ps' ≡ true
      → IsListed cs ps u
      → IsListed cs' ps' (push_joined e u)
  pushed-IsListed u e k new h = record {
    entries =
        All-take
          (λ (e : Entry). known e.community cs' ≡ true → has_pair e.community u.id ps' ≡ true) 10
          (e ∷ u.joined) (λ x. new, Kept-entries u.id u.joined k h.entries);
    short = omega (arith, length-take 10 (e ∷ u.joined));
  }

  pub pulled-entries :
      (u c : String) (es : List Entry)
      → ((e : Entry) → str_eq e.community c ≡ false → Kept u e)
      → All (λ (e : Entry). known e.community cs ≡ true → has_pair e.community u ps ≡ true) es
      → All
          (λ (e : Entry). known e.community cs' ≡ true → has_pair e.community u ps' ≡ true)
          (without c es)
        × (length (without c es) ≤ length es)
  pulled-entries u c [] k h = (tt, omega arith)
  pulled-entries u c (e ∷ es) k h =
      let rest = pulled-entries u c es k h.1 in
      elim (Bool-cases (str_eq e.community c)) [
        | inl same ↦ rw same (rest.0, omega (arith, rest.1))
        | inr other ↦ rw other ((k e other h.0, rest.0), omega (arith, rest.1))
      ]

  pub pulled-IsListed :
      (u : User) (c : String)
      → ((e : Entry) → str_eq e.community c ≡ false → Kept u.id e)
      → IsListed cs ps u
      → IsListed cs' ps' (pull_joined c u)
  pulled-IsListed u c k h =
      let es = pulled-entries u.id c u.joined k h.entries in
      record { entries = es.0; short = omega (arith, es.1, h.short) }

  pub listed-update :
      (i : String) (f : User → User) (us : List User)
      → ((u : User) → str_eq u.id i ≡ true → IsListed cs ps u → IsListed cs' ps' (f u))
      → ((u : User) → str_eq u.id i ≡ false → IsListed cs ps u → IsListed cs' ps' u)
      → All (IsListed cs ps) us
      → All (IsListed cs' ps') (map (at_user i f) us)
  listed-update i f [] self other h = tt
  listed-update i f (u ∷ us) self other h = (
    elim (Bool-cases (str_eq u.id i)) [
      | inl same ↦ rw same (self u same h.0)
      | inr apart ↦ rw apart (other u apart h.0)
    ],
    listed-update i f us self other h.1,
  )
