-- ===== src/Follows/Laws.antt =====
-- The counters and the lists of the users agree with the documents of the follows.
use image_app.Common.{
  ◌≤◌, ◌≡◌, refl, sym, ◌∙◌, String, Bool, true, false, ◌&&◌, ◌||◌, List, [], ◌∷◌, ◌++◌, map, All,
  arith, str_eq, eq_iff, Bool-cases, inl, inr, if◌then◌else◌,
}
use image_app.Common.Counters.{ℤ, pos, add_one, minus_one}
use image_app.Common.Pairs.{
  is_pair, has_pair, remove_pair, firsts, seconds, times, times-has, remove_pair-removes,
  firsts-remove_pair, seconds-remove_pair, times-remove_pair, has-remove_pair, has-cons,
}
use image_app.Follows.{User, Db, contains, add_to_set, pull, at_id}

-- What the document of a user says of the follows.
pub record IsUser (ps : List (String × String)) (u : User) : Type 0 where
  pub following_counted : u.following_count ≡ pos (firsts u.id ps)
  pub followers_counted : u.follower_count ≡ pos (seconds u.id ps)
  pub following_listed : (x : String) → contains x u.following ≡ has_pair u.id x ps
  pub followers_listed : (x : String) → contains x u.followers ≡ has_pair x u.id ps

pub record IsGraph (db : Db) : Type 0 where
  pub users : All (IsUser db.follows) db.users
  pub once : (i j : String) → times i j db.follows ≤ 1

contains-append :
    (x y : String) (xs : List String) → contains x (xs ++ y ∷ []) ≡ (contains x xs || str_eq y x)
contains-append x y [] = ground arith
contains-append x y (z ∷ zs) = ground (arith, contains-append x y zs)

contains-add_to_set :
    (x y : String) (xs : List String)
    → contains x (add_to_set y xs) ≡ (if str_eq y x then true else contains x xs)
contains-add_to_set x y xs = elim (Bool-cases (contains y xs)) [
  | inr new ↦ rw new (contains-append x y xs ∙ ground arith)
  | inl old ↦ elim (Bool-cases (str_eq y x)) [
    | inl same ↦ rw (old, same) (rw (sym ((eq_iff y x).0 same)) old)
    | inr other ↦ rw (old, other) refl
  ]
]

contains-pull :
    (x y : String) (xs : List String)
    → contains x (pull y xs) ≡ (if str_eq y x then false else contains x xs)
contains-pull x y [] = ground arith
contains-pull x y (z ∷ zs) =
    ground (arith, contains-pull x y zs, eq_iff z y, eq_iff z x, eq_iff y x)

has-removed :
    (i j a b : String) (ps : List (String × String))
    → has_pair i j ps ≡ true
    → ((p q : String) → times p q ps ≤ 1)
    → has_pair a b (remove_pair i j ps).1 ≡ (if is_pair a b (i, j) then false else has_pair a b ps)
has-removed i j a b ps h once = elim (Bool-cases (is_pair a b (i, j))) [
  | inl this ↦ rw this (
      times-has a b (remove_pair i j ps).1 (
        ground
          (arith, times-remove_pair i j a b ps (remove_pair-removes i j ps h), this, once a b)))
  | inr other ↦ rw other (has-remove_pair i j a b ps other)
]

-- A change of the follows by one document, and the four updates that go with it, on one user: `op`
-- changes the lists, `step` the counters, and `here` says whether the document is there afterwards.
module _ (step : ℤ → ℤ) (op : String → List String → List String) (here : Bool) (i j : String)
    (ps ps' : List (String × String)) where
  abbrev updated : User → User
  updated u =
      at_id j (λ u. record u { follower_count = step u.follower_count })
        (at_id i (λ u. record u { following_count = step u.following_count })
          (at_id j (λ u. record u { followers = op i u.followers })
            (at_id i (λ u. record u { following = op j u.following }) u)))

  pub record IsChange : Type 0 where
    pub apart : str_eq i j ≡ false
    pub at_first :
        (q : String)
        → (if str_eq q i then step (pos (firsts q ps)) else pos (firsts q ps)) ≡ pos (firsts q ps')
    pub at_second :
        (q : String)
        → (if str_eq q j then step (pos (seconds q ps)) else pos (seconds q ps))
          ≡ pos (seconds q ps')
    pub lists :
        (x y : String) (xs : List String)
        → contains x (op y xs) ≡ (if str_eq y x then here else contains x xs)
    pub pairs :
        (a b : String)
        → has_pair a b ps' ≡ (if str_eq i a && str_eq j b then here else has_pair a b ps)

  module _ (c : IsChange) (u : User) (v : IsUser ps u) where
    follower-IsUser : str_eq u.id i ≡ true → IsUser ps' (updated u)
    follower-IsUser is_i =
        let e = (eq_iff u.id i).0 is_i in
        let not_j : str_eq u.id j ≡ false = rw e c.apart in
        rw (is_i, not_j)
          (record {
            following_counted = ground (arith, c.at_first u.id, v.following_counted, is_i);
            followers_counted = ground (arith, c.at_second u.id, v.followers_counted, not_j);
            following_listed = λ x. ground (
              arith,
              c.lists x j u.following,
              c.pairs u.id x,
              v.following_listed x,
              e,
              eq_iff i u.id,
            );
            followers_listed = λ x.
                ground (
                  arith,
                  c.pairs x u.id,
                  v.followers_listed x,
                  not_j,
                  eq_iff j u.id,
                  eq_iff u.id j,
                );
          })

    followee-IsUser : str_eq u.id i ≡ false → str_eq u.id j ≡ true → IsUser ps' (updated u)
    followee-IsUser not_i is_j =
        let e = (eq_iff u.id j).0 is_j in
        rw (not_i, is_j)
          (record {
            following_counted = ground (arith, c.at_first u.id, v.following_counted, not_i);
            followers_counted = ground (arith, c.at_second u.id, v.followers_counted, is_j);
            following_listed = λ x.
                ground (
                  arith,
                  c.pairs u.id x,
                  v.following_listed x,
                  not_i,
                  eq_iff i u.id,
                  eq_iff u.id i,
                );
            followers_listed = λ x. ground (
              arith,
              c.lists x i u.followers,
              c.pairs x u.id,
              v.followers_listed x,
              e,
              eq_iff j u.id,
            );
          })

    other-IsUser : str_eq u.id i ≡ false → str_eq u.id j ≡ false → IsUser ps' (updated u)
    other-IsUser not_i not_j =
        rw (not_i, not_j)
          (record {
            following_counted = ground (arith, c.at_first u.id, v.following_counted, not_i);
            followers_counted = ground (arith, c.at_second u.id, v.followers_counted, not_j);
            following_listed = λ x.
                ground (
                  arith,
                  c.pairs u.id x,
                  v.following_listed x,
                  not_i,
                  eq_iff i u.id,
                  eq_iff u.id i,
                );
            followers_listed = λ x.
                ground (
                  arith,
                  c.pairs x u.id,
                  v.followers_listed x,
                  not_j,
                  eq_iff j u.id,
                  eq_iff u.id j,
                );
          })

    updated-IsUser : IsUser ps' (updated u)
    updated-IsUser = elim (Bool-cases (str_eq u.id i)) [
      | inl is_i ↦ follower-IsUser is_i
      | inr not_i ↦ elim (Bool-cases (str_eq u.id j)) [
        | inl is_j ↦ followee-IsUser not_i is_j
        | inr not_j ↦ other-IsUser not_i not_j
      ]
    ]

  pub updated-All :
      (us : List User)
      → IsChange
      → All (IsUser ps) us
      → All (IsUser ps') (
          map (at_id j (λ u. record u { follower_count = step u.follower_count })) (
            map (at_id i (λ u. record u { following_count = step u.following_count })) (
              map
                (at_id j (λ u. record u { followers = op i u.followers }))
                (map (at_id i (λ u. record u { following = op j u.following })) us))))
  updated-All [] c h = tt
  updated-All (u ∷ us) c h = (updated-IsUser c u h.0, updated-All us c h.1)

module _ (i j : String) (ps : List (String × String)) (apart : str_eq i j ≡ false) where
  pub follow-IsChange :
      has_pair i j ps ≡ false → IsChange add_one add_to_set true i j ps ((i, j) ∷ ps)
  follow-IsChange new = record {
    apart = apart;
    at_first = λ q. ground (arith, eq_iff q i, eq_iff i q);
    at_second = λ q. ground (arith, eq_iff q j, eq_iff j q);
    lists = contains-add_to_set;
    pairs = λ a b. ground (arith, has-cons a b i j ps);
  }

  pub unfollow-IsChange :
      has_pair i j ps ≡ true
      → ((p q : String) → times p q ps ≤ 1)
      → IsChange minus_one pull false i j ps (remove_pair i j ps).1
  unfollow-IsChange old once =
      let removed = remove_pair-removes i j ps old in
      record {
        apart = apart;
        at_first = λ q. ground (arith, firsts-remove_pair i j q ps removed, eq_iff q i, eq_iff i q);
        at_second =
            λ q. ground (arith, seconds-remove_pair i j q ps removed, eq_iff q j, eq_iff j q);
        lists = contains-pull;
        pairs = λ a b. has-removed i j a b ps old once;
      }
