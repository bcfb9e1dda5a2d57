-- ===== src/UnitOfWork/Semaphore.antt =====
-- The class `Semaphore` of backend/src/database/UnitOfWork.ts, and the calls that share it.
use image_app.Common.{
  ℕ, zero, suc, ◌+◌, ◌-◌, ◌≤◌, ◌≡◌, refl, ◌⊎◌, inr, Bool, true, false, Option, none, some, List, [],
  ◌∷◌, ◌++◌, length, take, drop, length-append, arith, ltb, if◌then◌else◌,
}

-- `waiting` holds the callers whose promise is not resolved, the oldest first.
pub record Semaphore : Type 0 where
  pub permits : ℕ
  pub waiting : List ℕ

abbrev pub init : ℕ → Semaphore
init permits = record { permits = permits; waiting = [] }

-- `acquire` by the caller `c`: whether it returns at once.
unfoldable pub acquire : ℕ → Semaphore → Semaphore × Bool
acquire c s =
    if ltb 0 s.permits
    then (record s { permits = s.permits - 1 }, true)
    else (record s { waiting = s.waiting ++ c ∷ [] }, false)

release_to : List ℕ → Semaphore → Semaphore × Option ℕ
release_to [] s = (record s { permits = s.permits + 1 }, none)
release_to (next ∷ rest) s = (record s { waiting = rest }, some next)

-- `release`: the caller whose promise it resolves, if any waits.
unfoldable pub release : Semaphore → Semaphore × Option ℕ
unfolding release_to
release s = release_to s.waiting s

-- `availablePermits` and `queueLength`
abbrev pub available_permits : Semaphore → ℕ
available_permits s = s.permits

abbrev pub queue_length : Semaphore → ℕ
queue_length s = length s.waiting

-- The semaphore with the callers that hold a permit.
pub record System : Type 0 where
  pub semaphore : Semaphore
  pub holders : List ℕ

abbrev pub add_holder : Option ℕ → List ℕ → List ℕ
add_holder none hs = hs
add_holder (some c) hs = c ∷ hs

abbrev entered : ℕ → Semaphore × Bool → List ℕ → System
entered c (s, true) hs = record { semaphore = s; holders = c ∷ hs }
entered c (s, false) hs = record { semaphore = s; holders = hs }

abbrev left : Semaphore × Option ℕ → List ℕ → System
left (s, woken) hs = record { semaphore = s; holders = add_holder woken hs }

-- Any caller may acquire, and any holder may release; a woken caller holds its permit at once.
pub data Step (y : System) (z : System) : Type 0 where
  enter : (c : ℕ) → z ≡ entered c (acquire c y.semaphore) y.holders → Step y z
  leave :
      (before : List ℕ) (c : ℕ) (after : List ℕ)
      → y.holders ≡ before ++ c ∷ after
      → z ≡ left (release y.semaphore) (before ++ after)
      → Step y z

pub data Reach (y : System) : System → Type 0 where
  here : Reach y y
  next : {z w : System} → Reach y z → Step z w → Reach y w

abbrev pub start : ℕ → System
start permits = record { semaphore = init permits; holders = [] }

-- Permits and holders add up to the bound, and nobody waits while a permit is free.
pub record IsValid (bound : ℕ) (y : System) : Type 0 where
  pub sum : y.semaphore.permits + length y.holders ≡ bound
  pub busy : (y.semaphore.permits ≡ 0) ⊎ (y.semaphore.waiting ≡ [])

enter-IsValid :
    (bound c : ℕ) (y : System)
    → IsValid bound y
    → IsValid bound (entered c (acquire c y.semaphore) y.holders)
unfolding acquire
enter-IsValid bound c y v = ground arith

leave-IsValid :
    (bound : ℕ) (s : Semaphore) (before : List ℕ) (c : ℕ) (after : List ℕ)
    → IsValid bound (record { semaphore = s; holders = before ++ c ∷ after })
    → IsValid bound (left (release s) (before ++ after))
unfolding release
leave-IsValid bound s before c after v =
    ground (arith, length-append before (c ∷ after), length-append before after)

Step-IsValid : (bound : ℕ) {y z : System} → Step y z → IsValid bound y → IsValid bound z
Step-IsValid bound {y} (enter c e) v = rw e (enter-IsValid bound c y v)
Step-IsValid bound {y} (leave before c after h e) v =
    rw e (leave-IsValid bound y.semaphore before c after (ground arith))

Reach-IsValid : {bound : ℕ} {y z : System} → IsValid bound y → Reach y z → IsValid bound z
Reach-IsValid v here = v
Reach-IsValid {bound} v (next r st) = Step-IsValid bound st (Reach-IsValid v r)

-- However the calls interleave, at most `bound` of them hold a permit of a semaphore that was
-- created with `bound`, and when a call waits, exactly `bound` of them do.
pub Reach-bound :
    (bound : ℕ) (z : System)
    → Reach (start bound) z
    → (length z.holders ≤ bound) × ((z.semaphore.waiting ≡ []) ⊎ (length z.holders ≡ bound))
Reach-bound bound z r =
    let v = Reach-IsValid {bound = bound} (record { sum = omega arith; busy = inr refl }) r in
    ground (arith, v.sum, v.busy)

-- `n` releases in a row: the callers that they wake, in order.
pub release_times : ℕ → Semaphore → List ℕ × Semaphore
release_times zero s = ([], s)
release_times (suc n) s =
    let (s', woken) = release s in
    let (rest, s'') = release_times n s' in (add_holder woken rest, s'')

abbrev with_waiting : ℕ → List ℕ → Semaphore
with_waiting p ws = record { permits = p; waiting = ws }

abbrev fifo : ℕ → ℕ → List ℕ → List ℕ × Semaphore
fifo n p ws = (take n ws, record { permits = p + (n - length ws); waiting = drop n ws })

fifo-nil : (n p : ℕ) → fifo n p [] ≡ ([], with_waiting (p + n) [])
fifo-nil zero p = ground arith
fifo-nil (suc n) p = ground arith

release_times_at : (n p : ℕ) (ws : List ℕ) → release_times n (with_waiting p ws) ≡ fifo n p ws
unfolding release_times release
release_times_at zero p ws = ground arith
release_times_at (suc n) p [] =
    ground (arith, release_times_at n (p + 1) [], fifo-nil n (p + 1), fifo-nil (suc n) p)
release_times_at (suc n) p (w ∷ ws) = ground (arith, release_times_at n p ws)

-- Waiting callers are woken in the order in which they came, one for each release; a release adds
-- a permit only when nobody waits.
release_times_fifo :
    (n : ℕ) (s : Semaphore)
    → release_times n s ≡ (
      take n s.waiting,
      record { permits = s.permits + (n - length s.waiting); waiting = drop n s.waiting },
    )
release_times_fifo n s = release_times_at n s.permits s.waiting
