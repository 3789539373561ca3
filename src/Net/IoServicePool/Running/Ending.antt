-- ===== src/Net/IoServicePool/Running/Ending.antt =====
-- The threads of `io_service_pool.cpp` and of its server come to their end: no step is held up for ever.
use my_warehouse.Common.{
  some-inj, if-none, if-some, if-either, ℕ, ◌+◌, ◌-◌, ◌*◌, ◌≤◌, ◌<◌, ◌≡◌, ◌⊎◌, inl, inr, refl,
  subst, arith, Bool, true, false, Bool-cases, Option, none, some, ltb, if◌then◌else◌,
}
use my_warehouse.Net.IoServicePool.{IoServicePool}
use my_warehouse.Net.IoServicePool.Running.{
  RunAt, entering, starting, ready, joining, returned, MainAt, calling, waits, woken, serving,
  stopping, joins, gone, Running, notify_init, run_at, test_init, has_returned, main_at, Works,
  runs, goes_on, Reached,
}
use my_warehouse.Net.IoServicePool.Running.Places.{RunFits, MainFits}
use my_warehouse.Net.IoServicePool.Running.Starting.{Reached-IsRunning}

-- The steps that are left, at most.
unfoldable pub run_left : RunAt → ℕ → ℕ
run_left entering size = 2 * size + 5
run_left (starting i) size = (size - i) + size + 4
run_left ready size = size + 2
run_left (joining i) size = (size - i) + 1
run_left returned size = 0

unfoldable pub main_left : MainAt → ℕ → ℕ
main_left calling size = size + 5
main_left waits size = size + 4
main_left woken size = size + 5
main_left serving size = size + 3
main_left (stopping i) size = (size - i) + 2
main_left joins size = 1
main_left gone size = 0

unfoldable pub steps_left : Running → ℕ
steps_left s = run_left s.run s.size + main_left s.main s.size

notify-main_left : (p : MainAt) (size : ℕ) → main_left (notify_init p) size ≤ main_left p size + 1
unfolding main_left notify_init
notify-main_left calling size = omega arith
notify-main_left waits size = omega arith
notify-main_left woken size = omega arith
notify-main_left serving size = omega arith
notify-main_left (stopping i) size = omega arith
notify-main_left joins size = omega arith
notify-main_left gone size = omega arith

abbrev Less : Running → Running → Type 0
Less s s' = steps_left s' < steps_left s

run_at-Less : (p : RunAt) (s s' : Running) → s.run ≡ p → run_at p s ≡ some s' → Less s s'
unfolding run_at steps_left run_left
run_at-Less entering s s' at e =
    let (free, q) = if-none s.locked _ s' e in subst (Less s) q (rw at (omega arith))
run_at-Less (starting k) s s' at e = elim (if-either (ltb k s.size) _ _ s' e) [
  | inl (t, o) ↦ subst (Less s) (some-inj _ s' o) (rw at (ground arith))
  | inr (t, q) ↦ subst (Less s) q (rw at (ground (arith, notify-main_left s.main s.size)))
]
run_at-Less ready s s' at e = subst (Less s) (some-inj _ s' e) (rw at (omega arith))
run_at-Less (joining k) s s' at e = elim (if-either (ltb k s.size) _ _ s' e) [
  | inl (t, o) ↦
      let (w, q) = if-some (ltb k s.stopped) _ s' o in subst (Less s) q (rw at (ground arith))
  | inr (t, q) ↦ subst (Less s) q (rw at (omega arith))
]
run_at-Less returned s s' at e = absurd (cc)

tested-main_left : (b : Bool) (size : ℕ) → main_left (if b then serving else waits) size < size + 5
unfolding main_left
tested-main_left true size = omega arith
tested-main_left false size = omega arith

main_at-Less : (p : MainAt) (s s' : Running) → s.main ≡ p → main_at p s ≡ some s' → Less s s'
unfolding main_at test_init steps_left main_left
main_at-Less calling s s' at e =
    let (free, q) = if-none s.locked _ s' e in
    subst (Less s) q (rw at (omega (arith, tested-main_left s.is_init s.size)))
main_at-Less waits s s' at e = absurd (cc)
main_at-Less woken s s' at e =
    let (free, q) = if-none s.locked _ s' e in
    subst (Less s) q (rw at (omega (arith, tested-main_left s.is_init s.size)))
main_at-Less serving s s' at e = subst (Less s) (some-inj _ s' e) (rw at (omega arith))
main_at-Less (stopping k) s s' at e = elim (if-either (ltb k s.size) _ _ s' e) [
  | inl (t, o) ↦ subst (Less s) (some-inj _ s' o) (rw at (ground arith))
  | inr (t, q) ↦ subst (Less s) q (rw at (omega arith))
]
main_at-Less joins s s' at e =
    let (r, q) = if-some (has_returned s.run) _ s' e in subst (Less s) q (rw at (omega arith))
main_at-Less gone s s' at e = absurd (cc)

Works-Less : (s s' : Running) → Works s s' → Less s s'
Works-Less s s' (runs e) = run_at-Less s.run s s' refl e
Works-Less s s' (goes_on e) = main_at-Less s.main s s' refl e

abbrev Moves : Option Running → Type 0
Moves o = (s' : Running) × (o ≡ some s')

if-Moves : (b : Bool) (x y : Running) → Moves (if b then some x else some y)
if-Moves true x y = (x, refl)
if-Moves false x y = (y, refl)

entering-Moves : (b : Bool) (x : Running) → b ≡ false → Moves (if b then none else some x)
entering-Moves true x e = absurd (cc)
entering-Moves false x e = (x, refl)

joins-Moves : (b : Bool) (x : Running) → b ≡ true → Moves (if b then some x else none)
joins-Moves true x e = (x, refl)
joins-Moves false x e = absurd (cc)

-- `run` goes on where the services are stopped, where it holds the lock, and before it is ready.
run_at-Moves :
    (p : RunAt) (s : Running)
    → RunFits p s.locked s.is_init s.size s.started s.stopped
    → ((s.stopped ≡ s.size) × (has_returned p ≡ false)) ⊎ ((s.locked ≡ true) ⊎ (s.is_init ≡ false))
    → Moves (run_at p s)
unfolding run_at RunFits has_returned
run_at-Moves entering s (l, i, st) h = entering-Moves s.locked _ l
run_at-Moves (starting k) s f h = if-Moves (ltb k s.size) _ _
run_at-Moves ready s f h = (_, refl)
run_at-Moves (joining k) s (l, i, st, b) (inl (z, _)) =
    joining-Moves (ltb k s.size) (ltb k s.stopped) _ _ (ground arith)
  where
    joining-Moves :
        (b c : Bool) (x y : Running)
        → (b ≡ true → c ≡ true)
        → Moves (if b then if c then some x else none else some y)
    joining-Moves true c x y h = joins-Moves c x (h refl)
    joining-Moves false c x y h = (y, refl)
run_at-Moves (joining k) s (l, i, st, b) (inr (inl t)) = absurd (cc)
run_at-Moves (joining k) s (l, i, st, b) (inr (inr t)) = absurd (cc)
run_at-Moves returned s (l, i, st, b) (inl (_, t)) = absurd (cc)
run_at-Moves returned s (l, i, st, b) (inr (inl t)) = absurd (cc)
run_at-Moves returned s (l, i, st, b) (inr (inr t)) = absurd (cc)

-- One of the two threads goes on, or both have ended.
Goes : RunAt → MainAt → Running → Type 0
Goes p q s = Moves (run_at p s) ⊎ Moves (main_at q s) ⊎ ((q ≡ gone) × (has_returned p ≡ true))

tested-Goes :
    (p : RunAt) (s : Running)
    → RunFits p s.locked s.is_init s.size s.started s.stopped
    → Moves (run_at p s) ⊎ Moves (test_init s)
unfolding test_init
tested-Goes p s f = elim (Bool-cases s.locked) [
  | inl t ↦ inl (run_at-Moves p s f (inr (inl t)))
  | inr t ↦ inr (entering-Moves s.locked _ t)
]

Places-Goes :
    (q : MainAt) (s : Running)
    → RunFits s.run s.locked s.is_init s.size s.started s.stopped
    → MainFits q s.is_init (has_returned s.run) s.size s.stopped
    → Goes s.run q s
unfolding main_at MainFits Goes
Places-Goes calling s f g = elim (tested-Goes s.run s f) [ inl m ↦ inl m | inr m ↦ inr (inl m) ]
Places-Goes waits s f (_, i) = inl (run_at-Moves s.run s f (inr (inr i)))
Places-Goes woken s f g = elim (tested-Goes s.run s f) [ inl m ↦ inl m | inr m ↦ inr (inl m) ]
Places-Goes serving s f g = inr (inl (_, refl))
Places-Goes (stopping k) s f g = inr (inl (if-Moves (ltb k s.size) _ _))
Places-Goes joins s f (z, i) = elim (Bool-cases (has_returned s.run)) [
  | inl t ↦ inr (inl (joins-Moves (has_returned s.run) _ t))
  | inr t ↦ inl (run_at-Moves s.run s f (inl (z, t)))
]
Places-Goes gone s f (z, i, r) = inr (inr (refl, r))

-- In every state that is reached, one of the two threads can go on, or the destructor of the server has
-- ended and `run` has returned; and each step of one of the two, other than a wake-up without a
-- notification, leaves fewer steps to go.
pub run-Ends :
    (pool : IoServicePool) (s : Running)
    → Reached pool s
    → (((s' : Running) × Works s s') ⊎ ((s.main ≡ gone) × (has_returned s.run ≡ true)))
      × ((s' : Running) → Works s s' → steps_left s' < steps_left s)
unfolding Goes
run-Ends pool s r =
    let inv = Reached-IsRunning pool s r in
    (
      elim (Places-Goes s.main s inv.run_fits inv.main_fits) [
        | inl (s', e) ↦ inl (s', runs e)
        | inr (inl (s', e)) ↦ inl (s', goes_on e)
        | inr (inr e) ↦ inr e
      ],
      λ s' w. Works-Less s s' w,
    )
