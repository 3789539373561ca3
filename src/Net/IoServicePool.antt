-- ===== src/Net/IoServicePool.antt =====
-- `io_service_pool.cpp`: the choice of the io_service for a new connection. The services are known by
-- their numbers; running and stopping them is boost's.
pub mod Running
mod Tests
use native.Mathlib.Nat.{div-add-mod, mod_self, mod-eq_of_lt, add-mul-mod_self_left}
use my_warehouse.Common.{
  ◌⊎◌, ◌*◌, ◌/◌, ap, ◌∙◌, sym, ℕ, zero, suc, ◌+◌, ◌%◌, ◌<◌, ◌≡◌, Option, none, some, List, [], ◌∷◌,
  ◌==◌, if◌then◌else◌, arith, refl, Bool-cases, inl, inr,
}

-- `io_services_.size()` and `next_io_service_`.
pub record IoServicePool : Type 0 where
  pub size : ℕ
  pub next_io_service : ℕ

-- The constructor, which throws for a pool of no service.
unfoldable pub io_service_pool : ℕ → Option IoServicePool
io_service_pool pool_size =
    if pool_size == 0 then none else some (record { size = pool_size; next_io_service = 0 })

-- `get_io_service`: the service, and the pool after the call.
unfoldable pub get_io_service : IoServicePool → ℕ × IoServicePool
get_io_service pool =
    let next = pool.next_io_service + 1 in
    (pool.next_io_service, record pool { next_io_service = if next == pool.size then 0 else next })

-- The services of `n` calls in turn.
unfoldable pub get_io_services : ℕ → IoServicePool → List ℕ
get_io_services zero pool = []
get_io_services (suc n) pool = let r = get_io_service pool in r.0 ∷ get_io_services n r.1

-- The numbers `k`, `k + 1`, …, `k + n - 1`, each modulo the size.
unfoldable pub in_turn : ℕ → ℕ → ℕ → List ℕ
in_turn size k zero = []
in_turn size k (suc n) = (k % size) ∷ in_turn size (k + 1) n

wrap :
    (k size next : ℕ)
    → next ≡ k % size
    → next < size
    → (if next + 1 == size then 0 else next + 1) ≡ (k + 1) % size
wrap k size next e h =
    let whole : (k + 1) ≡ (next + 1) + size * (k / size) = omega (arith, div-add-mod k size) in
    let small : (k + 1) % size ≡ (next + 1) % size =
      ap (λ x. x % size) whole ∙ add-mul-mod_self_left (next + 1) size (k / size) in
    elim (Bool-cases (next + 1 == size)) [
      | inl t ↦
          rw (t, small)
            (let q : (next + 1) ≡ size = ground arith in sym (ap (λ x. x % size) q ∙ mod_self size))
      | inr t ↦ rw (t, small) (let q : next + 1 < size = ground arith in sym (mod-eq_of_lt q))
    ]

get_io_services-from :
    (n k : ℕ) (pool : IoServicePool)
    → pool.next_io_service ≡ k % pool.size
    → pool.next_io_service < pool.size
    → get_io_services n pool ≡ in_turn pool.size k n
unfolding get_io_services get_io_service in_turn
get_io_services-from zero k pool e h = refl
get_io_services-from (suc n) k pool e h =
    let next = pool.next_io_service in
    let rest =
      get_io_services-from n (k + 1)
        (record pool { next_io_service = if next + 1 == pool.size then 0 else next + 1 })
        (wrap k pool.size next e h) (ground arith) in
    let both : (a b : ℕ) (xs ys : List ℕ) → a ≡ b → xs ≡ ys → (a ∷ xs) ≡ (b ∷ ys) =
      (λ a b xs ys p q. cc) in
    both _ _ _ _ e rest

-- The constructor throws for no service; with `size` services the calls give them in turn, starting at
-- the first: call `i` gives service `i % size`.
pub get_io_services-in_turn :
    (size n : ℕ)
    → (io_service_pool size ≡ none) × (size ≡ 0)
      ⊎ ((pool : IoServicePool) × (io_service_pool size ≡ some pool)
          × (get_io_services n pool ≡ in_turn size 0 n))
unfolding io_service_pool
get_io_services-in_turn size n = elim (Bool-cases (size == 0)) [
  | inl t ↦ inl (rw t refl, ground arith)
  | inr t ↦ inr (
    record { size = size; next_io_service = 0 },
    rw t refl,
    get_io_services-from n 0 _ (omega arith) (ground arith),
  )
]
