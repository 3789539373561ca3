-- ===== src/Net/Server/Run.antt =====
-- `http_server::run` of `http_server.cpp`: the threads that it makes and those that it joins. Each thread
-- runs `io_service_.run()`, which is boost's: whether the call of a thread has returned by now is a
-- parameter. A thread is known by whether it is joinable.
use my_warehouse.Common.{
  ℕ, zero, suc, ◌+◌, ◌<◌, ◌≡◌, refl, arith, Bool, true, false, List, [], ◌∷◌, if◌then◌else◌,
}

-- Where the function stands, or how it ended: `waits` for a thread, `past_end` at an element that the
-- vector has not, and `terminated` by the destructor of a thread that is joinable.
pub data RunEnd : Type 0 where
  done : RunEnd
  waits : ℕ → RunEnd
  past_end : RunEnd
  terminated : RunEnd

-- The first loop.
unfoldable pub make_threads : ℕ → List Bool
make_threads zero = []
make_threads (suc n) = true ∷ make_threads n

-- The destructor of the vector.
unfoldable pub destroy_threads : List Bool → RunEnd
destroy_threads [] = done
destroy_threads (t ∷ ts) = let rest = destroy_threads ts in if t then terminated else rest

-- Whether the vector has an element `i`, and the vector after that thread is joined.
unfoldable pub has_thread : ℕ → List Bool → Bool
has_thread i [] = false
has_thread zero (t ∷ ts) = true
has_thread (suc i) (t ∷ ts) = has_thread i ts

unfoldable pub set_joined : ℕ → List Bool → List Bool
set_joined i [] = []
set_joined zero (t ∷ ts) = false ∷ ts
set_joined (suc i) (t ∷ ts) = t ∷ set_joined i ts

module _ (returned : ℕ → Bool) where
  -- The second loop, from `i`, for `n` rounds: `threads[i]->join()` waits until the thread has returned.
  unfoldable pub join_threads : ℕ → ℕ → List Bool → RunEnd
  join_threads i zero ts = destroy_threads ts
  join_threads i (suc n) ts =
      let rest = join_threads (i + 1) n (set_joined i ts) in
      if has_thread i ts then if returned i then rest else waits i else past_end

  -- `run`, for the value of `get_nprocs()`.
  unfoldable pub run_server : ℕ → RunEnd
  run_server nprocs = join_threads 0 2 (make_threads nprocs)

  -- `run`, by the number of processors and by the threads that have returned: it waits for the first
  -- thread, if there is one, and then for the second. Once both have returned, `run` returns where these
  -- are all the threads, and the program is terminated where there are more; where there is no first or
  -- no second thread, it reads past the end of `threads`.
  pub run_server-ends :
      (nprocs : ℕ)
      → (nprocs ≡ 0 → run_server nprocs ≡ past_end)
        × (0 < nprocs → returned 0 ≡ false → run_server nprocs ≡ waits 0)
        × (nprocs ≡ 1 → returned 0 ≡ true → run_server nprocs ≡ past_end)
        × (1 < nprocs → returned 0 ≡ true → returned 1 ≡ false → run_server nprocs ≡ waits 1)
        × (nprocs ≡ 2 → returned 0 ≡ true → returned 1 ≡ true → run_server nprocs ≡ done)
        × (2 < nprocs → returned 0 ≡ true → returned 1 ≡ true → run_server nprocs ≡ terminated)
  unfolding run_server join_threads has_thread set_joined make_threads destroy_threads
  run_server-ends zero = (
    λ _. refl,
    λ h. absurd (omega arith),
    λ e. absurd (omega arith),
    λ h. absurd (omega arith),
    λ e. absurd (omega arith),
    λ h. absurd (omega arith),
  )
  run_server-ends (suc zero) = (
    λ e. absurd (omega arith),
    λ h a. rw a refl,
    λ e a. rw a refl,
    λ h. absurd (omega arith),
    λ e. absurd (omega arith),
    λ h. absurd (omega arith),
  )
  run_server-ends (suc (suc zero)) = (
    λ e. absurd (omega arith),
    λ h a. rw a refl,
    λ e. absurd (omega arith),
    λ h a b. rw (a, b) refl,
    λ e a b. rw (a, b) refl,
    λ h. absurd (omega arith),
  )
  run_server-ends (suc (suc (suc n))) = (
    λ e. absurd (omega arith),
    λ h a. rw a refl,
    λ e. absurd (omega arith),
    λ h a b. rw (a, b) refl,
    λ e. absurd (omega arith),
    λ h a b. rw (a, b) refl,
  )
