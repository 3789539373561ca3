-- ===== src/Game/Manager/Threads/Tests.antt =====
-- Two logins of the same user at the same time, on a client that can be made.
use my_warehouse.Common.{ℕ, ◌+◌, ◌<◌, ◌≡◌, ◌⊎◌, refl, some, List, [], ◌∷◌, count}
use my_warehouse.Game.Manager.{Clients, find, insert, find_client_use_id}
use my_warehouse.Game.Manager.Threads.{
  erases, Call, login_finds, ended, login_found, login_new, login_inserted, go, Manager,
  empty_manager, step_call, begins, goes, Steps, stay, then_step, is_begin,
}
use my_warehouse.Game.Manager.Threads.Resolve.{resolve}
use my_warehouse.Game.Json.{succeeded, unknown_error}
use my_warehouse.Game.Client.{ClientInterface}
use my_warehouse.Game.Tests.{small_json}
use my_warehouse.Game.Manager.Threads.Once.{user-Stays}

abbrev numbered : ClientInterface small_json
numbered = record {
  Client = ℕ;
  client_new = 0;
  init_user_info = λ roll id c. some (succeeded, id);
  do_some = λ c root respons. some (succeeded, c + 1, respons);
  get_session_data = λ c respons. some respons;
}

abbrev two_calls : Manager small_json numbered
two_calls = record (empty_manager small_json numbered) {
  calls = login_finds 5 7 ∷ login_finds 6 7 ∷ [];
}

-- A step of the first and of the second of two calls.
abbrev first_of :
    List (Call small_json numbered) → Manager small_json numbered → Manager small_json numbered
first_of [] t = t
first_of (c ∷ cs) t = step_call small_json numbered [] c cs t

abbrev second_of :
    List (Call small_json numbered) → Manager small_json numbered → Manager small_json numbered
second_of [] t = t
second_of (c ∷ []) t = t
second_of (c ∷ d ∷ ds) t = step_call small_json numbered (c ∷ []) d ds t

abbrev first : Manager small_json numbered → Manager small_json numbered
first t = first_of t.calls t

abbrev second : Manager small_json numbered → Manager small_json numbered
second t = second_of t.calls t

abbrev nobody : Manager small_json numbered
nobody = empty_manager small_json numbered

first_of-Steps :
    (cs : List (Call small_json numbered)) (t : Manager small_json numbered)
    → t.calls ≡ cs
    → Steps small_json numbered nobody t
    → Steps small_json numbered nobody (first_of cs t)
first_of-Steps [] t e r = r
first_of-Steps (c ∷ cs) t e r = then_step r (goes [] c cs e)

second_of-Steps :
    (cs : List (Call small_json numbered)) (t : Manager small_json numbered)
    → t.calls ≡ cs
    → Steps small_json numbered nobody t
    → Steps small_json numbered nobody (second_of cs t)
second_of-Steps [] t e r = r
second_of-Steps (c ∷ []) t e r = r
second_of-Steps (c ∷ d ∷ ds) t e r = then_step r (goes (c ∷ []) d ds e)

first-Steps :
    (t : Manager small_json numbered)
    → Steps small_json numbered nobody t
    → Steps small_json numbered nobody (first t)
first-Steps t r = first_of-Steps t.calls t refl r

second-Steps :
    (t : Manager small_json numbered)
    → Steps small_json numbered nobody t
    → Steps small_json numbered nobody (second t)
second-Steps t r = second_of-Steps t.calls t refl r

two_calls-Steps : Steps small_json numbered nobody two_calls
unfolding is_begin
two_calls-Steps =
    then_step (then_step stay (begins (login_finds 6 7) refl)) (begins (login_finds 5 7) refl)

-- Both calls have searched for the user, and then both insert.
abbrev before_insert : Manager small_json numbered
before_insert = second (second (second (first (first (first two_calls)))))

abbrev both_ended : Manager small_json numbered
both_ended = second (first before_insert)

both_ended-calls : both_ended.calls ≡ ended succeeded (some 0) ∷ ended unknown_error (some 1) ∷ []
unfolding step_call go login_found find_client_use_id find login_new login_inserted insert
both_ended-calls = refl

before_insert-Steps : Steps small_json numbered nobody before_insert
before_insert-Steps = second-Steps _ (
    second-Steps _ (second-Steps _ (first-Steps _ (first-Steps _ (first-Steps _ two_calls-Steps)))))

both_ended-Steps : Steps small_json numbered nobody both_ended
both_ended-Steps = second-Steps _ (first-Steps _ before_insert-Steps)

both_ended-find : find 7 both_ended.shared.m_client ≡ some 0
unfolding step_call go login_found find_client_use_id find login_new login_inserted insert
both_ended-find = refl

-- Then a timer takes the user out.
abbrev timer_calls : Manager small_json numbered
timer_calls = record both_ended { calls = erases 7 ∷ both_ended.calls }

abbrev timed_out : Manager small_json numbered
timed_out = first timer_calls

timed_out-Steps : Steps small_json numbered both_ended timed_out
unfolding is_begin
timed_out-Steps =
    then_step (then_step stay (begins (erases 7) refl)) (goes [] (erases 7) both_ended.calls refl)

user-Stays_example :
    (find 7 timed_out.shared.m_client ≡ some 0)
    ⊎ (count 7 both_ended.logged_out < count 7 timed_out.logged_out)
user-Stays_example =
    user-Stays small_json numbered 7 0 both_ended timed_out both_ended-Steps both_ended-find
      timed_out-Steps

-- The first login has inserted its client, and the second is about to.
abbrev one_inserted : Manager small_json numbered
one_inserted = first before_insert

abbrev users : Clients small_json numbered
users = resolve one_inserted.shared.objects one_inserted.shared.m_client
