-- ===== src/Examples/Pools.antt =====
-- A pool in which a second input for an application waits for the first.
use Prim.Native.String.{String}
use push_component.Base.{
  ◌+◌, ◌≡◌, refl, inr, true, List, [], ◌∷◌, none, some, lit, str_eq, str_eq_iff, string_Eq, lookup,
  insert, delete, length, arith,
}
use push_component.Helpers.{
  HelperInput, Pool, Attempt, PoolEvent, input_taken, done_taken, helper_ends, time_is_up, failed,
  pool_step, pool_run,
}
use push_component.Helpers.Sound.{IsSound, IsFreshRun, pool_run-IsSound}
use push_component.Helpers.Conserved.{held, all_brought, held-pool_run}

abbrev new_pool : Pool
new_pool = record {
  max_num = 5;
  running = [];
  backlog = [];
  hmap = [];
  ended = [];
  results = [];
  files = [];
  stopped_ids = [];
}

abbrev input_with : String → HelperInput
input_with payload = record {
  kind = lit "click";
  app = lit "app";
  notification_id = [];
  payload = lit payload;
}

abbrev launches : String → Attempt
launches iid = record {
  helper = some (lit "helper", lit "exec");
  input_file = some (lit "in");
  input_written = true;
  output_file = some (lit "out");
  launched = some (lit iid);
}

abbrev events : List PoolEvent
events =
    input_taken (launches "1") (input_with "a")
    ∷ input_taken (launches "2") (input_with "b")
    ∷ time_is_up (lit "click:1")
    ∷ helper_ends (lit "click:1") none
    ∷ done_taken 0 (λ input. launches "3") 0
    ∷ []

new_pool-IsSound : IsSound new_pool
unfolding lookup
new_pool-IsSound = (
  record { small = omega arith; single = λ a. refl; uids = tt; accounted = λ a. omega arith },
  inr tt,
)

after_events : (pool_run events new_pool).results ≡ failed (input_with "a") ∷ []
unfolding pool_run pool_step lookup insert str_eq delete
after_events = refl

events-IsFreshRun : IsFreshRun events new_pool
unfolding pool_step lookup insert str_eq delete
events-IsFreshRun = (
  (λ iid e. refl),
  (λ iid e. ground (arith, str_eq_iff (lit "1") iid), (tt, (tt, (λ input iid e. refl, tt)))),
)

pool_run-IsSound_example : IsSound (pool_run events new_pool)
pool_run-IsSound_example = pool_run-IsSound events new_pool events-IsFreshRun new_pool-IsSound

held-pool_run_example :
    held (λ i. length i.payload) (pool_run events new_pool)
    ≡ held (λ i. length i.payload) new_pool + all_brought (λ i. length i.payload) events
held-pool_run_example =
    held-pool_run (λ i. length i.payload) events new_pool events-IsFreshRun new_pool-IsSound
