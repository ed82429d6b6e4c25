-- ===== src/Helpers.antt =====
-- launch_helper/kindpool.go: the pool that runs helpers, as steps of its loop and of the goroutines
-- around it. Launchers, temporary files and what a helper writes are the environment's answers.
-- Inputs wait in the pool's buffered channel until the loop takes them; a goroutine that sends on
-- chDone waits in `ended` until the loop takes its application.
pub mod Counts
pub mod Attempts
pub mod Accounts
pub mod Backlog
pub mod Sound
pub mod Conserved
use push_component.Base.{
  ℕ, zero, suc, ◌+◌, ◌*◌, Bool, true, false, not, ◌&&◌, ◌||◌, List, [], ◌∷◌, ◌++◌, Option, none,
  some, GoString, lit, string_Eq, str_eq, length, select, get_or, ltb, leb, nat_eq, if◌then◌else◌,
  Map, lookup, insert, delete,
}

-- HelperInput; of its application the original id.
pub record HelperInput : Type 0 where
  pub kind : GoString
  pub app : GoString
  pub notification_id : GoString
  pub payload : GoString

-- HelperArgs; the timer's only effect is the `timed_out` event, which comes at most while it runs.
pub record HelperArgs : Type 0 where
  pub input : HelperInput
  pub app_id : GoString
  pub file_in : GoString
  pub file_out : GoString
  pub forced_stop : Bool

-- HelperResult: what a helper wrote, or the payload of the input where there is no output to use.
pub data HelperResult : Type 0 where
  helped : HelperInput → GoString → HelperResult
  failed : HelperInput → HelperResult

-- kindHelperPool, with the variables of its loop, the temporary files that are there, and the ids of
-- the helpers that it has asked to stop.
pub record Pool : Type 0 where
  pub max_num : ℕ
  pub running : Map GoString Bool
  pub backlog : List (Option HelperInput)
  pub hmap : Map GoString HelperArgs
  pub ended : List GoString
  pub results : List HelperResult
  pub files : List GoString
  pub stopped_ids : List GoString

-- What the environment answers to an attempt to run a helper: whether there is a launcher for the
-- kind, with its helper for the application; the two files; and the id of the helper launched.
pub record Attempt : Type 0 where
  pub helper : Option (GoString × GoString)
  pub input_file : Option GoString
  pub input_written : Bool
  pub output_file : Option GoString
  pub launched : Option GoString

-- launcher.HelperInfo and the launcher's kind, unless either is missing.
find_helper : Option (GoString × GoString) → Option GoString
find_helper none = none
find_helper (some (helper_app_id, helper_exec)) =
    if str_eq helper_app_id [] && str_eq helper_exec [] then none else some helper_app_id

abbrev pub uid_of : HelperInput → GoString → GoString
uid_of input iid = input.kind ++ (lit ":" ++ iid)

-- failOne
abbrev pub fail_one : HelperInput → Pool → Pool
fail_one input pool = record pool { results = pool.results ++ failed input ∷ [] }

-- cleanupTempFiles; removing a file that is not there does nothing.
unfoldable pub cleanup_temp_files : List GoString → Pool → Pool
cleanup_temp_files [] pool = pool
cleanup_temp_files (f ∷ fs) pool =
    cleanup_temp_files fs (record pool { files = select (λ g. not (str_eq g f)) pool.files })

abbrev pub make_file : GoString → Pool → Pool
make_file f pool = record pool { files = f ∷ pool.files }

-- The end of handleOne, with both files made.
launch : Attempt → HelperInput → GoString → GoString → GoString → Pool → Pool × Bool
unfolding cleanup_temp_files
launch attempt input helper_app_id f1 f2 pool = elim attempt.launched [
  | none ↦ (cleanup_temp_files (f1 ∷ f2 ∷ []) pool, false)
  | some iid ↦ (
    record pool {
      hmap =
          insert (uid_of input iid)
            (record {
              input = input;
              app_id = helper_app_id;
              file_in = f1;
              file_out = f2;
              forced_stop = false;
            })
            pool.hmap;
    },
    true,
  )
]

-- handleOne; the Boolean is whether it returns no error.
unfoldable pub handle_one : Attempt → HelperInput → Pool → Pool × Bool
unfolding find_helper cleanup_temp_files launch
handle_one attempt input pool = elim (find_helper attempt.helper) [
  | none ↦ (pool, false)
  | some helper_app_id ↦ elim attempt.input_file [
    | none ↦ (pool, false)
    | some f1 ↦
        if not attempt.input_written
        then (cleanup_temp_files (f1 ∷ []) (make_file f1 pool), false)
        else elim attempt.output_file [
          | none ↦ (cleanup_temp_files (f1 ∷ []) (make_file f1 pool), false)
          | some f2 ↦ launch attempt input helper_app_id f1 f2 (make_file f2 (make_file f1 pool))
        ]
  ]
]

-- tryOne, and the loop's note that the application runs.
unfoldable pub try_one : Attempt → HelperInput → Pool → Pool × Bool
unfolding handle_one
try_one attempt input pool =
    let (tried, launched) = handle_one attempt input pool in
    if launched
    then (record tried { running = insert input.app true tried.running }, true)
    else (fail_one input tried, false)

abbrev pub is_running : GoString → Pool → Bool
is_running app pool = get_or (lookup app pool.running) false

-- The loop's case of an input.
unfoldable pub take_input : Attempt → HelperInput → Pool → Pool
unfolding try_one
take_input attempt input pool =
    if leb pool.max_num (length pool.running) || is_running input.app pool
    then record pool { backlog = pool.backlog ++ some input ∷ [] }
    else (try_one attempt input pool).0

-- The loop over the backlog: the backlog with the entries that were tried made nil, how many wait,
-- and the pool after the attempts.
unfoldable pub scan_backlog :
    (HelperInput → Attempt)
    → Bool
    → List (Option HelperInput)
    → Pool
    → List (Option HelperInput) × ℕ × Pool
scan_backlog answer done [] pool = ([], 0, pool)
scan_backlog answer done (none ∷ entries) pool =
    let (rest, size, last) = scan_backlog answer done entries pool in (none ∷ rest, size, last)
scan_backlog answer done (some input ∷ entries) pool =
    let (tried, launched) = try_one (answer input) input pool in
    let (rest, size, last) = scan_backlog answer launched entries tried in
    let (rest', size', last') = scan_backlog answer done entries pool in
    if not done && not (is_running input.app pool)
    then (none ∷ rest, size, last)
    else (some input ∷ rest', size' + 1, last')

-- The loop of shrinkBacklog that drops the nil entries.
unfoldable pub present : List (Option HelperInput) → List (Option HelperInput)
present [] = []
present (none ∷ entries) = present entries
present (some input ∷ entries) = some input ∷ present entries

-- shrinkBacklog; the capacity of the slice is a parameter.
unfoldable pub shrink_backlog : ℕ → List (Option HelperInput) → ℕ → List (Option HelperInput)
unfolding present
shrink_backlog capacity backlog size =
    if nat_eq size 0 then [] else if ltb capacity (2 * size) then backlog else present backlog

-- The loop's case of an application that is done.
unfoldable pub take_done : (HelperInput → Attempt) → ℕ → GoString → Pool → Pool
unfolding scan_backlog shrink_backlog
take_done answer capacity app pool =
    let freed = record pool { running = delete app pool.running } in
    if nat_eq (length pool.backlog) 0
    then freed
    else let (left, size, last) = scan_backlog answer false pool.backlog freed in
      record last { backlog = shrink_backlog capacity left size }

-- What OneDone sends: the output of the helper, which is `none` where it cannot be read or parsed.
unfoldable pub result_of : HelperArgs → Option GoString → HelperResult
result_of args output =
    if args.forced_stop
    then failed args.input
    else elim output [ none ↦ failed args.input | some text ↦ helped args.input text ]

-- OneDone, up to its send on chDone.
unfoldable pub one_done : GoString → Option GoString → Pool → Pool
unfolding result_of cleanup_temp_files
one_done uid output pool = elim (lookup uid pool.hmap) [
  | none ↦ pool
  | some args ↦
      let sent = record pool {
        hmap = delete uid pool.hmap;
        results = pool.results ++ result_of args output ∷ [];
        ended = pool.ended ++ args.input.app ∷ [];
      } in
      cleanup_temp_files (args.file_in ∷ args.file_out ∷ []) sent
]

-- The function of the timer: the helper is asked to stop, and its end is awaited as ever.
unfoldable pub timed_out : GoString → Pool → Pool
timed_out uid pool = elim (lookup uid pool.hmap) [
  | none ↦ pool
  | some args ↦ record pool {
    hmap = insert uid (record args { forced_stop = true }) pool.hmap;
    stopped_ids = pool.stopped_ids ++ uid ∷ [];
  }
]

-- The goroutine that waits at the head of `ended`, and those that wait behind it.
unfoldable pub pick_ended : ℕ → List GoString → Option (GoString × List GoString)
pick_ended i [] = none
pick_ended zero (app ∷ apps) = some (app, apps)
pick_ended (suc i) (app ∷ apps) = elim (pick_ended i apps) [
  | none ↦ none
  | some (found, rest) ↦ some (found, app ∷ rest)
]

-- An input that the loop takes, an application that it takes from one of the goroutines that wait,
-- the end of a helper, and the end of its time.
pub data PoolEvent : Type 0 where
  input_taken : Attempt → HelperInput → PoolEvent
  done_taken : ℕ → (HelperInput → Attempt) → ℕ → PoolEvent
  helper_ends : GoString → Option GoString → PoolEvent
  time_is_up : GoString → PoolEvent

unfoldable pub pool_step : PoolEvent → Pool → Pool
unfolding take_input take_done one_done timed_out pick_ended
pool_step (input_taken attempt input) pool = take_input attempt input pool
pool_step (done_taken i answer capacity) pool = elim (pick_ended i pool.ended) [
  | none ↦ pool
  | some (app, rest) ↦ take_done answer capacity app (record pool { ended = rest })
]
pool_step (helper_ends uid output) pool = one_done uid output pool
pool_step (time_is_up uid) pool = timed_out uid pool

unfoldable pub pool_run : List PoolEvent → Pool → Pool
pool_run [] pool = pool
pool_run (e ∷ es) pool = pool_run es (pool_step e pool)
