-- ===== src/Helpers/Sound.antt =====
-- launch_helper/kindpool.go: what holds of the pool after any events.
use push_component.Base.{
  ℕ, ◌+◌, ◌*◌, ◌≤◌, ◌<◌, ◌≡◌, refl, sym, ap, ◌∙◌, ◌⊎◌, inl, inr, Bool, true, List, [], ◌∷◌, Option,
  none, some, GoString, string_Eq, str_eq, str_eq_iff, length, leb, ltb, nat_eq, Map, lookup,
  insert, delete, lookup-insert, lookup-delete, arith, Bool-cases, Option-cases, All, All-append,
  All-map,
}
use push_component.Helpers.{
  HelperInput, Pool, Attempt, PoolEvent, input_taken, done_taken, helper_ends, time_is_up,
  take_input, take_done, one_done, timed_out, cleanup_temp_files, pick_ended, pool_step, pool_run,
  is_running, present, shrink_backlog,
}
use push_component.Helpers.Attempts.{IsFresh, try_one_lem}
use push_component.Helpers.Accounts.{
  runs, IsAccounted, ended-IsAccounted, changed-IsAccounted, done-IsAccounted,
}
use push_component.Helpers.Backlog.{
  Waits, waiting, Accounted, IsAllFresh, runs-insert, launched_accounts, failed_accounts, scan_lem,
}

-- Either as many helpers run as may, or whatever is in the backlog has a helper of its own
-- application to wait for.
abbrev pub IsBusy : Pool → Type 0
IsBusy p = (p.max_num ≤ length p.running) ⊎ All (Waits p.running) p.backlog

abbrev pub IsSound : Pool → Type 0
IsSound p = Accounted p × IsBusy p

abbrev pub IsFreshEvent : PoolEvent → Pool → Type 0
IsFreshEvent (input_taken attempt input) p = IsFresh attempt input p
IsFreshEvent (done_taken i answer capacity) p = IsAllFresh answer p
IsFreshEvent (helper_ends uid output) p = Unit
IsFreshEvent (time_is_up uid) p = Unit

Waits-insert :
    (app : GoString) (running : Map GoString Bool) (entry : Option HelperInput)
    → Waits running entry
    → Waits (insert app true running) entry
Waits-insert app running none h = tt
Waits-insert app running (some input) h = runs-insert app input.app running h

take_input-IsSound :
    (attempt : Attempt) (input : HelperInput) (p : Pool)
    → IsFresh attempt input p
    → IsSound p
    → IsSound (take_input attempt input p)
unfolding take_input
take_input-IsSound attempt input p fresh (ok, busy) =
    elim (Bool-cases (leb p.max_num (length p.running))) [
      | inl full ↦ rw full (ok, inl (ground (arith, full)))
      | inr space ↦
          let room : length p.running < p.max_num = ground (arith, space) in
          let wait : All (Waits p.running) p.backlog = elim busy [
            | inl full ↦ absurd (omega arith)
            | inr wait ↦ wait
          ] in
          elim (Bool-cases (is_running input.app p)) [
            | inl runs_now ↦
                rw (space, runs_now)
                  (
                    ok,
                    inr (
                        All-append (Waits p.running) p.backlog (some input ∷ []) wait
                          (runs_now, tt)),
                  )
            | inr idle ↦
                let (t, elsewhere, tried) = try_one_lem attempt input p fresh in
                rw (space, idle)
                  (elim tried [
                    | inl (e, l) ↦ rw e (
                      launched_accounts input p t ok idle room elsewhere l,
                      inr (
                          rw (l.noted, elsewhere.same_backlog)
                            (All-map (Waits p.running) _ p.backlog
                              (Waits-insert input.app p.running) wait)),
                    )
                    | inr (e, f) ↦ rw e (
                      failed_accounts input p t ok elsewhere f,
                      inr (rw (f.same_running, elsewhere.same_backlog) wait),
                    )
                  ])
          ]
    ]

present-All :
    (P : Option HelperInput → Type 0) (entries : List (Option HelperInput))
    → All P entries
    → All P (present entries)
unfolding present
present-All P [] h = tt
present-All P (none ∷ entries) h = present-All P entries h.1
present-All P (some input ∷ entries) h = (h.0, present-All P entries h.1)

shrink_backlog-All :
    (P : Option HelperInput → Type 0) (capacity size : ℕ) (entries : List (Option HelperInput))
    → All P entries
    → All P (shrink_backlog capacity entries size)
unfolding shrink_backlog
shrink_backlog-All P capacity size entries h = elim (Bool-cases (nat_eq size 0)) [
  | inl empty ↦ rw empty tt
  | inr more ↦ elim (Bool-cases (ltb capacity (2 * size))) [
    | inl tight ↦ rw (more, tight) h
    | inr wide ↦ rw (more, wide) (present-All P entries h)
  ]
]

-- An entry that waits, or that waited for the application which is done.
WaitsFor : GoString → Map GoString Bool → Option HelperInput → Type 0
WaitsFor app running none = Unit
WaitsFor app running (some input) = (runs input.app running ≡ true) ⊎ (input.app ≡ app)

freed_WaitsFor :
    (app : GoString) (running : Map GoString Bool) (entry : Option HelperInput)
    → Waits running entry
    → WaitsFor app (delete app running) entry
unfolding WaitsFor
freed_WaitsFor app running none h = tt
freed_WaitsFor app running (some input) h = elim (Bool-cases (str_eq app input.app)) [
  | inl same ↦ inr (sym ((str_eq_iff app input.app).0 same))
  | inr other ↦ inl (rw (lookup-delete app input.app running, other) h)
]

again_Waits :
    (app : GoString) (running : Map GoString Bool) (entry : Option HelperInput)
    → WaitsFor app running entry
    → Waits (insert app true running) entry
unfolding WaitsFor
again_Waits app running none h = tt
again_Waits app running (some input) (inl h) = runs-insert app input.app running h
again_Waits app running (some input) (inr e) =
    rw (lookup-insert app input.app true running, (str_eq_iff app input.app).1 (sym e))

no_entries : (entries : List (Option HelperInput)) → nat_eq (length entries) 0 ≡ true → entries ≡ []
no_entries [] h = refl
no_entries (e ∷ entries) h = absurd (ground (arith, h))

module _ (answer : HelperInput → Attempt) (capacity : ℕ) (app : GoString) (p : Pool)
    (ran : runs app p.running ≡ true)
    (ok : IsAccounted p.max_num (delete app p.running) p.hmap p.ended)
    (width : length (delete app p.running) + 1 ≡ length p.running)
    (small : length p.running ≤ p.max_num) (fresh : IsAllFresh answer p) where
  take_done-IsSound : IsBusy p → IsSound (take_done answer capacity app p)
  unfolding take_done WaitsFor
  take_done-IsSound busy = elim (Bool-cases (nat_eq (length p.backlog) 0)) [
    | inl empty ↦ rw empty (ok, inr (rw (no_entries p.backlog empty) tt))
    | inr some_wait ↦
        let freed : Pool = record p { running = delete app p.running } in
        let (left, q, e, s) = scan_lem answer p.backlog freed ok (omega arith) fresh in
        rw (some_wait, e)
          (
            s.scanned_accounts,
            elim s.scanned_started [
              | inr (same, wait) ↦
                  inr (
                    shrink_backlog-All (Waits q.running) capacity (waiting left) left
                      (rw same wait))
              | inl (started, idle, noted, more, from) ↦ elim busy [
                | inl full ↦ inl (rw s.scanned_max (omega arith))
                | inr wait ↦
                    let freed_wait : All (WaitsFor app freed.running) p.backlog =
                      All-map (Waits p.running) _ p.backlog (freed_WaitsFor app p.running) wait in
                    let (input, is, for) = from (WaitsFor app freed.running) freed_wait in
                    let own : started ≡ app = elim for [
                      | inl still ↦
                          absurd (ground (arith, idle, still, ap (λ a. runs a freed.running) is))
                      | inr same ↦ sym is ∙ same
                    ] in
                    inr (
                      shrink_backlog-All (Waits q.running) capacity (waiting left) left (
                        rw (noted, own)
                          (All-map (WaitsFor app freed.running) _ left
                            (again_Waits app freed.running)
                            (s.scanned_left (WaitsFor app freed.running) tt freed_wait))))
              ]
            ],
          )
  ]

pub pool_step-IsSound :
    (e : PoolEvent) (p : Pool) → IsFreshEvent e p → IsSound p → IsSound (pool_step e p)
unfolding pool_step one_done timed_out cleanup_temp_files
pool_step-IsSound (input_taken attempt input) p fresh sound =
    take_input-IsSound attempt input p fresh sound
pool_step-IsSound (done_taken i answer capacity) p fresh (ok, busy) =
    elim (Option-cases (pick_ended i p.ended)) [
      | inl nothing ↦ rw (pool_step, nothing) (ok, busy)
      | inr ((app, rest), picked) ↦
          let (freed, width, ran) =
            done-IsAccounted p.max_num i p.running p.hmap p.ended rest app ok picked in
          rw (pool_step, picked)
            (take_done-IsSound answer capacity app (record p { ended = rest }) ran freed width
              ok.small fresh busy)
    ]
pool_step-IsSound (helper_ends uid output) p fresh (ok, busy) =
    elim (Option-cases (lookup uid p.hmap)) [
      | inl unknown ↦ rw (one_done, unknown) (ok, busy)
      | inr (args, found) ↦
          rw (one_done, found)
            (ended-IsAccounted p.max_num p.running p.hmap p.ended ok uid args found, busy)
    ]
pool_step-IsSound (time_is_up uid) p fresh (ok, busy) = elim (Option-cases (lookup uid p.hmap)) [
  | inl unknown ↦ rw (timed_out, unknown) (ok, busy)
  | inr (args, found) ↦
      rw (timed_out, found)
        (
          changed-IsAccounted p.max_num p.running p.hmap p.ended ok uid args
              (record args { forced_stop = true }) found refl,
          busy,
        )
]

-- Every launch among the events gives an id that no helper has at that time.
abbrev pub IsFreshRun : List PoolEvent → Pool → Type 0
IsFreshRun [] p = Unit
IsFreshRun (e ∷ es) p = IsFreshEvent e p × IsFreshRun es (pool_step e p)

-- Any events keep a pool sound, where launchers give no id to two helpers at once: no more helpers
-- run than may, and no two for one application; the loop's map has exactly the applications of the
-- helpers in the table and of those that wait to be noted as done, each once; and the backlog waits
-- only while as many helpers run as may, or for a helper of the same application.
pub pool_run-IsSound :
    (es : List PoolEvent) (p : Pool) → IsFreshRun es p → IsSound p → IsSound (pool_run es p)
unfolding pool_run
pool_run-IsSound [] p fresh sound = sound
pool_run-IsSound (e ∷ es) p fresh sound =
    pool_run-IsSound es (pool_step e p) fresh.1 (pool_step-IsSound e p fresh.0 sound)
