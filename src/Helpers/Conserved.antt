-- ===== src/Helpers/Conserved.antt =====
-- launch_helper/kindpool.go: no input is lost and none is answered twice.
use push_component.Base.{
  ℕ, ◌+◌, ◌*◌, ◌≡◌, refl, sym, ap, ◌⊎◌, inl, inr, true, false, ◌||◌, List, [], ◌∷◌, ◌++◌, Option,
  none, some, string_Eq, length, leb, ltb, nat_eq, lookup, delete, arith, Bool-cases, Option-cases,
}
use push_component.Helpers.{
  HelperInput, HelperArgs, HelperResult, helped, failed, Pool, Attempt, PoolEvent, input_taken,
  done_taken, helper_ends, time_is_up, take_input, take_done, one_done, timed_out, result_of,
  cleanup_temp_files, pick_ended, pool_step, pool_run, is_running, present, scan_backlog,
  shrink_backlog,
}
use push_component.Helpers.Counts.{weigh, weigh-insert_new, weigh-insert_old, weigh-delete}
use push_component.Helpers.Attempts.{HasLaunched, HasFailed, try_one_lem}
use push_component.Helpers.Backlog.{waiting, IsAllFresh, scan_started, scan_lem}
use push_component.Helpers.Accounts.{done-IsAccounted}
use push_component.Helpers.Sound.{IsSound, IsFreshEvent, IsFreshRun, pool_step-IsSound}

abbrev pub input_of : HelperResult → HelperInput
input_of (helped input output) = input
input_of (failed input) = input

-- Sums of a weight of inputs. That a sum is kept for every weight says that the inputs are the same,
-- each as often.
module _ (w : HelperInput → ℕ) where
  abbrev pub in_backlog : List (Option HelperInput) → ℕ
  in_backlog [] = 0
  in_backlog (none ∷ entries) = in_backlog entries
  in_backlog (some input ∷ entries) = w input + in_backlog entries

  abbrev pub in_results : List HelperResult → ℕ
  in_results [] = 0
  in_results (r ∷ rs) = w (input_of r) + in_results rs

  abbrev pub of_args : HelperArgs → ℕ
  of_args args = w args.input

  -- The inputs that wait, those that a helper works on, and those that are answered.
  abbrev pub held : Pool → ℕ
  held p = in_backlog p.backlog + weigh of_args p.hmap + in_results p.results

  -- The input that an event brings.
  abbrev pub brought : PoolEvent → ℕ
  brought (input_taken attempt input) = w input
  brought (done_taken i answer capacity) = 0
  brought (helper_ends uid output) = 0
  brought (time_is_up uid) = 0

  in_backlog-append :
      (entries : List (Option HelperInput)) (input : HelperInput)
      → in_backlog (entries ++ some input ∷ []) ≡ in_backlog entries + w input
  in_backlog-append [] input = omega arith
  in_backlog-append (none ∷ entries) input = in_backlog-append entries input
  in_backlog-append (some i ∷ entries) input = omega (arith, in_backlog-append entries input)

  in_results-append :
      (rs : List HelperResult) (r : HelperResult)
      → in_results (rs ++ r ∷ []) ≡ in_results rs + w (input_of r)
  in_results-append [] r = omega arith
  in_results-append (s ∷ rs) r = omega (arith, in_results-append rs r)

  in_backlog_none :
      (entries : List (Option HelperInput)) → waiting entries ≡ 0 → in_backlog entries ≡ 0
  in_backlog_none [] h = refl
  in_backlog_none (none ∷ entries) h = in_backlog_none entries h
  in_backlog_none (some i ∷ entries) h = absurd (omega arith)

  in_backlog-present :
      (entries : List (Option HelperInput)) → in_backlog (present entries) ≡ in_backlog entries
  unfolding present
  in_backlog-present [] = refl
  in_backlog-present (none ∷ entries) = in_backlog-present entries
  in_backlog-present (some i ∷ entries) = ap (λ n. w i + n) (in_backlog-present entries)

  in_backlog-shrink_backlog :
      (capacity : ℕ) (entries : List (Option HelperInput))
      → in_backlog (shrink_backlog capacity entries (waiting entries)) ≡ in_backlog entries
  unfolding shrink_backlog
  in_backlog-shrink_backlog capacity entries = elim (Bool-cases (nat_eq (waiting entries) 0)) [
    | inl empty ↦ rw empty (sym (in_backlog_none entries (ground (arith, empty))))
    | inr more ↦ elim (Bool-cases (ltb capacity (2 * waiting entries))) [
      | inl tight ↦ rw (more, tight)
      | inr wide ↦ rw (more, wide) (in_backlog-present entries)
    ]
  ]

  -- An attempt moves the input to the helpers that run, or to the answers.
  abbrev elsewhere_held : Pool → ℕ
  elsewhere_held p = weigh of_args p.hmap + in_results p.results

  attempt_held :
      (input : HelperInput) (p t : Pool)
      → HasLaunched input p t ⊎ HasFailed input p t
      → elsewhere_held t ≡ elsewhere_held p + w input
  attempt_held input p t (inl l) =
      rw (l.kept, l.no_result)
        (omega (arith, weigh-insert_new of_args l.uid l.args p.hmap l.unused, ap w l.own))
  attempt_held input p t (inr f) =
      rw (f.same_hmap, f.answered) (omega (arith, in_results-append p.results (failed input)))

  scan_held :
      (answer : HelperInput → Attempt) (entries : List (Option HelperInput)) (p : Pool)
      → IsAllFresh answer p
      → let result = scan_backlog answer false entries p in
        (in_backlog result.0 + elsewhere_held result.2 ≡ in_backlog entries + elsewhere_held p)
  unfolding scan_backlog
  scan_held answer [] p fresh = refl
  scan_held answer (none ∷ entries) p fresh = scan_held answer entries p fresh
  scan_held answer (some input ∷ entries) p fresh = elim (Bool-cases (is_running input.app p)) [
    | inl busy ↦ rw (scan_backlog, busy) (omega (arith, scan_held answer entries p fresh))
    | inr idle ↦
        let (t, elsewhere, tried) = try_one_lem (answer input) input p (fresh input) in
        elim tried [
          | inl (e, l) ↦
              rw (scan_backlog, idle, e, scan_started answer entries t)
                (omega (arith, attempt_held input p t (inl l)))
          | inr (e, f) ↦
              rw (scan_backlog, idle, e)
                (omega (
                  arith,
                  attempt_held input p t (inr f),
                  scan_held answer entries t
                      (λ other iid started. rw f.same_hmap (fresh other iid started)),
                ))
        ]
  ]

  held-pool_step :
      (e : PoolEvent) (p : Pool)
      → IsFreshEvent e p
      → IsSound p
      → held (pool_step e p) ≡ held p + brought e
  unfolding pool_step take_input take_done one_done timed_out cleanup_temp_files result_of
  held-pool_step (input_taken attempt input) p fresh sound =
      elim (Bool-cases (leb p.max_num (length p.running) || is_running input.app p)) [
        | inl waits ↦
            rw (pool_step, take_input, waits) (omega (arith, in_backlog-append p.backlog input))
        | inr starts ↦
            let (t, elsewhere, tried) = try_one_lem attempt input p fresh in
            elim tried [
              | inl (e, l) ↦
                  rw (pool_step, take_input, starts, e, elsewhere.same_backlog)
                    (omega (arith, attempt_held input p t (inl l)))
              | inr (e, f) ↦
                  rw (pool_step, take_input, starts, e, elsewhere.same_backlog)
                    (omega (arith, attempt_held input p t (inr f)))
            ]
      ]
  held-pool_step (done_taken i answer capacity) p fresh sound =
      elim (Option-cases (pick_ended i p.ended)) [
        | inl nothing ↦ rw (pool_step, nothing) (omega arith)
        | inr ((app, rest), picked) ↦ elim (Bool-cases (nat_eq (length p.backlog) 0)) [
          | inl empty ↦ rw (pool_step, picked, take_done, empty) (omega arith)
          | inr some_wait ↦
              let freed : Pool = record p { ended = rest; running = delete app p.running } in
              let (ok, width, ran) =
                done-IsAccounted p.max_num i p.running p.hmap p.ended rest app sound.0 picked in
              let (left, q, e, s) =
                scan_lem answer p.backlog freed ok (omega (arith, width, sound.0.small)) fresh in
              let kept = scan_held answer p.backlog freed fresh in
              rw (pool_step, picked, take_done, some_wait, e)
                (omega (arith, rw e at kept, in_backlog-shrink_backlog capacity left))
        ]
      ]
  held-pool_step (helper_ends uid output) p fresh sound = elim (Option-cases (lookup uid p.hmap)) [
    | inl unknown ↦ rw (pool_step, one_done, unknown) (omega arith)
    | inr (args, found) ↦
        let own : w (input_of (result_of args output)) ≡ w args.input = ground arith in
        rw (pool_step, one_done, found)
          (omega (
            arith,
            in_results-append p.results (result_of args output),
            own,
            weigh-delete of_args uid args p.hmap sound.0.uids found,
          ))
  ]
  held-pool_step (time_is_up uid) p fresh sound = elim (Option-cases (lookup uid p.hmap)) [
    | inl unknown ↦ rw (pool_step, timed_out, unknown) (omega arith)
    | inr (args, found) ↦
        rw (pool_step, timed_out, found)
          (omega (
            arith,
            weigh-insert_old of_args uid (record args { forced_stop = true }) args p.hmap found,
          ))
  ]

  abbrev pub all_brought : List PoolEvent → ℕ
  all_brought [] = 0
  all_brought (e ∷ es) = brought e + all_brought es

  -- Over any events on a sound pool, where launchers give no id to two helpers at once: what waits
  -- in the backlog, what a helper works on and what is answered are together the inputs that were so
  -- before, and those that the events bring, each as often (the sums agree for every weight of the
  -- inputs). So no input is lost, and none is answered twice.
  pub held-pool_run :
      (es : List PoolEvent) (p : Pool)
      → IsFreshRun es p
      → IsSound p
      → held (pool_run es p) ≡ held p + all_brought es
  unfolding pool_run
  held-pool_run [] p fresh sound = omega arith
  held-pool_run (e ∷ es) p fresh sound = omega (
    arith,
    held-pool_step e p fresh.0 sound,
    held-pool_run es (pool_step e p) fresh.1 (pool_step-IsSound e p fresh.0 sound),
  )
