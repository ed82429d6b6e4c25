-- ===== src/Helpers/Attempts.antt =====
-- launch_helper/kindpool.go: what an attempt to run a helper changes.
use push_component.Base.{
  ◌≡◌, refl, ap, ◌⊎◌, inl, inr, Bool, true, false, not, List, [], ◌∷◌, ◌++◌, none, some, GoString,
  string_Eq, str_eq, select, lookup, insert, Bool-cases, Option-cases,
}
use push_component.Helpers.{
  HelperInput, HelperArgs, failed, fail_one, Pool, Attempt, uid_of, find_helper, handle_one, launch,
  try_one, cleanup_temp_files,
}

-- Parts of the pool that an attempt leaves alone.
pub record IsSameElse (p q : Pool) : Type 0 where
  pub same_max : q.max_num ≡ p.max_num
  pub same_backlog : q.backlog ≡ p.backlog
  pub same_ended : q.ended ≡ p.ended

-- Launchers give each helper an id that none of the helpers that run has.
abbrev pub IsFresh : Attempt → HelperInput → Pool → Type 0
IsFresh attempt input pool =
    (iid : GoString) → attempt.launched ≡ some iid → lookup (uid_of input iid) pool.hmap ≡ none

-- An attempt that launches a helper.
pub record HasLaunched (input : HelperInput) (p q : Pool) : Type 0 where
  pub uid : GoString
  pub args : HelperArgs
  pub own : args.input ≡ input
  pub unused : lookup uid p.hmap ≡ none
  pub noted : q.running ≡ insert input.app true p.running
  pub kept : q.hmap ≡ insert uid args p.hmap
  pub no_result : q.results ≡ p.results

-- An attempt that fails.
pub record HasFailed (input : HelperInput) (p q : Pool) : Type 0 where
  pub same_running : q.running ≡ p.running
  pub same_hmap : q.hmap ≡ p.hmap
  pub answered : q.results ≡ p.results ++ failed input ∷ []

-- handleOne does not touch the rest of the pool, and adds to the helpers that run just on success.
record HasHandled (input : HelperInput) (p q : Pool) (result : Pool × Bool) : Type 0 where
  returned : result ≡ (q, false)
  handled_else : IsSameElse p q
  handled_running : q.running ≡ p.running
  handled_hmap : q.hmap ≡ p.hmap
  handled_results : q.results ≡ p.results

abbrev started_helper : Attempt → HelperInput → GoString → GoString → GoString → HelperArgs
started_helper attempt input helper f1 f2 = record {
  input = input;
  app_id = helper;
  file_in = f1;
  file_out = f2;
  forced_stop = false;
}

module _ (attempt : Attempt) (input : HelperInput) (pool : Pool)
    (fresh : IsFresh attempt input pool) where
  abbrev AsResult : Pool × Bool → Type 0
  AsResult result =
      ((q : Pool) × HasHandled input pool q result)
      ⊎ ((q : Pool) × (result ≡ (q, true))
          × ((iid : GoString) × (args : HelperArgs) × (args.input ≡ input)
              × (attempt.launched ≡ some iid)
              × (q ≡ record pool {
                files = q.files;
                hmap = insert (uid_of input iid) args pool.hmap;
              })))

  fails_with :
      (files : List GoString) (result : Pool × Bool)
      → result ≡ (record pool { files = files }, false)
      → AsResult result
  fails_with files result e = inl (
    record pool { files = files },
    record {
      returned = e;
      handled_else = record { same_max = refl; same_backlog = refl; same_ended = refl };
      handled_running = refl;
      handled_hmap = refl;
      handled_results = refl;
    },
  )

  -- The files that are left once some of those there are removed.
  abbrev without : List GoString → List GoString → List GoString
  without [] files = files
  without (f ∷ fs) files = without fs (select (λ g. not (str_eq g f)) files)

  handle_one_lem : AsResult (handle_one attempt input pool)
  unfolding handle_one launch cleanup_temp_files
  handle_one_lem = elim (Option-cases (find_helper attempt.helper)) [
    | inl nobody ↦ fails_with pool.files _ (rw (handle_one, nobody))
    | inr (helper, found) ↦ elim (Option-cases attempt.input_file) [
      | inl no_file ↦ fails_with pool.files _ (rw (handle_one, found, no_file))
      | inr (f1, made) ↦ elim (Bool-cases attempt.input_written) [
        | inr unwritten ↦
            fails_with (without (f1 ∷ []) (f1 ∷ pool.files)) _
              (rw (handle_one, found, made, unwritten))
        | inl written ↦ elim (Option-cases attempt.output_file) [
          | inl no_output ↦
              fails_with (without (f1 ∷ []) (f1 ∷ pool.files)) _
                (rw (handle_one, found, made, written, no_output))
          | inr (f2, output) ↦ elim (Option-cases attempt.launched) [
            | inl refused ↦
                fails_with (without (f1 ∷ f2 ∷ []) (f2 ∷ f1 ∷ pool.files)) _
                  (rw (handle_one, found, made, written, output, refused))
            | inr (iid, started) ↦ inr (
              record pool {
                files = f2 ∷ f1 ∷ pool.files;
                hmap =
                    insert (uid_of input iid) (started_helper attempt input helper f1 f2) pool.hmap;
              },
              rw (handle_one, found, made, written, output, started),
              (iid, started_helper attempt input helper f1 f2, refl, started, refl),
            )
          ]
        ]
      ]
    ]
  ]

  -- An attempt either launches a helper, which is then among those that run, or answers the input.
  pub try_one_lem :
      (q : Pool) × IsSameElse pool q
      × (((try_one attempt input pool ≡ (q, true)) × HasLaunched input pool q)
          ⊎ ((try_one attempt input pool ≡ (q, false)) × HasFailed input pool q))
  unfolding try_one
  try_one_lem = elim handle_one_lem [
    | inl (q, h) ↦ (
      fail_one input q,
      record {
        same_max = h.handled_else.same_max;
        same_backlog = h.handled_else.same_backlog;
        same_ended = h.handled_else.same_ended;
      },
      inr (
        rw (try_one, h.returned),
        record {
          same_running = h.handled_running;
          same_hmap = h.handled_hmap;
          answered = ap (λ rs. rs ++ failed input ∷ []) h.handled_results;
        },
      ),
    )
    | inr (q, e, (iid, args, own, launched, is)) ↦ (
      record q { running = insert input.app true q.running },
      record {
        same_max = ap (λ (p : Pool). p.max_num) is;
        same_backlog = ap (λ (p : Pool). p.backlog) is;
        same_ended = ap (λ (p : Pool). p.ended) is;
      },
      inl (
        rw (try_one, e),
        record {
          uid = uid_of input iid;
          args = args;
          own = own;
          unused = fresh iid launched;
          noted = ap (λ (p : Pool). insert input.app true p.running) is;
          kept = ap (λ (p : Pool). p.hmap) is;
          no_result = ap (λ (p : Pool). p.results) is;
        },
      ),
    )
  ]
