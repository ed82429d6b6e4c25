-- ===== src/Helpers/Backlog.antt =====
-- launch_helper/kindpool.go: what the loop over the backlog starts, and what it leaves.
use push_component.Base.{
  ℕ, suc, ◌+◌, ◌<◌, ◌≡◌, refl, ap, ◌∙◌, subst, ◌⊎◌, inl, inr, Bool, true, false, List, [], ◌∷◌,
  Option, none, some, GoString, string_Eq, length, Map, insert, lookup-insert, keys, arith,
  Bool-cases, All,
}
use push_component.Helpers.{HelperInput, Pool, Attempt, scan_backlog, is_running}
use push_component.Helpers.Counts.{count, length-insert}
use push_component.Helpers.Attempts.{IsSameElse, IsFresh, HasLaunched, HasFailed, try_one_lem}
use push_component.Helpers.Accounts.{IsAccounted, runs, launched-IsAccounted}

-- An entry of the backlog that has to wait: a helper for its application runs.
abbrev pub Waits : Map GoString Bool → Option HelperInput → Type 0
Waits running none = Unit
Waits running (some input) = runs input.app running ≡ true

abbrev pub waiting : List (Option HelperInput) → ℕ
waiting [] = 0
waiting (none ∷ entries) = waiting entries
waiting (some input ∷ entries) = suc (waiting entries)

abbrev pub Accounted : Pool → Type 0
Accounted p = IsAccounted p.max_num p.running p.hmap p.ended

abbrev pub IsAllFresh : (HelperInput → Attempt) → Pool → Type 0
IsAllFresh answer p = (input : HelperInput) → IsFresh (answer input) input p

pub runs-insert :
    (a b : GoString) (running : Map GoString Bool)
    → runs b running ≡ true
    → runs b (insert a true running) ≡ true
runs-insert a b running h = ground (arith, lookup-insert a b true running, h)

-- Once a helper is started, the rest of the backlog is left as it is.
pub scan_started :
    (answer : HelperInput → Attempt) (entries : List (Option HelperInput)) (p : Pool)
    → scan_backlog answer true entries p ≡ (entries, waiting entries, p)
unfolding scan_backlog
scan_started answer [] p = refl
scan_started answer (none ∷ entries) p = rw (scan_started answer entries p)
scan_started answer (some input ∷ entries) p = rw (scan_started answer entries p) (ground arith)

-- What the loop does to the pool `p`, as the backlog `left` and the pool `q`: it starts a helper for
-- an entry's application that has none, or leaves only entries that wait.
pub record IsScanned (p : Pool) (entries left : List (Option HelperInput)) (q : Pool) : Type 1 where
  pub scanned_max : q.max_num ≡ p.max_num
  pub scanned_ended : q.ended ≡ p.ended
  pub scanned_accounts : Accounted q
  pub scanned_left : (P : Option HelperInput → Type 0) → P none → All P entries → All P left
  pub scanned_started :
      ((app : GoString) × (runs app p.running ≡ false)
        × (q.running ≡ insert app true p.running)
        × (length q.running ≡ length p.running + 1)
        × ((P : Option HelperInput → Type 0)
            → All P entries
            → (input : HelperInput) × (input.app ≡ app) × P (some input)))
      ⊎ ((q.running ≡ p.running) × All (Waits p.running) left)

pub launched_accounts :
    (input : HelperInput) (p t : Pool)
    → Accounted p
    → runs input.app p.running ≡ false
    → length p.running < p.max_num
    → IsSameElse p t
    → HasLaunched input p t
    → Accounted t
launched_accounts input p t ok idle room elsewhere l =
    rw (elsewhere.same_max, l.noted, l.kept, elsewhere.same_ended)
      (launched-IsAccounted p.max_num p.running p.hmap p.ended ok input.app l.uid l.args
        (ap (λ (i : HelperInput). i.app) l.own) idle room l.unused)

pub failed_accounts :
    (input : HelperInput) (p t : Pool)
    → Accounted p
    → IsSameElse p t
    → HasFailed input p t
    → Accounted t
failed_accounts input p t ok elsewhere f =
    rw (elsewhere.same_max, f.same_running, f.same_hmap, elsewhere.same_ended) ok

pub scan_lem :
    (answer : HelperInput → Attempt) (entries : List (Option HelperInput)) (p : Pool)
    → Accounted p
    → length p.running < p.max_num
    → IsAllFresh answer p
    → (left : List (Option HelperInput)) × (q : Pool) × (scan_backlog answer false entries p
        ≡ (left, waiting left, q))
      × IsScanned p entries left q
unfolding scan_backlog
scan_lem answer [] p ok room fresh = (
  [],
  p,
  refl,
  record {
    scanned_max = refl;
    scanned_ended = refl;
    scanned_accounts = ok;
    scanned_left = λ P z h. h;
    scanned_started = inr (refl, tt);
  },
)
scan_lem answer (none ∷ entries) p ok room fresh =
    let (left, q, e, s) = scan_lem answer entries p ok room fresh in
    (
      none ∷ left,
      q,
      rw e,
      record {
        scanned_max = s.scanned_max;
        scanned_ended = s.scanned_ended;
        scanned_accounts = s.scanned_accounts;
        scanned_left = λ P z h. (z, s.scanned_left P z h.1);
        scanned_started = elim s.scanned_started [
          | inl (app, idle, noted, more, from) ↦ inl (app, idle, noted, more, λ P h. from P h.1)
          | inr (same, wait) ↦ inr (same, (tt, wait))
        ];
      },
    )
scan_lem answer (some input ∷ entries) p ok room fresh =
    elim (Bool-cases (is_running input.app p)) [
      | inl busy ↦
          let (left, q, e, s) = scan_lem answer entries p ok room fresh in
          (
            some input ∷ left,
            q,
            rw (busy, e) (ground arith),
            record {
              scanned_max = s.scanned_max;
              scanned_ended = s.scanned_ended;
              scanned_accounts = s.scanned_accounts;
              scanned_left = λ P z h. (h.0, s.scanned_left P z h.1);
              scanned_started = elim s.scanned_started [
                | inl (app, idle, noted, more, from) ↦
                    inl (app, idle, noted, more, λ P h. from P h.1)
                | inr (same, wait) ↦ inr (same, (busy, wait))
              ];
            },
          )
      | inr idle ↦
          let (t, elsewhere, tried) = try_one_lem (answer input) input p (fresh input) in
          elim tried [
            | inl (e, l) ↦
                let new : count input.app (keys p.running) ≡ 0 = rw idle at (ok.single input.app) in
                let one_more : length t.running ≡ length p.running + 1 =
                  rw l.noted (length-insert input.app true p.running new) in
                (
                  none ∷ entries,
                  t,
                  rw (idle, e, scan_started answer entries t),
                  record {
                    scanned_max = elsewhere.same_max;
                    scanned_ended = elsewhere.same_ended;
                    scanned_accounts = launched_accounts input p t ok idle room elsewhere l;
                    scanned_left = λ P z h. (z, h.1);
                    scanned_started =
                        inl (input.app, idle, l.noted, one_more, λ P h. (input, refl, h.0));
                  },
                )
            | inr (e, f) ↦
                let accounts : Accounted t = failed_accounts input p t ok elsewhere f in
                let space : length t.running < t.max_num =
                  rw (f.same_running, elsewhere.same_max) room in
                let (left, q, e', s) =
                  scan_lem answer entries t accounts space
                    (λ other iid started. rw f.same_hmap (fresh other iid started)) in
                (
                  none ∷ left,
                  q,
                  rw (idle, e, e'),
                  record {
                    scanned_max = s.scanned_max ∙ elsewhere.same_max;
                    scanned_ended = s.scanned_ended ∙ elsewhere.same_ended;
                    scanned_accounts = s.scanned_accounts;
                    scanned_left = λ P z h. (z, s.scanned_left P z h.1);
                    scanned_started = elim s.scanned_started [
                      | inl (app, free, noted, more, from) ↦ inl (
                        app,
                        subst (λ r. runs app r ≡ false) f.same_running free,
                        noted ∙ ap (insert app true) f.same_running,
                        more ∙ ap (λ (r : Map GoString Bool). length r + 1) f.same_running,
                        λ P h. from P h.1,
                      )
                      | inr (same, wait) ↦ inr (
                        same ∙ f.same_running,
                        (tt, subst (λ r. All (Waits r) left) f.same_running wait),
                      )
                    ];
                  },
                )
          ]
    ]
