-- ===== src/Helpers/Accounts.antt =====
-- launch_helper/kindpool.go: which helpers run. The loop's map `running` says the same as the table
-- of the helpers that have not ended and the applications that wait to be noted as done.
use push_component.Base.{
  ℕ, zero, suc, ◌+◌, ◌≤◌, ◌<◌, ◌≡◌, inl, inr, Bool, true, false, List, [], ◌∷◌, ◌++◌, none, some,
  GoString, string_Eq, str_eq, str_eq_iff, length, get_or, if◌then◌else◌, Map, lookup, insert,
  delete, lookup-insert, lookup-delete, keys, IsDistinct, keys-insert-IsDistinct,
  keys-delete-IsDistinct, arith, Option-cases,
}
use push_component.Helpers.{HelperArgs, pick_ended}
use push_component.Helpers.Counts.{
  count, count-append, count-keys-delete, length-delete, count-keys-insert, length-insert, weigh,
  weigh-insert_new, weigh-insert_old, weigh-delete,
}

abbrev pub for_app : GoString → HelperArgs → ℕ
for_app a args = if str_eq args.input.app a then 1 else 0

abbrev pub runs : GoString → Map GoString Bool → Bool
runs app running = get_or (lookup app running) false

pub record IsAccounted (max : ℕ) (running : Map GoString Bool) (hmap : Map GoString HelperArgs)
    (ended : List GoString) : Type 0 where
  pub small : length running ≤ max
  pub single : (a : GoString) → count a (keys running) ≡ (if runs a running then 1 else 0)
  pub uids : IsDistinct (keys hmap)
  pub accounted : (a : GoString) → count a (keys running) ≡ weigh (for_app a) hmap + count a ended

module _ (max : ℕ) (running : Map GoString Bool) (hmap : Map GoString HelperArgs)
    (ended : List GoString) (ok : IsAccounted max running hmap ended) where
  -- A helper for an application that has none is launched.
  pub launched-IsAccounted :
      (app uid : GoString) (args : HelperArgs)
      → args.input.app ≡ app
      → runs app running ≡ false
      → length running < max
      → lookup uid hmap ≡ none
      → IsAccounted max (insert app true running) (insert uid args hmap) ended
  launched-IsAccounted app uid args own idle room unused =
      let new : count app (keys running) ≡ 0 = rw idle at (ok.single app) in
      record {
        small = omega (arith, length-insert app true running new, room);
        single = λ a. ground (
          arith,
          count-keys-insert app a true running new,
          lookup-insert app a true running,
          ok.single a,
          str_eq_iff app a,
        );
        uids = keys-insert-IsDistinct uid args hmap ok.uids;
        accounted = λ a. ground (
          arith,
          count-keys-insert app a true running new,
          weigh-insert_new (for_app a) uid args hmap unused,
          ok.accounted a,
          own,
        );
      }

  -- A helper ends, and its application waits.
  pub ended-IsAccounted :
      (uid : GoString) (args : HelperArgs)
      → lookup uid hmap ≡ some args
      → IsAccounted max running (delete uid hmap) (ended ++ args.input.app ∷ [])
  ended-IsAccounted uid args found = record {
    small = ok.small;
    single = ok.single;
    uids = keys-delete-IsDistinct uid hmap ok.uids;
    accounted = λ a. omega (
      arith,
      ok.accounted a,
      weigh-delete (for_app a) uid args hmap ok.uids found,
      count-append a ended (args.input.app ∷ []),
    );
  }

  -- A helper's arguments change, but not its input.
  pub changed-IsAccounted :
      (uid : GoString) (args args' : HelperArgs)
      → lookup uid hmap ≡ some args
      → args'.input ≡ args.input
      → IsAccounted max running (insert uid args' hmap) ended
  changed-IsAccounted uid args args' found same = record {
    small = ok.small;
    single = ok.single;
    uids = keys-insert-IsDistinct uid args' hmap ok.uids;
    accounted = λ a.
        let w : for_app a args' ≡ for_app a args = rw same in
        omega (arith, ok.accounted a, weigh-insert_old (for_app a) uid args' args hmap found, w);
  }

-- Taking one of those that wait.
count-pick_ended :
    (i : ℕ) (ended rest : List GoString) (app a : GoString)
    → pick_ended i ended ≡ some (app, rest)
    → count a ended ≡ (if str_eq app a then 1 else 0) + count a rest
unfolding pick_ended
count-pick_ended i [] rest app a h = cc
count-pick_ended zero (x ∷ xs) rest app a h = ground (arith, h)
count-pick_ended (suc i) (x ∷ xs) rest app a h = elim (Option-cases (pick_ended i xs)) [
  | inl nothing ↦ cc
  | inr ((found, others), e) ↦ ground (arith, h, e, count-pick_ended i xs others found a e)
]

-- The loop notes an application as done: there is room for one more.
pub done-IsAccounted :
    (max i : ℕ) (running : Map GoString Bool) (hmap : Map GoString HelperArgs)
    (ended rest : List GoString) (app : GoString)
    → IsAccounted max running hmap ended
    → pick_ended i ended ≡ some (app, rest)
    → IsAccounted max (delete app running) hmap rest
      × (length (delete app running) + 1 ≡ length running)
      × (runs app running ≡ true)
done-IsAccounted max i running hmap ended rest app ok picked =
    let one : count app ended ≡ 1 + count app rest =
      ground (arith, count-pick_ended i ended rest app app picked, str_eq_iff app app) in
    let did_run : runs app running ≡ true = ground (arith, ok.single app, ok.accounted app, one) in
    let width : length (delete app running) + 1 ≡ length running =
      omega (arith, length-delete app running, ok.single app, rw did_run at (ok.single app)) in
    (
      record {
        small = omega (arith, ok.small, width);
        single = λ a.
            ground
              (arith, count-keys-delete app a running, lookup-delete app a running, ok.single a);
        uids = ok.uids;
        accounted = λ a. ground (
          arith,
          count-keys-delete app a running,
          count-pick_ended i ended rest app a picked,
          ok.accounted a,
          ok.single a,
          str_eq_iff app a,
        );
      },
      width,
      did_run,
    )
