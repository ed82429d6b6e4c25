-- ===== src/Client/Connect.antt =====
-- client/session/session.go: connect and the delays between its calls.
use push_component.Base.{
  ℕ, zero, suc, ◌+◌, ◌≤◌, ◌<◌, ◌≡◌, refl, sym, ap, subst, inl, inr, Bool, true, false, List, [],
  ◌∷◌, ◌++◌, none, some, GoString, length, get_elem?, take, ltb, nat_eq, if◌then◌else◌, arith,
  Bool-cases,
}
use push_component.Client.Session.{
  ClientSession, error, connected, hosts_of, start_connection_attempt, next_host_to_try, started,
  connect_loop, connect, redial_delay,
}
use push_component.Client.Hosts.{from_host, IsReady, IsSame, loop_refused, loop_answered}

beyond_end {ℓ} : {A : Type ℓ} (xs : List A) (i : ℕ) → length xs ≤ i → get_elem? xs i ≡ none
beyond_end [] i h = refl
beyond_end (x ∷ xs) zero h = absurd (omega arith)
beyond_end (x ∷ xs) (suc i) h = beyond_end xs i (omega arith)

within {ℓ} :
    {A : Type ℓ} (xs : List A) (i : ℕ) → i < length xs → (a : A) × (get_elem? xs i ≡ some a)
within [] i h = absurd (omega arith)
within (x ∷ xs) zero h = (x, refl)
within (x ∷ xs) (suc i) h = within xs i (omega arith)

-- The host number that connect begins with: the first one, where the last attempt is long ago.
abbrev pub first_host : ℕ → ClientSession → ℕ
first_host now sess =
    if ltb (sess.last_attempt_timestamp + sess.expect_all_repaired_time) now
    then 0
    else sess.try_host

attempted : ℕ → ClientSession → ClientSession
attempted now sess = record sess {
  should_delay = true;
  try_host = first_host now sess;
  left_to_try = length (hosts_of sess);
  last_attempt_timestamp = now;
}

attempted-IsReady : (now : ℕ) (sess : ClientSession) → IsReady sess → IsReady (attempted now sess)
unfolding attempted
attempted-IsReady now sess ready = record {
  some_named = ready.some_named;
  in_range =
      elim (Bool-cases (ltb (sess.last_attempt_timestamp + sess.expect_all_repaired_time) now)) [
        | inl e ↦ rw e (omega (arith, ready.in_range))
        | inr e ↦ rw e ready.in_range
      ];
}

attempt_lem :
    (dial : ℕ → Bool) (now : ℕ) (sess : ClientSession)
    → 0 < length (hosts_of sess)
    → connect dial now sess
      ≡ connect_loop dial (suc (length (hosts_of sess))) 0 (attempted now sess)
unfolding connect start_connection_attempt attempted
attempt_lem dial now sess h =
    let some_hosts : nat_eq (length (hosts_of sess)) 0 ≡ false = ground arith in rw some_hosts

-- A session that has started again at its host: the next attempt starts there.
next_attempt :
    (later : ℕ) (h : GoString) (sess last : ClientSession)
    → IsSame sess last
    → 0 < length (hosts_of sess)
    → get_elem? (hosts_of sess) (started last).try_host ≡ some h
    → later ≤ sess.last_attempt_timestamp + sess.expect_all_repaired_time
    → (next : ClientSession) × (start_connection_attempt later (started last) ≡ some next)
      × (get_elem? (hosts_of next) next.try_host ≡ some h)
      × (next.left_to_try ≡ length (hosts_of sess))
unfolding start_connection_attempt started
next_attempt later h sess last same room again soon =
    let kept : hosts_of (started last) ≡ hosts_of sess = same.same_hosts in
    let some_hosts : nat_eq (length (hosts_of (started last))) 0 ≡ false = ground (arith, kept) in
    let recent : ltb
          ((started last).last_attempt_timestamp + (started last).expect_all_repaired_time) later
        ≡ false =
      ground (arith, same.same_time, same.same_limit, soon) in
    (
      record (started last) {
        left_to_try = length (hosts_of (started last));
        last_attempt_timestamp = later;
      },
      simp (some_hosts, recent),
      subst (λ hs. get_elem? hs (started last).try_host ≡ some h) (sym kept) again,
      ap (λ hs. length hs) kept,
    )

-- A call of connect on a session with hosts, none with an empty name, and with a host number that is
-- one of them, in which the attempt `k` is the first that is answered, for `k` less than the
-- number of hosts: it tries the first `k + 1` hosts in the order from its first host on and around,
-- and it is connected to the last of them. If the session then starts, and the next attempt comes
-- with the same hosts and no later after this one than ExpectAllRepairedTime, then that attempt
-- begins with that same host, and has as many tries as there are hosts.
pub connect_answered :
    (dial : ℕ → Bool) (k now later : ℕ) (sess : ClientSession)
    → IsReady sess
    → k < length (hosts_of sess)
    → dial k ≡ true
    → ((j : ℕ) → j < k → dial j ≡ false)
    → later ≤ now + sess.expect_all_repaired_time
    → (last : ClientSession) × (h : GoString) × (front : List GoString) × (connect dial now sess
        ≡ some (last, front ++ h ∷ [], true))
      × (front ++ h ∷ [] ≡ take (suc k) (from_host (first_host now sess) (hosts_of sess)))
      × (last.state ≡ connected)
      × (get_elem? (hosts_of sess) (started last).try_host ≡ some h)
      × (next : ClientSession) × (start_connection_attempt later (started last) ≡ some next)
      × (get_elem? (hosts_of next) next.try_host ≡ some h)
      × (next.left_to_try ≡ length (hosts_of sess))
unfolding attempted
connect_answered dial k now later sess ready room answer refuse soon =
    let at : 0 + k ≡ k = omega arith in
    let (last, h, front, run, tried, ended, again, same) =
      loop_answered dial k (length (hosts_of sess)) 0 (attempted now sess)
        (attempted-IsReady now sess ready) refl (omega arith) room
        (subst (λ n. dial n ≡ true) (omega arith) answer)
        (λ j b. subst (λ n. dial n ≡ false) (omega arith) (refuse j b)) in
    let (next, starts, same_host, tries) =
      next_attempt later h (attempted now sess) last same (omega arith) again soon in
    (
      last,
      h,
      front,
      rw (attempt_lem dial now sess (omega arith), run),
      tried,
      ended,
      again,
      next,
      starts,
      same_host,
      tries,
    )

-- A call of connect on a session with hosts, none with an empty name, and with a host number that is
-- one of them, that no host answers: it tries every host exactly once, in the order from its
-- first host on and around, and it ends in the state Error.
pub connect_refused :
    (dial : ℕ → Bool) (now : ℕ) (sess : ClientSession)
    → IsReady sess
    → ((j : ℕ) → dial j ≡ false)
    → (last : ClientSession) × (connect dial now sess
        ≡ some (
          last,
          take (length (hosts_of sess)) (from_host (first_host now sess) (hosts_of sess)),
          false,
        ))
      × (last.state ≡ error)
unfolding attempted
connect_refused dial now sess ready refuse =
    let (last, run, failed) =
      loop_refused dial (length (hosts_of sess)) 0 (attempted now sess)
        (attempted-IsReady now sess ready) refl (omega arith) refuse in
    (last, rw (attempt_lem dial now sess (omega (arith, ready.in_range)), run), failed)

-- A call of connect panics where there are hosts but fewer than the host number to begin with, as
-- after a list of hosts that is shorter than the one before.
pub connect_fewer_hosts :
    (dial : ℕ → Bool) (now : ℕ) (sess : ClientSession)
    → 0 < length (hosts_of sess)
    → length (hosts_of sess) ≤ first_host now sess
    → connect dial now sess ≡ none
unfolding connect_loop next_host_to_try attempted
connect_fewer_hosts dial now sess h beyond =
    let some_hosts : nat_eq (length (hosts_of sess)) 0 ≡ false = ground arith in
    rw (
      attempt_lem dial now sess h,
      connect_loop,
      next_host_to_try,
      some_hosts,
      beyond_end (hosts_of sess) (first_host now sess) beyond,
    )

-- The delay before an attempt. Without a need for one it is 0 and the delays start over. With one,
-- where the index is one of the delays', it is the delay at the index with its jitter, and the index
-- moves to the next delay, or stays at the last one.
pub redial_delay_lem :
    (jittered : ℕ → ℕ) (sess : ClientSession)
    → sess.redial_delays_idx < length sess.redial_delays
    → (t : ℕ) × (next : ClientSession) × (redial_delay jittered sess ≡ some (t, next))
      × (next.redial_delays_idx < length next.redial_delays)
      × (sess.should_delay ≡ false → (t ≡ 0) × (next.redial_delays_idx ≡ 0))
      × (sess.should_delay ≡ true
          → ((d : ℕ) × (get_elem? sess.redial_delays sess.redial_delays_idx ≡ some d)
              × (t ≡ jittered d))
            × (sess.redial_delays_idx ≤ next.redial_delays_idx)
            × (next.redial_delays_idx ≤ suc sess.redial_delays_idx)
            × (suc next.redial_delays_idx < length sess.redial_delays
                → next.redial_delays_idx ≡ suc sess.redial_delays_idx))
unfolding redial_delay
redial_delay_lem jittered sess bound = elim (Bool-cases sess.should_delay) [
  | inr off ↦ (
    0,
    record sess { redial_delays_idx = 0 },
    rw off,
    omega (arith, bound),
    λ h. (refl, refl),
    λ h. absurd (ground arith),
  )
  | inl on ↦
      let (d, found) = within sess.redial_delays sess.redial_delays_idx bound in
      elim (Bool-cases (ltb (sess.redial_delays_idx + 1) (length sess.redial_delays))) [
        | inl more ↦ (
          jittered d,
          record sess { redial_delays_idx = sess.redial_delays_idx + 1 },
          simp (on, found, more),
          ground arith,
          λ h. absurd (ground arith),
          λ h. ((d, found, refl), omega arith, omega arith, λ b. omega arith),
        )
        | inr at_end ↦ (
          jittered d,
          record sess { should_delay = true },
          simp (on, found, at_end),
          bound,
          λ h. absurd (ground arith),
          λ h.
              ((d, found, refl), omega arith, omega arith, λ b. absurd (ground (arith, at_end, b))),
        )
      ]
]
