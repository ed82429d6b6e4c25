-- ===== src/Client/Hosts.antt =====
-- client/session/session.go: the order in which connect tries the hosts.
use push_component.Base.{
  ℕ, zero, suc, ◌+◌, ◌-◌, ◌%◌, ◌≤◌, ◌<◌, ◌≡◌, ◌≢◌, refl, sym, ap, ◌∙◌, subst, ◌⊎◌, inl, inr, Bool,
  true, false, List, [], ◌∷◌, ◌++◌, some, GoString, str_eq, str_eq_iff, length, get_elem?, take,
  drop, take-append_left, ltb, nat_eq, All, if◌then◌else◌, arith, Bool-cases,
}
use native.Mathlib.Nat.{mod_self, mod-lt, mod-eq_of_lt}
use push_component.Client.Session.{
  ClientSession, error, connected, hosts_of, next_host_to_try, started, connect_loop,
}

-- The hosts in the order from the host number `t` on, and around.
abbrev pub from_host : ℕ → List GoString → List GoString
from_host t hosts = drop t hosts ++ hosts

at-All :
    (hosts : List GoString) (t : ℕ)
    → t < length hosts
    → All (λ h. h ≢ []) hosts
    → (h : GoString) × (get_elem? hosts t ≡ some h)
      × (h ≢ [])
      × (drop t hosts ≡ h ∷ drop (suc t) hosts)
at-All [] t b p = absurd (omega arith)
at-All (h ∷ hosts) zero b p = (h, refl, p.0, refl)
at-All (h ∷ hosts) (suc t) b p = at-All hosts t (omega arith) p.1

after_next :
    (t n : ℕ) → t < n → ((suc t < n) × ((t + 1) % n ≡ suc t)) ⊎ ((suc t ≡ n) × ((t + 1) % n ≡ 0))
after_next t n h = elim (Bool-cases (ltb (suc t) n)) [
  | inl inside ↦
      let e : t + 1 ≡ suc t = omega arith in
      let b : suc t < n = ground arith in inl (b, rw e (mod-eq_of_lt b))
  | inr past ↦ let e : t + 1 ≡ n = ground (arith, h) in inr (omega arith, rw e (mod_self n))
]

drop_end : (hosts : List GoString) (t : ℕ) → t ≡ length hosts → drop t hosts ≡ []
drop_end [] zero e = refl
drop_end [] (suc t) e = absurd (omega arith)
drop_end (h ∷ hosts) zero e = absurd (omega arith)
drop_end (h ∷ hosts) (suc t) e = drop_end hosts t (omega arith)

-- The hosts from one on are that one, and those from the next one on.
take-from_host :
    (hosts : List GoString) (h : GoString) (t l : ℕ)
    → t < length hosts
    → l < length hosts
    → drop t hosts ≡ h ∷ drop (suc t) hosts
    → take (suc l) (from_host t hosts) ≡ h ∷ take l (from_host ((t + 1) % length hosts) hosts)
take-from_host hosts h t l b room e = elim (after_next t (length hosts) b) [
  | inl (inside, m) ↦ rw (e, m)
  | inr (past, m) ↦
      rw (e, m, drop_end hosts (suc t) past)
        (ap (◌∷◌ h) (sym (take-append_left l hosts hosts (omega arith))))
]

-- Going back from the host after `t` leads to `t`.
back : (t n : ℕ) → t < n → (if nat_eq ((t + 1) % n) 0 then n - 1 else (t + 1) % n - 1) ≡ t
back t n h = elim (after_next t n h) [
  | inl (inside, m) ↦ rw m (ground arith)
  | inr (past, m) ↦ rw m (omega arith)
]

-- What connect needs of a session: hosts, none of them empty, and a host number that is one of them.
pub record IsReady (sess : ClientSession) : Type 0 where
  pub some_named : All (λ h. h ≢ []) (hosts_of sess)
  pub in_range : sess.try_host < length (hosts_of sess)

not_empty : (h : GoString) → h ≢ [] → str_eq h [] ≡ false
not_empty h k = elim (Bool-cases (str_eq h [])) [
  | inl e ↦ absurd (k ((str_eq_iff h []).0 e))
  | inr e ↦ e
]

next_host_lem :
    (sess : ClientSession) (l : ℕ)
    → IsReady sess
    → sess.left_to_try ≡ suc l
    → (h : GoString) × (h ≢ [])
      × (get_elem? (hosts_of sess) sess.try_host ≡ some h)
      × (drop sess.try_host (hosts_of sess) ≡ h ∷ drop (suc sess.try_host) (hosts_of sess))
      × (next_host_to_try sess
          ≡ some (
            h,
            record sess {
              try_host = (sess.try_host + 1) % length (hosts_of sess);
              left_to_try = l;
            },
          ))
unfolding next_host_to_try
next_host_lem sess l ready e =
    let (h, found, named, dropped) =
      at-All (hosts_of sess) sess.try_host ready.in_range ready.some_named in
    let more : nat_eq sess.left_to_try 0 ≡ false = ground (arith, e) in
    let fewer : sess.left_to_try - 1 ≡ l = omega (arith, e) in
    (h, named, found, dropped, rw (more, found, fewer))

advanced : ClientSession → ℕ → ClientSession
advanced sess l = record sess {
  try_host = (sess.try_host + 1) % length (hosts_of sess);
  left_to_try = l;
}

advanced-IsReady : (sess : ClientSession) (l : ℕ) → IsReady sess → IsReady (advanced sess l)
unfolding advanced
advanced-IsReady sess l ready = record {
  some_named = ready.some_named;
  in_range = mod-lt (sess.try_host + 1) (omega (arith, ready.in_range));
}

-- A loop that no host answers.
pub loop_refused :
    (dial : ℕ → Bool) (l i : ℕ) (sess : ClientSession)
    → IsReady sess
    → sess.left_to_try ≡ l
    → l ≤ length (hosts_of sess)
    → ((j : ℕ) → dial j ≡ false)
    → (last : ClientSession) × (connect_loop dial (suc l) i sess
        ≡ some (last, take l (from_host sess.try_host (hosts_of sess)), false))
      × (last.state ≡ error)
unfolding connect_loop next_host_to_try advanced str_eq
loop_refused dial zero i sess ready e bound refuse = (record sess { state = error }, rw e, refl)
loop_refused dial (suc l) i sess ready e bound refuse =
    let (h, named, found, dropped, next) = next_host_lem sess l ready e in
    let (last, rest, failed) =
      loop_refused dial l (suc i) (advanced sess l) (advanced-IsReady sess l ready) refl
        (omega arith) refuse in
    (
      last,
      rw (
        connect_loop,
        next,
        not_empty h named,
        refuse i,
        rest,
        take-from_host (hosts_of sess) h sess.try_host l ready.in_range (omega arith) dropped,
      ),
      failed,
    )

-- What the tries of one attempt leave as it is: the hosts, the time of the attempt and the time
-- after which the hosts are tried from the first one.
pub record IsSame (sess last : ClientSession) : Type 0 where
  pub same_hosts : hosts_of last ≡ hosts_of sess
  pub same_time : last.last_attempt_timestamp ≡ sess.last_attempt_timestamp
  pub same_limit : last.expect_all_repaired_time ≡ sess.expect_all_repaired_time

-- A loop in which the attempt `k` is the first that is answered.
pub loop_answered :
    (dial : ℕ → Bool) (k l i : ℕ) (sess : ClientSession)
    → IsReady sess
    → sess.left_to_try ≡ l
    → l ≤ length (hosts_of sess)
    → k < l
    → dial (i + k) ≡ true
    → ((j : ℕ) → j < k → dial (i + j) ≡ false)
    → (last : ClientSession) × (h : GoString) × (front : List GoString) × (connect_loop dial
          (suc l)
          i
          sess
        ≡ some (last, front ++ h ∷ [], true))
      × (front ++ h ∷ [] ≡ take (suc k) (from_host sess.try_host (hosts_of sess)))
      × (last.state ≡ connected)
      × (get_elem? (hosts_of sess) (started last).try_host ≡ some h)
      × IsSame sess last
unfolding connect_loop advanced started
loop_answered dial k zero i sess ready e bound room answer refuse = absurd (omega arith)
loop_answered dial zero (suc l) i sess ready e bound room answer refuse =
    let (h, named, found, dropped, next) = next_host_lem sess l ready e in
    let first : dial i ≡ true = subst (λ n. dial n ≡ true) (omega arith) answer in
    (
      record (advanced sess l) { has_connection = true; state = connected },
      h,
      [],
      rw (connect_loop, next, not_empty h named, first),
      sym (rw dropped),
      refl,
      subst (λ t. get_elem? (hosts_of sess) t ≡ some h)
          (sym (back sess.try_host (length (hosts_of sess)) ready.in_range)) found,
      record { same_hosts = refl; same_time = refl; same_limit = refl },
    )
loop_answered dial (suc k) (suc l) i sess ready e bound room answer refuse =
    let (h, named, found, dropped, next) = next_host_lem sess l ready e in
    let first : dial i ≡ false =
      subst (λ n. dial n ≡ false) (omega arith) (refuse 0 (omega arith)) in
    let (last, g, front, run, tried, ended, again, same) =
      loop_answered dial k l (suc i) (advanced sess l) (advanced-IsReady sess l ready) refl
        (omega arith) (omega arith) (subst (λ n. dial n ≡ true) (omega arith) answer)
        (λ j b. subst (λ n. dial n ≡ false) (omega arith) (refuse (suc j) (omega arith))) in
    (
      last,
      g,
      h ∷ front,
      rw (connect_loop, next, not_empty h named, first, run),
      ap (◌∷◌ h) tried
          ∙ sym (
              take-from_host (hosts_of sess) h sess.try_host (suc k) ready.in_range (omega arith)
                dropped),
      ended,
      again,
      record {
        same_hosts = same.same_hosts;
        same_time = same.same_time;
        same_limit = same.same_limit;
      },
    )
