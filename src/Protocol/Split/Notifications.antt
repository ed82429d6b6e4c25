-- ===== src/Protocol/Split/Notifications.antt =====
-- NotificationsMsg under the sending loop.
use push_component.Base.{
  ℕ, ◌≤◌, ◌<◌, ◌≡◌, refl, true, false, List, ◌++◌, none, some, ◌>>=◌, arith, length, take, drop,
  nat_eq, All, length-drop, length-take,
}
use push_component.Base.Slice.{slice, slice_prefix, slice_rest}
use push_component.Protocol.Messages.{
  Notification, NotificationsMsg, notifications_split, notifications_next, notifications_cut,
  notification_size, overflow_at, max_payload_size,
}
use push_component.Protocol.Split.{total, send_all, send_all_lem, all_parts}

abbrev pub carried : NotificationsMsg → List Notification
carried m = m.notifications.elems

-- These messages carry no level.
abbrev no_level {ℓ} : {A : Type ℓ} → A → ℕ
no_level a = 0

module _ (overhead : ℕ) where
  -- The next call sends `xs`.
  record Ready (prev : ℕ) (xs : List Notification) (m : NotificationsMsg) : Type 0 where
    next : NotificationsMsg
    loaded : notifications_next overhead m ≡ some next
    holds : carried next ≡ xs

  finishes :
      (prev : ℕ) (xs : List Notification) (m : NotificationsMsg)
      → Ready prev xs m
      → overflow_at (notification_size overhead) 0 0 xs ≡ none
      → (m' : NotificationsMsg) × (notifications_split overhead m ≡ some (m', true))
        × (carried m' ≡ xs)
        × (no_level m' ≡ 0)
  unfolding notifications_split
  finishes prev xs m r e = (r.next, rw (r.loaded, ◌>>=◌, r.holds, e), r.holds, refl)

  cuts :
      (prev : ℕ) (xs : List Notification) (m : NotificationsMsg) (i : ℕ)
      → Ready prev xs m
      → overflow_at (notification_size overhead) 0 0 xs ≡ some i
      → 0 < i
      → i < length xs
      → (m' : NotificationsMsg) × (notifications_split overhead m ≡ some (m', false))
        × (carried m' ≡ take i xs)
        × (no_level m' ≡ 0)
        × Ready (no_level m') (drop i xs) m'
  unfolding notifications_split
  cuts prev xs m i r e pos inside = (
    cut,
    rw (r.loaded, ◌>>=◌, r.holds, e, notifications_cut, first, r.holds),
    rw r.holds,
    refl,
    record { next = rest; loaded = loaded; holds = rw r.holds },
  )
    where
      old : List Notification
      old = carried r.next

      cut : NotificationsMsg
      cut = record r.next {
        splitting = length old;
        notifications = record {
          elems = take i old;
          beyond = drop i old ++ r.next.notifications.beyond;
        };
      }

      rest : NotificationsMsg
      rest = record cut {
        notifications = record { elems = drop i old; beyond = r.next.notifications.beyond };
      }

      room : i < length old
      room = rw r.holds inside

      first : slice 0 i r.next.notifications ≡ some cut.notifications
      first = slice_prefix i r.next.notifications (omega (arith, room))

      again : slice (length (take i old)) (length old) cut.notifications ≡ some rest.notifications
      again =
          slice_rest (take i old) (drop i old) r.next.notifications.beyond (length old)
            (omega (arith, room, length-take i old, length-drop i old))

      busy : nat_eq (length old) 0 ≡ false
      busy = ground (arith, room)

      loaded : notifications_next overhead cut ≡ some rest
      loaded = rw (notifications_next, busy, again, ◌>>=◌)

  fresh_next : (m : NotificationsMsg) → m.splitting ≡ 0 → notifications_next overhead m ≡ some m
  unfolding notifications_next
  fresh_next m fresh = ground arith

  -- Unicast notifications none of which is over the limit, the overhead of its encoding included,
  -- are sent in at most one more message than there are notifications, whatever that overhead is:
  -- the messages carry them all in order, each within the limit.
  pub send_all-notifications :
      (m : NotificationsMsg) (fuel : ℕ)
      → m.splitting ≡ 0
      → All (λ n. notification_size overhead n ≤ max_payload_size) m.notifications.elems
      → length m.notifications.elems < fuel
      → (ms : List NotificationsMsg) × (send_all (notifications_split overhead) fuel m ≡ some ms)
        × (all_parts carried ms ≡ m.notifications.elems)
        × All (λ m. total (notification_size overhead) (carried m) ≤ max_payload_size) ms
  send_all-notifications m fuel fresh fit more =
      let ready : Ready 0 (carried m) m = record {
        next = m;
        loaded = fresh_next m fresh;
        holds = refl;
      } in
      let (ms, (s, p, f, l)) =
        send_all_lem (notifications_split overhead) carried no_level (λ _ _. 0)
          (notification_size overhead) Ready finishes cuts fuel 0 (carried m) m ready fit more in
      (ms, s, p, f)
