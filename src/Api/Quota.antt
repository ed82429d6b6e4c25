-- ===== src/Api/Quota.antt =====
-- The limit on an application's pending notifications, as doUnicast of server/api/handlers.go keeps
-- it over the in-memory store.
use push_component.Base.{
  ℕ, ◌+◌, ◌≤◌, ◌<◌, ◌≡◌, refl, ◌⊎◌, inl, inr, true, false, not, List, [], ◌∷◌, ◌++◌, some, none,
  ◌>>=◌, GoString, select, string_Eq, ltb, leb, arith, Bool-cases, All, ap, ◌∙◌, subst,
}
use push_component.Base.Int64.{modulus}
use push_component.Base.Results.{ok, err}
use push_component.Protocol.Messages.{Notification}
use push_component.Store.Filter.{before}
use push_component.Store.InMemory.{Store, get_channel_snapshot, scrub_criteria}
use push_component.Store.InMemory.Token.{Base64}
use push_component.Store.InMemory.Invariant.{
  Call, IsFresh, run, channel_at, channel_at-IsWellFormed, IsConsistent, run-IsConsistent,
}
use push_component.Store.Filter.Obsolete.{notifications_of, live_entries}
use push_component.Store.InMemory.Views.{entries}
use push_component.Store.InMemory.Appended.{replaced_by}
use push_component.Store.InMemory.Levels.{level_of, level_of-run, broadcasts}
use push_component.Store.InMemory.Pending.{append_to_unicast_channel-snapshot}
use push_component.Broker.Simple.{unicast_delivery}
use push_component.Api.Errors.{ApiError, err_too_many_pending_notifications, too_many_pending_label}
use push_component.Api.Requests.{Unicast}
use push_component.Api.PendingStore.{in_memory}
use push_component.Api.Handlers.{
  Context, Server, Peek, no_peek, peek, scrub_criteria_for, notify_channel,
}
use push_component.Api.Notify.{
  peek_lem, cleared, notified, pending_for_app, new_metadata, unfiltered_lem, notify_accepted,
}

-- Room for one more notification of the application, or a request to clear those that are pending.
abbrev pub HasRoom : Context → Unicast → ℕ → Type 0
HasRoom ctx ucast count = (ucast.clear_pending ≡ true) ⊎ (count < ctx.max_notifications)

criteria_accepted :
    (ctx : Context) (ucast : Unicast) (app : GoString) (q : Peek)
    → HasRoom ctx ucast q.for_app
    → (criteria : List GoString) × (pair : GoString × GoString) × (scrub_criteria_for ctx ucast app
          q
        ≡ some (ok criteria))
      × (scrub_criteria criteria ≡ some pair)
unfolding scrub_criteria_for scrub_criteria
criteria_accepted ctx ucast app q (inl clear) = (app ∷ [], (app, []), rw clear, refl)
criteria_accepted ctx ucast app q (inr room) =
    let under : leb ctx.max_notifications q.for_app ≡ false = ground arith in
    elim (Bool-cases ucast.clear_pending) [
      | inl clear ↦ (app ∷ [], (app, []), rw clear, refl)
      | inr kept ↦ elim (Bool-cases (ltb 0 q.replaceable)) [
        | inl tagged ↦
            (app ∷ ucast.replace_tag ∷ [], (app, ucast.replace_tag), rw (kept, under, tagged), refl)
        | inr untagged ↦ ([], ([], []), rw (kept, under, untagged), refl)
      ]
    ]

criteria_refused :
    (ctx : Context) (ucast : Unicast) (app : GoString) (q : Peek)
    → ucast.clear_pending ≡ false
    → ctx.max_notifications ≤ q.for_app
    → q.last_is_set ≡ true
    → ((s : GoString) → (b : GoString) × (ctx.marshal_raw s ≡ some b))
    → (e : ApiError) × (scrub_criteria_for ctx ucast app q ≡ some (err e))
      × (e.status_code ≡ 413)
      × (e.error_label ≡ too_many_pending_label)
unfolding scrub_criteria_for
criteria_refused ctx ucast app q kept over last marshals =
    let (b, e) = marshals q.notif.payload in
    let is_over : leb ctx.max_notifications q.for_app ≡ true = ground arith in
    (
      record err_too_many_pending_notifications { extra = b },
      rw (kept, is_over, last, e),
      refl,
      refl,
    )

cleared_lem :
    (now : ℕ) (k : GoString) (expired : ℕ) (criteria : List GoString)
    → All IsFresh (cleared now k expired criteria)
      × ((j : GoString) → broadcasts j (cleared now k expired criteria) ≡ 0)
unfolding broadcasts
cleared_lem now k expired [] = elim (Bool-cases (ltb 0 expired)) [
  | inl e ↦ rw e ((tt, tt), λ j. refl)
  | inr e ↦ rw e (tt, λ j. refl)
]
cleared_lem now k expired (c ∷ cs) = ((tt, tt), λ j. refl)

module _ (base64 : Base64) (ctx : Context) (ucast : Unicast) (expire : ℕ) (app chan : GoString)
    (srv : Server Store) (consistent : IsConsistent srv.pending) where
  abbrev peeked :
      (q : Peek) × (peek ctx.now app ucast.replace_tag
          (channel_at chan srv.pending).notifications
          (channel_at chan srv.pending).meta
          no_peek
        ≡ some q)
      × (q.for_app ≡ 0 + pending_for_app base64 ctx ucast expire app chan srv)
      × (0 < q.for_app → q.last_is_set ≡ true)
  peeked =
      peek_lem ctx.now app ucast.replace_tag _ _ no_peek
        (channel_at-IsWellFormed chan srv.pending consistent).paired
        (λ none_yet. absurd (omega arith))

  -- On a consistent store, in a channel whose level is a 64-bit number: with room for it, or with a
  -- request to clear what is pending, a notification that has not expired is accepted. The broker is
  -- asked once to deliver its channel, after what it was asked before, and the channel's next
  -- snapshot has the level as it was and this notification at its end.
  pub notify_channel-accepts :
      HasRoom ctx ucast (pending_for_app base64 ctx ucast expire app chan srv)
      → ctx.now ≤ expire
      → level_of chan srv.pending < modulus
      → let new : Notification = record {
        app_id = app;
        msg_id = ctx.generated_msg_id;
        payload = ucast.raw_data;
      } in
        (srv' : Server Store) × (notify_channel (in_memory base64) ctx ucast expire app chan srv
          ≡ some (srv', ok none))
        × (srv'.asked ≡ srv.asked ++ unicast_delivery chan ∷ [])
        × ((front : List Notification) × (get_channel_snapshot ctx.now chan srv'.pending
              ≡ (level_of chan srv.pending, front ++ new ∷ [])))
  notify_channel-accepts room fresh bound =
      let (q, e, count, last) = peeked in
      let (criteria, pair, decided, valid) =
        criteria_accepted ctx ucast app q (subst (HasRoom ctx ucast) (omega (arith, count)) room) in
      let cs : List Call = cleared ctx.now chan q.expired criteria in
      let (are_fresh, no_broadcast) = cleared_lem ctx.now chan q.expired criteria in
      let level : level_of chan (run srv.pending cs) ≡ level_of chan srv.pending =
        omega (arith, level_of-run srv.pending cs chan bound, no_broadcast chan, bound) in
      let in_time : before (new_metadata base64 ctx ucast expire app chan srv) ctx.now ≡ false =
        ground (arith, fresh) in
      let new : Notification = record {
        app_id = app;
        msg_id = ctx.generated_msg_id;
        payload = ucast.raw_data;
      } in
      let front : List Notification = notifications_of (
        select (λ e. not (replaced_by (new, new_metadata base64 ctx ucast expire app chan srv) e))
          (live_entries ctx.now (entries (channel_at chan (run srv.pending cs))))) in
      (
        notified base64 ctx ucast expire app chan srv cs,
        notify_accepted base64 ctx ucast expire app chan srv q criteria pair e decided valid,
        refl,
        (
          front,
          append_to_unicast_channel-snapshot ctx.now chan app ucast.raw_data ctx.generated_msg_id
                (new_metadata base64 ctx ucast expire app chan srv) (run srv.pending cs)
                (run-IsConsistent srv.pending cs are_fresh consistent) refl in_time
                (omega (arith, level, bound))
              ∙ ap (λ l. (l, front ++ new ∷ [])) level,
        ),
      )

  -- On a consistent store, without room and without a request to clear, a notification is refused with the status 413 and
  -- the label "too-many-pending", and the server is as before, for a limit above 0 and a json.Marshal
  -- that succeeds.
  pub notify_channel-refuses :
      0 < ctx.max_notifications
      → ((s : GoString) → (b : GoString) × (ctx.marshal_raw s ≡ some b))
      → ucast.clear_pending ≡ false
      → ctx.max_notifications ≤ pending_for_app base64 ctx ucast expire app chan srv
      → (e : ApiError) × (notify_channel (in_memory base64) ctx ucast expire app chan srv
          ≡ some (srv, err e))
        × (e.status_code ≡ 413)
        × (e.error_label ≡ too_many_pending_label)
  unfolding notify_channel
  notify_channel-refuses positive marshals kept over =
      let (q, e, count, last) = peeked in
      let (why, decided, status, label) =
        criteria_refused ctx ucast app q kept (omega (arith, count, over))
          (last (omega (arith, count, over, positive))) marshals in
      (why, rw (notify_channel, unfiltered_lem chan srv.pending, e, ◌>>=◌, decided), status, label)
