-- ===== src/Api/Notify.antt =====
-- What a request to notify does to the pending store of server/store/inmemory.go.
use push_component.Base.{
  ℕ, ◌+◌, ◌<◌, ◌≡◌, refl, inl, inr, Bool, true, false, not, ◌&&◌, List, [], ◌∷◌, ◌++◌, Option, some,
  none, ◌>>=◌, GoString, string_Eq, str_eq, lookup, length, select, ltb, if◌then◌else◌, arith,
  Bool-cases, Option-cases, ◌∙◌,
}
use push_component.Base.Results.{Result, ok}
use push_component.Protocol.Messages.{Notification}
use push_component.Store.Filter.{Metadata, before}
use push_component.Store.Filter.Obsolete.{Entry, zip}
use push_component.Store.InMemory.{
  Store, get_channel_unfiltered, append_to_unicast_channel, scrub, scrub_criteria,
}
use push_component.Store.InMemory.Token.{Base64}
use push_component.Store.InMemory.Views.{entries}
use push_component.Store.InMemory.Invariant.{Call, scrubs, after, run, channel_at}
use push_component.Broker.Simple.{unicast_delivery}
use push_component.Api.Errors.{ApiError}
use push_component.Api.Requests.{Unicast}
use push_component.Api.PendingStore.{in_memory}
use push_component.Api.Handlers.{
  Context, Server, Peek, no_peek, peek, peek_step, scrub_criteria_for, notify_channel,
}

abbrev is_empty : GoString → Bool
is_empty s = str_eq s []

-- Whether an entry counts against the limit of an application: it has not expired, it is the
-- application's, and the new notification does not replace it by its tag.
abbrev pub counts : ℕ → GoString → GoString → Entry → Bool
counts now app_id replace_tag (n, m) =
    not (before m now)
    && (str_eq n.app_id app_id
        && not (not (is_empty replace_tag) && str_eq replace_tag m.replace_tag))

-- A pass over paired lists ends, with the count of what counts, and with a last notification where
-- anything counts.
pub peek_lem :
    (now : ℕ) (app tag : GoString) (ns : List Notification) (ms : List Metadata) (p : Peek)
    → length ns ≡ length ms
    → (0 < p.for_app → p.last_is_set ≡ true)
    → (q : Peek) × (peek now app tag ns ms p ≡ some q)
      × (q.for_app ≡ p.for_app + length (select (counts now app tag) (zip ns ms)))
      × (0 < q.for_app → q.last_is_set ≡ true)
unfolding peek peek_step
peek_lem now app tag [] [] p h last = (p, refl, omega arith, last)
peek_lem now app tag [] (m ∷ ms) p h last = absurd (omega arith)
peek_lem now app tag (n ∷ ns) [] p h last = absurd (omega arith)
peek_lem now app tag (n ∷ ns) (m ∷ ms) p h last =
    let kept : 0 < (peek_step now app tag n m p).for_app
        → (peek_step now app tag n m p).last_is_set ≡ true =
      ground arith in
    let (q, e, count, l) =
      peek_lem now app tag ns ms (peek_step now app tag n m p) (omega arith) kept in
    let one : (peek_step now app tag n m p).for_app
          + length (select (counts now app tag) (zip ns ms))
        ≡ p.for_app + length (select (counts now app tag) (zip (n ∷ ns) (m ∷ ms))) =
      ground arith in
    (q, e, count ∙ one, l)

pub unfiltered_lem :
    (k : GoString) (sto : Store)
    → get_channel_unfiltered k sto
      ≡ ((channel_at k sto).top_level, (channel_at k sto).notifications, (channel_at k sto).meta)
unfolding get_channel_unfiltered
unfiltered_lem k sto = elim (Option-cases (lookup k sto)) [
  | inl missing ↦ rw (missing, get_channel_unfiltered)
  | inr (ch, found) ↦ rw (found, get_channel_unfiltered)
]

scrub_lem :
    (now : ℕ) (k : GoString) (criteria : List GoString) (pair : GoString × GoString) (sto : Store)
    → scrub_criteria criteria ≡ some pair
    → scrub now k criteria sto ≡ some (after sto (scrubs now k criteria))
unfolding scrub after
scrub_lem now k criteria (app, tag) sto h = elim (Option-cases (lookup k sto)) [
  | inl missing ↦ rw (h, ◌>>=◌, missing)
  | inr (ch, found) ↦ rw (h, ◌>>=◌, found)
]

-- The calls of the store with which doUnicast clears the way, for the criteria it decided on.
abbrev pub cleared : ℕ → GoString → ℕ → List GoString → List Call
cleared now k expired [] = if ltb 0 expired then scrubs now k [] ∷ [] else []
cleared now k expired (c ∷ cs) = scrubs now k (c ∷ cs) ∷ []

module _ (base64 : Base64) (ctx : Context) (ucast : Unicast) (expire : ℕ) (app chan : GoString)
    (srv : Server Store) where
  -- The notification's metadata.
  abbrev pub new_metadata : Metadata
  new_metadata = record { expiration = expire; replace_tag = ucast.replace_tag; obsolete = false }

  -- The server once the calls `cs` have cleared the way, and the notification is stored.
  abbrev pub notified : List Call → Server Store
  notified cs = record {
    pending =
        append_to_unicast_channel chan app ucast.raw_data ctx.generated_msg_id new_metadata
          (run srv.pending cs);
    asked = srv.asked ++ unicast_delivery chan ∷ [];
  }

  abbrev pub pending_for_app : ℕ
  pending_for_app =
      length (select (counts ctx.now app ucast.replace_tag) (entries (channel_at chan srv.pending)))

  abbrev pub outcome : Option (Server Store × Result ApiError (Option GoString))
  outcome = notify_channel (in_memory base64) ctx ucast expire app chan srv

  pub notify_accepted :
      (q : Peek) (criteria : List GoString) (pair : GoString × GoString)
      → peek ctx.now app ucast.replace_tag
          (channel_at chan srv.pending).notifications
          (channel_at chan srv.pending).meta
          no_peek
        ≡ some q
      → scrub_criteria_for ctx ucast app q ≡ some (ok criteria)
      → scrub_criteria criteria ≡ some pair
      → outcome ≡ some (notified (cleared ctx.now chan q.expired criteria), ok none)
  unfolding notify_channel run
  notify_accepted q [] pair e d s = elim (Bool-cases (ltb 0 q.expired)) [
    | inl some_expired ↦ rw (
      notify_channel,
      unfiltered_lem chan srv.pending,
      e,
      ◌>>=◌,
      d,
      ◌>>=◌,
      some_expired,
      scrub_lem ctx.now chan [] pair srv.pending s,
    )
    | inr none_expired ↦
        rw (notify_channel, unfiltered_lem chan srv.pending, e, ◌>>=◌, d, ◌>>=◌, none_expired)
  ]
  notify_accepted q (c ∷ cs) pair e d s = elim (Bool-cases (ltb 0 q.expired)) [
    | inl some_expired ↦ rw (
      notify_channel,
      unfiltered_lem chan srv.pending,
      e,
      ◌>>=◌,
      d,
      ◌>>=◌,
      some_expired,
      scrub_lem ctx.now chan (c ∷ cs) pair srv.pending s,
    )
    | inr none_expired ↦ rw (
      notify_channel,
      unfiltered_lem chan srv.pending,
      e,
      ◌>>=◌,
      d,
      ◌>>=◌,
      none_expired,
      scrub_lem ctx.now chan (c ∷ cs) pair srv.pending s,
    )
  ]
