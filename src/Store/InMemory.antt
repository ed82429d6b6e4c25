-- ===== src/Store/InMemory.antt =====
-- server/store/inmemory.go: the store of pending notifications. A channel that the map points to is
-- changed in place, so its entry in the map is replaced. The lock makes each method one step. Errors
-- that the methods never return are left out of their results.
pub mod Token
pub mod Invariant
pub mod Views
pub mod Dropped
pub mod Appended
pub mod Levels
pub mod Scrubs
pub mod Pending
use push_component.Base.{
  ℕ, ◌+◌, Bool, true, false, ◌&&◌, List, [], ◌∷◌, ◌++◌, Option, none, some, ◌>>=◌, GoString,
  string_Eq, str_eq, get_or, if◌then◌else◌, Map, lookup, insert,
}
use push_component.Base.Int64.{add64}
use push_component.Protocol.Messages.{Notification}
use push_component.Store.Filter.{Metadata, is_empty, filter_out_by_msg_id, filter_out_obsolete}

pub record Channel : Type 0 where
  pub top_level : ℕ  -- int64
  pub notifications : List Notification
  pub meta : List Metadata

abbrev pub empty_channel : Channel
empty_channel = record { top_level = 0; notifications = []; meta = [] }

abbrev pub Store : Type 0
Store = Map GoString Channel

abbrev pub zero_metadata : Metadata
zero_metadata = record { expiration = 0; replace_tag = []; obsolete = false }

-- appendToChannel
unfoldable pub append_to : GoString → Notification → ℕ → Metadata → Store → Store
append_to chan_id notification inc meta1 sto =
    let prev = get_or (lookup chan_id sto) empty_channel in
    insert chan_id
      (record {
        top_level = add64 prev.top_level inc;
        notifications = prev.notifications ++ notification ∷ [];
        meta = prev.meta ++ meta1 ∷ [];
      })
      sto

-- AppendToChannel
unfoldable pub append_to_channel : GoString → GoString → ℕ → Store → Store
unfolding append_to
append_to_channel chan_id payload expiration =
    append_to chan_id (record { app_id = []; msg_id = []; payload = payload }) 1
      (record { expiration = expiration; replace_tag = []; obsolete = false })

-- AppendToUnicastChannel
unfoldable pub append_to_unicast_channel :
    GoString → GoString → GoString → GoString → Metadata → Store → Store
unfolding append_to
append_to_unicast_channel chan_id app_id payload msg_id meta =
    append_to chan_id (record { app_id = app_id; msg_id = msg_id; payload = payload }) 0 meta

-- GetChannelUnfiltered: the level, the notifications and their metadata.
unfoldable pub get_channel_unfiltered : GoString → Store → ℕ × List Notification × List Metadata
get_channel_unfiltered chan_id sto = elim (lookup chan_id sto) [
  | none ↦ (0, [], [])
  | some ch ↦ (ch.top_level, ch.notifications, ch.meta)
]

-- GetChannelSnapshot; it filters a copy. The copy of a channel is never nil.
unfoldable pub get_channel_snapshot : ℕ → GoString → Store → ℕ × List Notification
get_channel_snapshot now chan_id sto = elim (lookup chan_id sto) [
  | none ↦ (0, [])
  | some ch ↦ (ch.top_level, (filter_out_obsolete now ch.notifications ch.meta).0)
]

-- The criteria of Scrub: the application and the replace tag, empty where not given; `none` is the
-- panic on more than two.
unfoldable pub scrub_criteria : List GoString → Option (GoString × GoString)
scrub_criteria [] = some ([], [])
scrub_criteria (app_id ∷ []) = some (app_id, [])
scrub_criteria (app_id ∷ replace_tag ∷ []) = some (app_id, replace_tag)
scrub_criteria (a ∷ b ∷ c ∷ more) = none

-- Whether Scrub drops a fresh notification by its criteria.
unfoldable pub is_scrubbed : GoString → GoString → Notification → Metadata → Bool
is_scrubbed app_id replace_tag notif m =
    if is_empty replace_tag
    then str_eq notif.app_id app_id
    else str_eq notif.app_id app_id && str_eq m.replace_tag replace_tag

-- The loop of Scrub: the fresh notifications are those of the metadata that is not obsolete, so
-- they do not run out before the metadata.
unfoldable pub scrub_loop :
    GoString → GoString → List Notification → List Metadata → List Notification × List Metadata
scrub_loop app_id replace_tag fresh [] = ([], [])
scrub_loop app_id replace_tag [] (m ∷ ms) = ([], [])
scrub_loop app_id replace_tag (n ∷ ns) (m ∷ ms) =
    let skipped = scrub_loop app_id replace_tag (n ∷ ns) ms in
    let (res, res_meta) = scrub_loop app_id replace_tag ns ms in
    if m.obsolete
    then skipped
    else if is_scrubbed app_id replace_tag n m
    then (res, res_meta)
    else (n ∷ res, m ∷ res_meta)

unfoldable pub scrub_channel : ℕ → GoString → GoString → Channel → Channel
scrub_channel now app_id replace_tag ch =
    let (fresh, meta) = filter_out_obsolete now ch.notifications ch.meta in
    let (res, res_meta) = scrub_loop app_id replace_tag fresh meta in
    record ch { notifications = res; meta = res_meta }

-- Scrub
unfoldable pub scrub : ℕ → GoString → List GoString → Store → Option Store
unfolding scrub_channel
scrub now chan_id criteria sto = do
  (app_id, replace_tag) ← scrub_criteria criteria
  elim (lookup chan_id sto) [
    | none ↦ some sto
    | some ch ↦ some (insert chan_id (scrub_channel now app_id replace_tag ch) sto)
  ]

-- The metadata by message id; of notifications that share one, the last one's.
meta_by_id : Map GoString Metadata → List Notification → List Metadata → Map GoString Metadata
meta_by_id by_id [] ms = by_id
meta_by_id by_id (n ∷ ns) [] = by_id
meta_by_id by_id (n ∷ ns) (m ∷ ms) = meta_by_id (insert n.msg_id m by_id) ns ms

meta_of : Map GoString Metadata → List Notification → List Metadata
meta_of by_id [] = []
meta_of by_id (n ∷ ns) = get_or (lookup n.msg_id by_id) zero_metadata ∷ meta_of by_id ns

unfoldable pub drop_in_channel : List Notification → Channel → Channel
unfolding meta_by_id meta_of
drop_in_channel targets ch =
    let by_id = meta_by_id [] ch.notifications ch.meta in
    let left = filter_out_by_msg_id ch.notifications targets in
    record ch { notifications = left; meta = meta_of by_id left }

-- DropByMsgId
unfoldable pub drop_by_msg_id : GoString → List Notification → Store → Store
drop_by_msg_id chan_id targets sto = elim (lookup chan_id sto) [
  | none ↦ sto
  | some ch ↦ insert chan_id (drop_in_channel targets ch) sto
]
