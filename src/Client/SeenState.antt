-- ===== src/Client/SeenState.antt =====
-- client/session/seenstate/seenstate.go: what a session remembers of the messages it has seen, as an
-- interface, and its implementation in memory. An operation that fails answers with false or none.
use push_component.Base.{
  ℕ, Bool, true, false, List, [], ◌∷◌, Option, some, GoString, string_Eq, Map, lookup, insert,
  get_or, if◌then◌else◌,
}
use push_component.Protocol.Messages.{Notification}

pub record SeenState (S : Type 0) : Type 0 where
  pub set_level : GoString → ℕ → S → S × Bool
  pub get_all_levels : S → Option (Map GoString ℕ)
  pub filter_by_seen : List Notification → S → S × Option (List Notification)

pub record MemSeenState : Type 0 where
  pub levels : Map GoString ℕ
  pub seen_msgs : Map GoString Bool

abbrev pub is_seen : GoString → Map GoString Bool → Bool
is_seen id seen = get_or (lookup id seen) false

-- The loop of FilterBySeen.
unfoldable pub filter_seen :
    List Notification → Map GoString Bool → Map GoString Bool × List Notification
filter_seen [] seen = (seen, [])
filter_seen (n ∷ ns) seen =
    let skipped = filter_seen ns seen in
    let (seen', acc) = filter_seen ns (insert n.msg_id true seen) in
    if is_seen n.msg_id seen then skipped else (seen', n ∷ acc)

-- memSeenState
abbrev pub mem_seen_state : SeenState MemSeenState
mem_seen_state = record {
  set_level = λ level top m. (record m { levels = insert level top m.levels }, true);
  get_all_levels = λ m. some m.levels;
  filter_by_seen = λ notifs m.
      let (seen, acc) = filter_seen notifs m.seen_msgs in (record m { seen_msgs = seen }, some acc);
}
