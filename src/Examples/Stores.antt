-- ===== src/Examples/Stores.antt =====
-- The store of pending notifications at concrete values.
use push_component.Base.{
  ℕ, ◌<◌, ◌≤◌, ◌≡◌, ◌≢◌, refl, false, not, select, none, List, [], ◌∷◌, some, GoString, lit,
  string_Eq, arith, str_eq, lookup, IsDistinct,
}
use push_component.Base.Results.{ok, err}
use push_component.Protocol.Messages.{Notification}
use push_component.Store.ChannelId.{unicast_internal_channel_id, unauthorized}
use push_component.Store.Filter.{Metadata, filter_out_by_msg_id, filter_out_obsolete}
use push_component.Store.Filter.Drop.{msg_ids, without, filter_out_by_msg_id-without}
use push_component.Store.Filter.Obsolete.{
  notifications_of, live_entries, marked_metadata, filter_out_obsolete-live_entries,
}
use push_component.Store.InMemory.{
  Channel, Store, append_to_channel, append_to_unicast_channel, get_channel_snapshot, scrub,
}
use push_component.Store.InMemory.Views.{IsWellFormed, entries}
use push_component.Store.InMemory.Invariant.{
  Call, appends, appends_unicast, scrubs, drops, run, IsConsistent,
}
use push_component.Store.InMemory.Levels.{level_of, broadcasts, level_of-run}
use push_component.Store.InMemory.Scrubs.{named_by, scrub-entries, scrub-append_to_channel}
use push_component.Store.InMemory.Pending.{append_to_unicast_channel-snapshot}
use push_component.Store.InMemory.Token.{
  Base64, register, get_internal_channel_id_from_token, get_internal_channel_id_from_token-register,
  register_other_app,
}

abbrev note : GoString → GoString → Notification
note app id = record { app_id = app; msg_id = id; payload = lit "{}" }

abbrev tagged_until : GoString → ℕ → Metadata
tagged_until tag t = record { expiration = t; replace_tag = tag; obsolete = false }

abbrev score_channel : Channel
score_channel = record {
  top_level = 0;
  notifications =
      note (lit "a") (lit "1") ∷ note (lit "a") (lit "2") ∷ note (lit "b") (lit "3") ∷ [];
  meta = tagged_until (lit "score") 50 ∷ tagged_until (lit "score") 60 ∷ tagged_until [] 20 ∷ [];
}

score_channel-IsWellFormed : IsWellFormed score_channel
score_channel-IsWellFormed = record { paired = refl; unmarked = (refl, (refl, (refl, tt))) }

filter_out_obsolete-live_entries_example :
    filter_out_obsolete 30 score_channel.notifications score_channel.meta ≡ (
      notifications_of (live_entries 30 (entries score_channel)),
      marked_metadata 30 (entries score_channel),
    )
filter_out_obsolete-live_entries_example =
    filter_out_obsolete-live_entries 30 score_channel.notifications score_channel.meta refl
      (refl, (refl, (refl, tt)))

-- At time 30 the third has expired and the second replaces the first.
live_score :
    notifications_of (live_entries 30 (entries score_channel)) ≡ note (lit "a") (lit "2") ∷ []
unfolding live_entries str_eq
live_score = refl

scores-IsDistinct : IsDistinct (msg_ids score_channel.notifications)
unfolding str_eq
scores-IsDistinct = (refl, (refl, (refl, tt)))

filter_out_by_msg_id-without_example :
    filter_out_by_msg_id score_channel.notifications (note (lit "a") (lit "2") ∷ [])
    ≡ without (lit "2" ∷ []) score_channel.notifications
filter_out_by_msg_id-without_example =
    filter_out_by_msg_id-without score_channel.notifications (note (lit "a") (lit "2") ∷ [])
      scores-IsDistinct

abbrev some_calls : List Call
some_calls =
    appends (lit "0") (lit "{}") 90
    ∷ appends_unicast (lit "Ud:d") (lit "a") (lit "{}") (lit "1") (tagged_until [] 80)
    ∷ drops (lit "Ud:d") []
    ∷ scrubs 10 (lit "0") (lit "a" ∷ [])
    ∷ []

level_of-run_example : level_of (lit "0") (run [] some_calls) ≡ 1
unfolding broadcasts str_eq lookup
level_of-run_example = level_of-run [] some_calls (lit "0") (omega arith)

abbrev score_store : Store
score_store = (lit "Ud:d", score_channel) ∷ []

score_store-IsConsistent : IsConsistent score_store
unfolding lookup
score_store-IsConsistent k ch e = ground (arith, score_channel-IsWellFormed)

scrub-entries_example :
    (2 ≤ 2
      → (sto' : Store) × (ch' : Channel) × (scrub 30
            (lit "Ud:d")
            (lit "a" ∷ lit "score" ∷ [])
            score_store
          ≡ some sto')
        × (lookup (lit "Ud:d") sto' ≡ some ch')
        × (entries ch'
            ≡ select
                (λ e. not (named_by (lit "a" ∷ lit "score" ∷ []) e))
                (live_entries 30 (entries score_channel)))
        × (ch'.top_level ≡ 0)
        × ((j : GoString) → lit "Ud:d" ≢ j → lookup j sto' ≡ lookup j score_store))
    × (2 < 2 → scrub 30 (lit "Ud:d") (lit "a" ∷ lit "score" ∷ []) score_store ≡ none)
unfolding lookup str_eq
scrub-entries_example =
    scrub-entries 30 (lit "Ud:d") (lit "a" ∷ lit "score" ∷ []) score_store score_channel
      score_store-IsConsistent refl

scrub-append_to_channel_example :
    (sto' : Store) × (ch' : Channel) × (scrub 30
        (lit "Ud:d")
        []
        (append_to_channel (lit "Ud:d") (lit "{}") 1000 score_store)
      ≡ some sto')
    × (lookup (lit "Ud:d") sto' ≡ some ch')
    × (entries ch'
        ≡ select (λ e. not (str_eq e.0.app_id [])) (live_entries 30 (entries score_channel)))
    × (ch'.top_level ≡ 1)
unfolding lookup str_eq
scrub-append_to_channel_example =
    scrub-append_to_channel 30 1000 (lit "Ud:d") (lit "{}") score_store score_store-IsConsistent
      (omega arith)

append_to_unicast_channel-snapshot_example :
    get_channel_snapshot 30 (lit "Ud:d") (
      append_to_unicast_channel
        (lit "Ud:d")
        (lit "a")
        (lit "{}")
        (lit "4")
        (tagged_until (lit "score") 70)
        score_store)
    ≡ (0, note (lit "a") (lit "4") ∷ [])
unfolding lookup str_eq live_entries
append_to_unicast_channel-snapshot_example =
    append_to_unicast_channel-snapshot 30 (lit "Ud:d") (lit "a") (lit "{}") (lit "4")
      (tagged_until (lit "score") 70) score_store score_store-IsConsistent refl refl (omega arith)

-- Base64 at its simplest: a text stands for itself.
abbrev plain : Base64
plain = record {
  encode = λ s. s;
  decode = λ s. some s;
  decode_encode = λ s. refl;
  encode_nonempty = λ s h. h;
}

get_internal_channel_id_from_token-register_example :
    get_internal_channel_id_from_token plain
      (register plain (lit "d1") (lit "app"))
      (lit "app")
      []
      []
    ≡ ok (unicast_internal_channel_id (lit "d1") (lit "d1"))
get_internal_channel_id_from_token-register_example =
    get_internal_channel_id_from_token-register plain (lit "d1") (lit "app") [] [] (λ e. cc)

register_other_app_example :
    get_internal_channel_id_from_token plain
      (register plain (lit "d1") (lit "app"))
      (lit "other")
      []
      []
    ≡ err unauthorized
register_other_app_example =
    register_other_app plain (lit "d1") (lit "app") (lit "other") [] [] (λ e. cc) (λ e. cc) refl
      refl
