-- ===== src/Api/PendingStore.antt =====
-- server/store/store.go: the interface PendingStore as the handlers use it, and the in-memory store
-- as one. A method that changes the store answers with the store after it and an error, if any; the
-- one that panics on more than two criteria may answer nothing.
use push_component.Base.{ℕ, List, Option, none, some, ◌>>=◌, GoString}
use push_component.Base.Results.{Result, ok}
use push_component.Protocol.Messages.{Notification}
use push_component.Store.ChannelId.{StoreError}
use push_component.Store.Filter.{Metadata}
use push_component.Store.InMemory.{
  Store, append_to_channel, append_to_unicast_channel, get_channel_unfiltered, scrub,
}
use push_component.Store.InMemory.Token
use push_component.Store.InMemory.Token.{
  Base64, get_internal_channel_id_from_token, get_internal_channel_id,
}

pub record PendingStore (S : Type 0) : Type 0 where
  pub register : GoString → GoString → S → S × Result StoreError GoString
  pub unregister : GoString → GoString → S → S × Option StoreError
  pub channel_of_token : GoString → GoString → GoString → GoString → S → Result StoreError GoString
  pub channel_of_name : GoString → S → Result StoreError GoString
  pub append_broadcast : GoString → GoString → ℕ → S → S × Option StoreError
  pub append_unicast :
      GoString → GoString → GoString → GoString → Metadata → S → S × Option StoreError
  pub unfiltered : GoString → S → Result StoreError (List Notification × List Metadata)
  pub scrub_pending : ℕ → GoString → List GoString → S → Option (S × Option StoreError)

-- InMemoryPendingStore; its Unregister does nothing.
abbrev pub in_memory : Base64 → PendingStore Store
in_memory base64 = record {
  register = λ device app sto. (sto, ok (Token.register base64 device app));
  unregister = λ device app sto. (sto, none);
  channel_of_token =
      λ token app user device sto. get_internal_channel_id_from_token base64 token app user device;
  channel_of_name = λ name sto. get_internal_channel_id name;
  append_broadcast = λ chan payload expire sto. (append_to_channel chan payload expire sto, none);
  append_unicast =
      λ chan app payload msg m sto. (append_to_unicast_channel chan app payload msg m sto, none);
  unfiltered =
      λ chan sto. let (level, notifs, meta) = get_channel_unfiltered chan sto in ok (notifs, meta);
  scrub_pending = λ now chan criteria sto. scrub now chan criteria sto >>= λ s. some (s, none);
}
