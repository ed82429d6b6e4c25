-- ===== src/Store/ChannelId/Laws.antt =====
-- Channel ids: from their written form and back.
use push_component.Base.{
  nat_Eq, ℕ, ◌≡◌, refl, ap, ◌∙◌, ◌⊎◌, inl, inr, true, false, [], ◌∷◌, ◌++◌, some, GoString, lit,
  str_eq, arith, elem,
}
use push_component.Base.Results.{ok}
use push_component.Store.ChannelId.{
  broadcast_channel, unicast_channel, split_first, unicast_user_and_device,
  system_internal_channel_id, internal_channel_id_to_hex, hex_to_internal_channel_id,
  unicast_internal_channel_id,
}

pub split_first_lem :
    (sep : ℕ) (user device : GoString)
    → elem sep user ≡ false
    → split_first sep (user ++ sep ∷ device) ≡ (user, some device)
unfolding split_first
split_first_lem sep [] device h = ground arith
split_first_lem sep (c ∷ user) device h = ground (arith, split_first_lem sep user device)

-- The unicast channel of a user whose id has no colon is a unicast channel and no broadcast
-- channel, and its user and device are read back from it.
unicast_user_and_device-unicast_internal_channel_id :
    (user device : GoString)
    → elem b':' user ≡ false
    → let icid = unicast_internal_channel_id user device in
      (unicast_channel icid ≡ some true)
      × (broadcast_channel icid ≡ some false)
      × (unicast_user_and_device icid ≡ some (user, device))
unfolding unicast_internal_channel_id unicast_user_and_device unicast_channel broadcast_channel
unicast_user_and_device-unicast_internal_channel_id user device h =
    (refl, refl, rw (split_first_lem b':' user device h))

read_channel :
    (hex_repr chan_id : GoString)
    → hex_to_internal_channel_id hex_repr ≡ ok chan_id
    → (chan_id ≡ system_internal_channel_id) ⊎ (chan_id ≡ b'B' ∷ hex_repr)
unfolding hex_to_internal_channel_id
read_channel hex_repr chan_id h = ground arith

read_system : hex_to_internal_channel_id (lit "0") ≡ ok system_internal_channel_id
unfolding hex_to_internal_channel_id str_eq
read_system = refl

-- A channel id that is read from a written form is a broadcast channel, and it has a written form
-- from which the same id is read again.
hex_to_internal_channel_id-internal_channel_id_to_hex :
    (hex_repr chan_id : GoString)
    → hex_to_internal_channel_id hex_repr ≡ ok chan_id
    → (broadcast_channel chan_id ≡ some true)
      × ((written : GoString) × (internal_channel_id_to_hex chan_id ≡ some written)
          × (hex_to_internal_channel_id written ≡ ok chan_id))
unfolding broadcast_channel internal_channel_id_to_hex str_eq
hex_to_internal_channel_id-internal_channel_id_to_hex hex_repr chan_id h =
    elim (read_channel hex_repr chan_id h) [
      | inl e ↦ rw e (refl, (lit "0", refl, read_system))
      | inr e ↦ rw e (refl, (hex_repr, refl, h ∙ ap ok e))
    ]
