-- ===== src/Store/ChannelId.antt =====
-- server/store/store.go: internal channel ids, which name a broadcast channel ("0", or "B" and 32
-- hexadecimal digits) or the unicast channel of a device ("U", user, ":", device). `none` is a
-- panic: of the source itself, or of an index out of range.
pub mod Laws
use push_component.Base.{
  ℕ, ◌-◌, ◌+◌, ◌*◌, Bool, true, false, not, ◌&&◌, ◌||◌, List, [], ◌∷◌, ◌++◌, map, Option, none,
  some, ◌>>=◌, GoString, lit, str_eq, length, leb, nat_eq, if◌then◌else◌,
}
use push_component.Base.Results.{Result, ok, err}

pub data StoreError : Type 0 where
  unknown_channel unknown_token unauthorized full expected_128_bits_hex_repr : StoreError

-- icid[0]
marker : GoString → Option ℕ
marker [] = none
marker (c ∷ cs) = some c

unfoldable pub broadcast_channel : GoString → Option Bool
unfolding marker
broadcast_channel icid = do m ← marker icid; some (nat_eq m b'B' || nat_eq m b'0')

unfoldable pub unicast_channel : GoString → Option Bool
unfolding marker
unicast_channel icid = do m ← marker icid; some (nat_eq m b'U')

-- strings.SplitN(s, sep, 2): the text before the first separator, and the text behind it, if any.
unfoldable pub split_first : ℕ → GoString → GoString × Option GoString
split_first sep [] = ([], none)
split_first sep (c ∷ cs) =
    let (before, behind) = split_first sep cs in
    if nat_eq c sep then ([], some cs) else (c ∷ before, behind)

unfoldable pub unicast_user_and_device : GoString → Option (GoString × GoString)
unicast_user_and_device icid = do
  unicast ← unicast_channel icid
  if unicast then user_and_device icid else none
  where
    user_and_device : GoString → Option (GoString × GoString)
    user_and_device [] = none
    user_and_device (c ∷ rest) =
        let (user, device) = split_first b':' rest in device >>= λ d. some (user, d)

abbrev pub system_internal_channel_id : GoString
system_internal_channel_id = lit "0"

unfoldable pub internal_channel_id_to_hex : GoString → Option GoString
internal_channel_id_to_hex chan_id =
    if str_eq chan_id system_internal_channel_id
    then some (lit "0")
    else do broadcast ← broadcast_channel chan_id; if broadcast then tail_of chan_id else none
  where
    tail_of : GoString → Option GoString
    tail_of [] = none
    tail_of (c ∷ rest) = some rest

-- encoding/hex: a digit's value, and the bytes of a text of hexadecimal digits.
hex_value : ℕ → Option ℕ
hex_value c =
    if leb b'0' c && leb c b'9'
    then some (c - b'0')
    else if leb b'a' c && leb c b'f'
    then some (c - b'a' + 10)
    else if leb b'A' c && leb c b'F'
    then some (c - b'A' + 10)
    else none

unfoldable pub hex_decode : GoString → Option (List ℕ)
unfolding hex_value
hex_decode [] = some []
hex_decode (h ∷ []) = none
hex_decode (h ∷ l ∷ rest) = do
  high ← hex_value h
  low ← hex_value l
  bytes ← hex_decode rest
  some ((high * 16 + low) ∷ bytes)

unfoldable pub all_zero : List ℕ → Bool
all_zero [] = true
all_zero (b ∷ bs) = nat_eq b 0 && all_zero bs

-- The end of HexToInternalChannelId, on what hex.Decode returns.
decoded_channel : GoString → Option (List ℕ) → Result StoreError GoString
decoded_channel hex_repr none = err expected_128_bits_hex_repr
decoded_channel hex_repr (some bytes) =
    if all_zero bytes then ok system_internal_channel_id else ok (b'B' ∷ hex_repr)

unfoldable pub hex_to_internal_channel_id : GoString → Result StoreError GoString
unfolding decoded_channel
hex_to_internal_channel_id hex_repr =
    if str_eq hex_repr (lit "0")
    then ok system_internal_channel_id
    else if not (nat_eq (length hex_repr) 32)
    then err expected_128_bits_hex_repr
    else decoded_channel hex_repr (hex_decode hex_repr)

unfoldable pub unicast_internal_channel_id : GoString → GoString → GoString
unicast_internal_channel_id user_id device_id = b'U' ∷ (user_id ++ b':' ∷ device_id)
