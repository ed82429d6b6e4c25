-- ===== src/Store/InMemory/Token.antt =====
-- Tokens of the in-memory store: base64 of the application id, "::" and the device id. The encoding
-- is that of Go's encoding/base64, whose documented behaviour is that decoding undoes encoding.
use push_component.Base.{
  ◌+◌, ◌≡◌, ◌≢◌, refl, sym, inl, inr, Bool, true, false, not, ◌&&◌, [], ◌∷◌, ◌++◌, Option, none,
  some, GoString, lit, str_eq, str_eq_iff, has_prefix, has_prefix-append, nat_Eq, nat_eq, elem,
  length, drop, drop-append, if◌then◌else◌, arith, Bool-cases, length-append,
}
use mathlib.Core.List.{append_assoc}
use push_component.Base.Results.{Result, ok, err}
use push_component.Store.ChannelId.{
  StoreError, unknown_channel, unknown_token, unauthorized, system_internal_channel_id,
  unicast_internal_channel_id,
}

pub record Base64 : Type 0 where
  pub encode : GoString → GoString
  pub decode : GoString → Option GoString
  pub decode_encode : (s : GoString) → decode (encode s) ≡ some s
  pub encode_nonempty : (s : GoString) → s ≢ [] → encode s ≢ []

abbrev pub is_empty : GoString → Bool
is_empty s = str_eq s []

is_empty-false : (s : GoString) → s ≢ [] → is_empty s ≡ false
is_empty-false s h = elim (Bool-cases (is_empty s)) [
  | inl e ↦ absurd (h ((str_eq_iff s []).0 e))
  | inr e ↦ e
]

token_nonempty : (app device : GoString) → app ++ (lit "::" ++ device) ≢ []
token_nonempty [] device e = cc
token_nonempty (c ∷ app) device e = cc

-- Two ids without colons, each followed by "::", agree only if they are the same.
other_prefix :
    (app other device : GoString)
    → app ≢ other
    → elem b':' app ≡ false
    → elem b':' other ≡ false
    → has_prefix (app ++ (lit "::" ++ device)) (other ++ lit "::") ≡ false
unfolding has_prefix
other_prefix [] [] device h p q = absurd (h refl)
other_prefix [] (d ∷ other) device h p q = ground arith
other_prefix (c ∷ app) [] device h p q = ground arith
other_prefix (c ∷ app) (d ∷ other) device h p q = elim (Bool-cases (nat_eq c d)) [
  | inl e ↦
      let same : c ≡ d = ground arith in
      rw e (
        other_prefix app other device (λ r. h (ground (arith, r, same))) (ground arith)
          (ground arith))
  | inr e ↦ rw e
]

module _ (base64 : Base64) where
  open base64 use {encode, decode}

  -- InMemoryPendingStore.Register
  unfoldable pub register : GoString → GoString → GoString
  register device_id app_id = encode (app_id ++ (lit "::" ++ device_id))

  -- The part of GetInternalChannelIdFromToken for a decoded token.
  channel_of_token : GoString → Option GoString → Result StoreError GoString
  channel_of_token app_id none = err unknown_token
  channel_of_token app_id (some token) =
      if not (has_prefix token (app_id ++ lit "::"))
      then err unauthorized
      else let device_id = drop (length app_id + 2) token in
        ok (unicast_internal_channel_id device_id device_id)

  -- InMemoryPendingStore.GetInternalChannelIdFromToken
  unfoldable pub get_internal_channel_id_from_token :
      GoString → GoString → GoString → GoString → Result StoreError GoString
  unfolding channel_of_token
  get_internal_channel_id_from_token token app_id user_id device_id =
      if not (is_empty token) && not (is_empty app_id)
      then channel_of_token app_id (decode token)
      else if not (is_empty user_id) && not (is_empty device_id)
      then ok (unicast_internal_channel_id user_id device_id)
      else err unknown_token

  -- A token that is registered for an application with an id, and for any device, names that
  -- device's own channel when it comes back with that application, whatever user and device are
  -- given beside it.
  pub get_internal_channel_id_from_token-register :
      (device_id app_id user other : GoString)
      → app_id ≢ []
      → get_internal_channel_id_from_token (register device_id app_id) app_id user other
        ≡ ok (unicast_internal_channel_id device_id device_id)
  unfolding get_internal_channel_id_from_token register
  get_internal_channel_id_from_token-register device_id app_id user other h =
      let token : GoString = app_id ++ (lit "::" ++ device_id) in
      let prefixed : token ≡ (app_id ++ lit "::") ++ device_id =
        sym (append_assoc app_id (lit "::") device_id) in
      let starts : has_prefix token (app_id ++ lit "::") ≡ true =
        rw prefixed (has_prefix-append (app_id ++ lit "::") device_id) in
      let width : length app_id + 2 ≡ length (app_id ++ lit "::") =
        omega (arith, length-append app_id (lit "::")) in
      let rest : drop (length app_id + 2) token ≡ device_id =
        rw (width, prefixed) (drop-append (app_id ++ lit "::") device_id) in
      rw (
        is_empty-false (encode token)
            (base64.encode_nonempty token (token_nonempty app_id device_id)),
        is_empty-false app_id h,
        base64.decode_encode token,
        channel_of_token,
        starts,
        rest,
      )

  -- A token registered for one application is refused as unauthorized for another, where neither id
  -- is empty or has a colon in it.
  pub register_other_app :
      (device_id app_id other_app user other : GoString)
      → app_id ≢ other_app
      → other_app ≢ []
      → elem b':' app_id ≡ false
      → elem b':' other_app ≡ false
      → get_internal_channel_id_from_token (register device_id app_id) other_app user other
        ≡ err unauthorized
  unfolding get_internal_channel_id_from_token register
  register_other_app device_id app_id other_app user other h k plain other_plain =
      let token : GoString = app_id ++ (lit "::" ++ device_id) in
      rw (
        is_empty-false (encode token)
            (base64.encode_nonempty token (token_nonempty app_id device_id)),
        is_empty-false other_app k,
        base64.decode_encode token,
        channel_of_token,
        other_prefix app_id other_app device_id h plain other_plain,
      )

-- GetInternalChannelId
unfoldable pub get_internal_channel_id : GoString → Result StoreError GoString
get_internal_channel_id name =
    if str_eq name (lit "system") then ok system_internal_channel_id else err unknown_channel
