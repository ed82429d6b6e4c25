-- ===== src/Protocol/Wire.antt =====
-- protocol/protocol.go: the wire format, a JSON body behind its length in two bytes. A connection is
-- what its other side has written, up to an end of the file or an error. encoding/json is a parameter.
pub mod Framing
use push_component.Base.{
  ℕ, zero, suc, ◌+◌, ◌-◌, ◌*◌, ◌/◌, ◌%◌, ◌≤◌, ◌<◌, ◌≡◌, refl, ap, sym, ◌∙◌, List, [], ◌∷◌, ◌++◌,
  Option, none, some, GoString, lit, length, take, drop, ltb, if◌then◌else◌, arith,
}
use push_component.Base.Results.{Result, ok, err, ◌>>=◌}

pub data WireError : Type 0 where
  connection_ends not_json : WireError

-- binary.BigEndian
abbrev pub put_uint16 : ℕ → List ℕ
put_uint16 v = v / 256 % 256 ∷ v % 256 ∷ []

unfoldable pub uint16_of : List ℕ → ℕ
uint16_of (high ∷ low ∷ rest) = high * 256 + low
uint16_of bytes = 0

-- io.CopyN from the connection, and what is left there.
unfoldable pub copy_n : ℕ → List ℕ → Result WireError (List ℕ × List ℕ)
copy_n n conn = if ltb (length conn) n then err connection_ends else ok (take n conn, drop n conn)

module _ {M : Type 0} (encode : M → GoString) (unmarshal : GoString → Option M) where
  -- protocol0.WriteMessage: the bytes that it writes. The encoder ends the body with a newline.
  unfoldable pub write_message : M → List ℕ
  write_message msg =
      let buffer : List ℕ = 0 ∷ 0 ∷ (encode msg ++ b'\n' ∷ []) in
      let msg_len = length buffer - 3 in
      let to_write = put_uint16 msg_len ++ drop 2 buffer in take (msg_len + 2) to_write

  unfoldable pub unmarshalled : GoString → List ℕ → Result WireError (M × List ℕ)
  unmarshalled body conn = elim (unmarshal body) [ none ↦ err not_json | some msg ↦ ok (msg, conn) ]

  -- protocol0.ReadMessage: the message, and what is left on the connection.
  unfoldable pub read_message : List ℕ → Result WireError (M × List ℕ)
  unfolding uint16_of copy_n unmarshalled
  read_message conn = do
    (header, behind) ← copy_n 2 conn
    (body, left) ← copy_n (uint16_of header) behind
    unmarshalled body left
