-- ===== src/Protocol/Wire/Framing.antt =====
-- What a message is on the wire, and what its reader makes of it.
use push_component.Base.{
  ℕ, zero, suc, ◌+◌, ◌-◌, ◌%◌, ◌≤◌, ◌<◌, ◌≡◌, refl, false, ap, sym, ◌∙◌, List, [], ◌∷◌, ◌++◌,
  Option, some, GoString, length, take, drop, ltb, arith, All, length-append, take-append,
  drop-append, take-append-drop, length-take, length-drop, take_all, drop_all,
}
use mathlib.Core.List.{append_assoc}
use push_component.Base.Results.{Result, ok, ◌>>=◌}
use push_component.Protocol.Wire.{
  WireError, put_uint16, uint16_of, copy_n, write_message, unmarshalled, read_message,
}

copy_n-append : (xs ys : List ℕ) → copy_n (length xs) (xs ++ ys) ≡ ok (xs, ys)
unfolding copy_n
copy_n-append xs ys =
    let enough : ltb (length (xs ++ ys)) (length xs) ≡ false =
      ground (arith, length-append xs ys) in
    rw (enough, take-append xs ys, drop-append xs ys)

module _ {M : Type 0} (encode : M → GoString) (unmarshal : GoString → Option M) where
  write_message_lem :
      (msg : M)
      → write_message encode unmarshal msg ≡ put_uint16 (length (encode msg)) ++ encode msg
  unfolding write_message
  write_message_lem msg =
      let len : length (0 ∷ 0 ∷ (encode msg ++ b'\n' ∷ [])) - 3 ≡ length (encode msg) =
        omega (arith, length-append (encode msg) (b'\n' ∷ [])) in
      let width : length (encode msg) + 2 ≡ suc (suc (length (encode msg))) = omega arith in
      rw (len, width, take-append (encode msg) (b'\n' ∷ []))

  -- What a reader makes of any message: as the body it takes so many bytes as the length's two lowest
  -- bytes say, and it leaves the others on the connection.
  read_message-write_message :
      (msg : M) (r : ℕ) (rest : List ℕ)
      → r ≡ length (encode msg) % 65536
      → read_message encode unmarshal (write_message encode unmarshal msg ++ rest)
        ≡ unmarshalled encode unmarshal (take r (encode msg)) (drop r (encode msg) ++ rest)
  unfolding read_message uint16_of
  read_message-write_message msg r rest h =
      let text : GoString = encode msg in
      let prefix : GoString = take r text in
      let header : uint16_of (put_uint16 (length text)) ≡ length prefix =
        omega (arith, length-take r text) in
      let behind : text ++ rest ≡ prefix ++ (drop r text ++ rest) =
        ap (λ t. t ++ rest) (sym (take-append-drop r text))
        ∙ append_assoc prefix (drop r text) rest in
      rw (
        write_message_lem msg,
        copy_n-append (put_uint16 (length text)) (text ++ rest),
        ◌>>=◌,
        header,
        behind,
        copy_n-append prefix (drop r text ++ rest),
      )

  -- Messages that are written one after the other, and the reading of so many.
  abbrev pub write_all : List M → List ℕ
  write_all [] = []
  write_all (msg ∷ msgs) = write_message encode unmarshal msg ++ write_all msgs

  abbrev pub read_all : ℕ → List ℕ → Result WireError (List M × List ℕ)
  read_all zero conn = ok ([], conn)
  read_all (suc n) conn = do
    (msg, behind) ← read_message encode unmarshal conn
    (msgs, left) ← read_all n behind
    ok (msg ∷ msgs, left)

  -- Messages that are written to a connection, one after the other, each with a body of fewer than
  -- 65536 bytes that is read back by the decoder, are read from its other side as the same messages
  -- in the same order, and what was written behind them is left there.
  pub read_all-write_all :
      (msgs : List M) (rest : List ℕ)
      → All (λ msg. (length (encode msg) < 65536) × (unmarshal (encode msg) ≡ some msg)) msgs
      → read_all (length msgs) (write_all msgs ++ rest) ≡ ok (msgs, rest)
  unfolding unmarshalled
  read_all-write_all [] rest h = refl
  read_all-write_all (msg ∷ msgs) rest h =
      let text : GoString = encode msg in
      let behind : List ℕ = write_all msgs ++ rest in
      let whole : take (length text) text ≡ text = take_all (length text) text (omega arith) in
      let none_left : drop (length text) text ≡ [] = drop_all (length text) text (omega arith) in
      let first = read_message-write_message msg (length text) behind (omega (arith, h.0.0)) in
      let read : read_message encode unmarshal (write_message encode unmarshal msg ++ behind)
          ≡ ok (msg, behind) =
        rw first (rw (whole, unmarshalled, h.0.1, none_left)) in
      rw (
        append_assoc (write_message encode unmarshal msg) (write_all msgs) rest,
        read,
        ◌>>=◌,
        read_all-write_all msgs rest h.1,
      )

  -- A message with a body of 65536 bytes or more is not read back, for its length is written modulo
  -- 65536: the reader takes only the first so many bytes of the body for the whole of it, which are
  -- fewer than the body has, and leaves at least 65536 bytes of the body on the connection, in front
  -- of what was written behind the message.
  read_message_long :
      (msg : M) (k : ℕ) (rest : List ℕ)
      → 65536 ≤ length (encode msg)
      → k ≡ length (encode msg) % 65536
      → (read_message encode unmarshal (write_message encode unmarshal msg ++ rest)
          ≡ unmarshalled encode unmarshal (take k (encode msg)) (drop k (encode msg) ++ rest))
        × (length (take k (encode msg)) < length (encode msg))
        × (65536 ≤ length (drop k (encode msg)))
  read_message_long msg k rest long h = (
    read_message-write_message msg k rest h,
    omega (arith, length-take k (encode msg)),
    omega (arith, length-drop k (encode msg)),
  )
