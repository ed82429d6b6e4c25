-- ===== src/Examples/Wires.antt =====
-- The wire format at concrete values: the messages are texts, written in brackets.
use push_component.Base.{
  ◌-◌, ◌≡◌, refl, [], ◌∷◌, ◌++◌, Option, none, some, GoString, lit, length, take, arith,
}
use push_component.Base.Results.{ok}
use push_component.Protocol.Wire.{write_message}
use push_component.Protocol.Wire.Framing.{write_all, read_all, read_all-write_all}

abbrev bracketed : GoString → GoString
bracketed s = b'(' ∷ (s ++ b')' ∷ [])

abbrev unbracketed : GoString → Option GoString
unbracketed [] = none
unbracketed (c ∷ s) = some (take (length s - 1) s)

written : write_message bracketed unbracketed (lit "a") ≡ 0 ∷ 3 ∷ lit "(a)"
unfolding write_message
written = refl

read_all-write_all_example :
    read_all bracketed unbracketed 2
      (write_all bracketed unbracketed (lit "ping" ∷ lit "" ∷ []) ++ lit "rest")
    ≡ ok (lit "ping" ∷ lit "" ∷ [], lit "rest")
read_all-write_all_example =
    read_all-write_all bracketed unbracketed (lit "ping" ∷ lit "" ∷ []) (lit "rest")
      ((omega arith, refl), ((omega arith, refl), tt))
