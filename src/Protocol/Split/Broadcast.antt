-- ===== src/Protocol/Split/Broadcast.antt =====
-- BroadcastMsg under the sending loop.
use push_component.Base.{
  ℕ, ◌≤◌, ◌<◌, ◌≡◌, refl, ap, true, false, List, [], ◌∷◌, ◌++◌, none, some, ◌>>=◌, arith, length,
  take, drop, nat_eq, All, GoString, length-drop, length-take, length-append,
}
use push_component.Base.Int64.{add64, sub64, of_int, modulus}
use push_component.Base.Slice.{slice, slice_prefix, slice_rest}
use push_component.Protocol.Messages.{
  BroadcastMsg, broadcast_split, broadcast_next, broadcast_cut, overflow_at, max_payload_size,
}
use push_component.Protocol.Split.{total, send_all, send_all_lem, all_parts, Levels}

abbrev pub parts : BroadcastMsg → List GoString
parts m = m.payloads.elems

abbrev pub advance : ℕ → List GoString → ℕ
advance prev xs = add64 prev (of_int (length xs))

-- The next call sends `xs`, behind the level `prev`.
record Ready (prev : ℕ) (xs : List GoString) (m : BroadcastMsg) : Type 0 where
  next : BroadcastMsg
  loaded : broadcast_next m ≡ some (next, prev)
  holds : parts next ≡ xs
  reached : next.top_level ≡ advance prev xs

finishes :
    (prev : ℕ) (xs : List GoString) (m : BroadcastMsg)
    → Ready prev xs m
    → overflow_at (λ p. length p) 0 0 xs ≡ none
    → (m' : BroadcastMsg) × (broadcast_split m ≡ some (m', true))
      × (parts m' ≡ xs)
      × (m'.top_level ≡ advance prev xs)
unfolding broadcast_split
finishes prev xs m r e = (r.next, rw (r.loaded, ◌>>=◌, r.holds, e), r.holds, r.reached)

cuts :
    (prev : ℕ) (xs : List GoString) (m : BroadcastMsg) (i : ℕ)
    → Ready prev xs m
    → overflow_at (λ p. length p) 0 0 xs ≡ some i
    → 0 < i
    → i < length xs
    → (m' : BroadcastMsg) × (broadcast_split m ≡ some (m', false))
      × (parts m' ≡ take i xs)
      × (m'.top_level ≡ advance prev (take i xs))
      × Ready m'.top_level (drop i xs) m'
unfolding broadcast_split
cuts prev xs m i r e pos inside = (
  cut,
  rw (r.loaded, ◌>>=◌, r.holds, e, broadcast_cut, first, r.holds),
  rw r.holds,
  rw width,
  record { next = rest; loaded = loaded; holds = rw r.holds; reached = rw r.holds },
)
  where
    old : List GoString
    old = parts r.next

    cut : BroadcastMsg
    cut = record r.next {
      top_level = add64 prev (of_int i);
      splitting = length old;
      payloads = record { elems = take i old; beyond = drop i old ++ r.next.payloads.beyond };
    }

    rest : BroadcastMsg
    rest = record cut {
      top_level = add64 cut.top_level (of_int (length (drop i old)));
      payloads = record { elems = drop i old; beyond = r.next.payloads.beyond };
    }

    width : length (take i xs) ≡ i
    width = omega (arith, inside, length-take i xs)

    room : i < length old
    room = rw r.holds inside

    first : slice 0 i r.next.payloads ≡ some cut.payloads
    first = slice_prefix i r.next.payloads (omega (arith, room))

    again : slice (length (take i old)) (length old) cut.payloads ≡ some rest.payloads
    again =
        slice_rest (take i old) (drop i old) r.next.payloads.beyond (length old)
          (omega (arith, room, length-take i old, length-drop i old))

    busy : nat_eq (length old) 0 ≡ false
    busy = ground (arith, room)

    loaded : broadcast_next cut ≡ some (rest, cut.top_level)
    loaded = rw (broadcast_next, busy, again, ◌>>=◌)

fresh_next :
    (m : BroadcastMsg)
    → m.splitting ≡ 0
    → broadcast_next m ≡ some (m, sub64 m.top_level (of_int (length m.payloads.elems)))
unfolding broadcast_next
fresh_next m fresh = ground arith

overflow_at_first :
    (p : GoString) (ps : List GoString)
    → max_payload_size < length p
    → overflow_at (λ p. length p) 0 0 (p ∷ ps) ≡ some 0
unfolding overflow_at
overflow_at_first p ps big = ground arith

fresh_Ready :
    (m : BroadcastMsg)
    → m.splitting ≡ 0
    → m.top_level < modulus
    → Ready (sub64 m.top_level (of_int (length m.payloads.elems))) m.payloads.elems m
fresh_Ready m fresh level = record {
  next = m;
  loaded = fresh_next m fresh;
  holds = refl;
  reached = omega arith;
}

-- The level after a run of messages.
abbrev pub last_level : ℕ → List BroadcastMsg → ℕ
last_level prev [] = prev
last_level prev (m ∷ ms) = last_level m.top_level ms

last_level-Levels :
    (prev : ℕ) (ms : List BroadcastMsg)
    → prev < modulus
    → Levels parts (λ m. m.top_level) advance prev ms
    → last_level prev ms ≡ advance prev (all_parts parts ms)
unfolding all_parts
last_level-Levels prev [] h l = omega arith
last_level-Levels prev (m ∷ ms) h l = omega (
  arith,
  last_level-Levels m.top_level ms (omega (arith, l.0)) l.1,
  l.0,
  length-append (parts m) (all_parts parts ms),
)

-- A broadcast with no payload over the limit is sent in as many messages as it takes, and in at
-- most one more than it has payloads: they carry its payloads in order, each message's payloads
-- are within the limit, each message's level is that before it advanced by the payloads it carries
-- (in 64-bit arithmetic), and the last one's is the level of the broadcast.
pub send_all-broadcast :
    (m : BroadcastMsg) (fuel : ℕ)
    → m.splitting ≡ 0
    → m.top_level < modulus
    → All (λ p. length p ≤ max_payload_size) m.payloads.elems
    → length m.payloads.elems < fuel
    → (ms : List BroadcastMsg) × (send_all broadcast_split fuel m ≡ some ms)
      × (all_parts parts ms ≡ m.payloads.elems)
      × All (λ m. total (λ p. length p) (parts m) ≤ max_payload_size) ms
      × Levels parts
          (λ m. m.top_level)
          advance
          (sub64 m.top_level (of_int (length m.payloads.elems)))
          ms
      × (last_level (sub64 m.top_level (of_int (length m.payloads.elems))) ms ≡ m.top_level)
send_all-broadcast m fuel fresh level fit more =
    let prev : ℕ = sub64 m.top_level (of_int (length m.payloads.elems)) in
    let (ms, (s, p, f, l)) =
      send_all_lem broadcast_split parts (λ m. m.top_level) advance (λ p. length p) Ready finishes
        cuts fuel prev m.payloads.elems m (fresh_Ready m fresh level) fit more in
    (
      ms,
      s,
      p,
      f,
      l,
      omega (arith, last_level-Levels prev ms (omega arith) l, ap (λ xs. length xs) p, level),
    )

-- A broadcast of which nothing has been split off yet, and whose first payload is by itself over the
-- limit, makes no headway: a call of `Split` cuts off an empty message, is not done, and leaves a
-- message from which the next call gives that same empty message again.
pub split-oversized :
    (m : BroadcastMsg) (p : GoString) (ps : List GoString)
    → m.splitting ≡ 0
    → m.payloads.elems ≡ p ∷ ps
    → max_payload_size < length p
    → (m' : BroadcastMsg) × (broadcast_split m ≡ some (m', false))
      × (m'.payloads.elems ≡ [])
      × (broadcast_split m' ≡ some (m', false))
unfolding broadcast_split
split-oversized m p ps fresh holds big = (
  stuck,
  rw (start, over, broadcast_cut, slice_prefix 0 m.payloads (omega arith)),
  refl,
  rw (broadcast_next, busy, again, ◌>>=◌, over, broadcast_cut, cut_again, level),
)
  where
    prev : ℕ
    prev = sub64 m.top_level (of_int (length m.payloads.elems))

    stuck : BroadcastMsg
    stuck = record m {
      top_level = add64 prev (of_int 0);
      splitting = length m.payloads.elems;
      payloads = record { elems = []; beyond = m.payloads.elems ++ m.payloads.beyond };
    }

    start : broadcast_next m ≡ some (m, prev)
    start = (fresh_next m fresh)

    over : overflow_at (λ p. length p) 0 0 m.payloads.elems ≡ some 0
    over = rw holds (overflow_at_first p ps big)

    busy : nat_eq (length m.payloads.elems) 0 ≡ false
    busy = rw holds (ground arith)

    again : slice 0 (length m.payloads.elems) stuck.payloads ≡ some m.payloads
    again = slice_rest [] m.payloads.elems m.payloads.beyond _ (omega arith)

    cut_again : slice 0 0 m.payloads ≡ some stuck.payloads
    cut_again = slice_prefix 0 m.payloads (omega arith)

    level : add64 stuck.top_level (of_int 0) ≡ stuck.top_level
    level = omega arith
