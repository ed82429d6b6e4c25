-- ===== src/Client/Mailbox/Fifo.antt =====
-- client/service/mbox.go: the mailbox as a queue that drops its oldest messages.
use push_component.Base.{
  ℕ, ◌+◌, ◌≤◌, ◌<◌, ◌≡◌, refl, sym, ap, ◌∙◌, ◌⊎◌, inl, inr, Bool, List, [], ◌∷◌, ◌++◌, GoString,
  length, drop, ltb, nat_eq, arith, Bool-cases, length-append, length-drop, drop-append_left,
  drop_all,
}
use push_component.Client.Mailbox.{
  MBox, max_messages_size, evict_loop, evict_for, compact, append, all_messages,
}
use push_component.Client.Mailbox.Evicted.{
  size_of, all_nids, IsSized, drop-blank, length-blank, evict_loop_lem,
}

-- Making room drops the oldest messages, and makes it unless all are dropped.
evict_for_lem :
    (sz : ℕ) (box : MBox)
    → IsSized box
    → IsSized (evict_for sz box)
      × ((k : ℕ) × (all_messages (evict_for sz box) ≡ drop k (all_messages box))
          × (all_nids (evict_for sz box) ≡ drop k (all_nids box)))
      × ((sz + (evict_for sz box).cur_size ≤ box.cur_size) ⊎ ((evict_for sz box).cur_size ≡ 0))
unfolding evict_for
evict_for_lem sz box b =
    let held : List GoString = all_messages box in
    let (few, sizes, enough) = evict_loop_lem sz 0 held in
    let k : ℕ = (evict_loop sz 0 held).0 in
    let inside : box.evicted + k ≤ length box.messages =
      omega (arith, few, b.within, length-drop box.evicted box.messages) in
    let left = drop-blank box.evicted k box.messages inside in
    let left_nids = drop-blank box.evicted k box.nids (omega (arith, inside, b.paired)) in
    (
      record {
        within = omega (arith, length-blank box.evicted k box.messages inside, inside);
        paired = omega (
          arith,
          length-blank box.evicted k box.messages inside,
          length-blank box.evicted k box.nids (omega (arith, inside, b.paired)),
          b.paired,
        );
        sized = omega (arith, ap size_of left, sizes, b.sized);
      },
      (k, left, left_nids),
      elim enough [
        | inl made ↦ inl (omega (arith, made, sizes, b.sized))
        | inr all ↦
            inr (omega (arith, sizes, b.sized, ap size_of (drop_all k held (omega (arith, all)))))
      ],
    )

-- Cutting the slices down changes nothing that is held.
compact_lem :
    (half : Bool) (box : MBox)
    → IsSized box
    → IsSized (compact half box)
      × (all_messages (compact half box) ≡ all_messages box)
      × (all_nids (compact half box) ≡ all_nids box)
      × ((compact half box).cur_size ≡ box.cur_size)
unfolding compact
compact_lem half box b = elim (Bool-cases (nat_eq box.evicted 0)) [
  | inl kept ↦ rw kept (b, refl, refl, refl)
  | inr some_evicted ↦ elim (Bool-cases (nat_eq box.evicted (length box.messages))) [
    | inl all ↦
        let gone : drop box.evicted box.messages ≡ [] =
          drop_all box.evicted box.messages (ground (arith, all)) in
        let gone_nids : drop box.evicted box.nids ≡ [] =
          drop_all box.evicted box.nids (ground (arith, all, b.paired)) in
        rw (some_evicted, all)
          (
            record { within = omega arith; paired = refl; sized = b.sized ∙ ap size_of gone },
            sym gone,
            sym gone_nids,
            refl,
          )
    | inr more ↦ elim (Bool-cases half) [
      | inl cut ↦
          rw (some_evicted, more, cut)
            (
              record {
                within = omega arith;
                paired = omega (
                  arith,
                  b.paired,
                  length-drop box.evicted box.messages,
                  length-drop box.evicted box.nids,
                );
                sized = b.sized;
              },
              refl,
              refl,
              refl,
            )
      | inr wait ↦ rw (some_evicted, more, wait) (b, refl, refl, refl)
    ]
  ]
]

size_of-append :
    (xs : List GoString) (m : GoString) → size_of (xs ++ m ∷ []) ≡ size_of xs + length m
size_of-append [] m = omega arith
size_of-append (x ∷ xs) m = omega (arith, size_of-append xs m)

-- Putting a message at the end of both slices.
put : GoString → GoString → MBox → MBox
put message nid box = record box {
  messages = box.messages ++ message ∷ [];
  nids = box.nids ++ nid ∷ [];
  cur_size = box.cur_size + length message;
}

put_lem :
    (message nid : GoString) (box : MBox)
    → IsSized box
    → IsSized (put message nid box)
      × (all_messages (put message nid box) ≡ all_messages box ++ message ∷ [])
      × (all_nids (put message nid box) ≡ all_nids box ++ nid ∷ [])
unfolding put
put_lem message nid box b =
    let held = drop-append_left box.evicted box.messages (message ∷ []) b.within in
    (
      record {
        within = omega (arith, b.within, length-append box.messages (message ∷ []));
        paired = omega (
          arith,
          b.paired,
          length-append box.messages (message ∷ []),
          length-append box.nids (nid ∷ []),
        );
        sized = omega (arith, b.sized, ap size_of held, size_of-append (all_messages box) message);
      },
      held,
      drop-append_left box.evicted box.nids (nid ∷ []) (omega (arith, b.within, b.paired)),
    )

-- What Append does to a mailbox whose recorded size is that of its messages: it drops some of the
-- oldest messages, none where the new one fits beside them all, and puts the new one at the end; the
-- notification ids go along. The size is recorded right again, and for a new message that is within
-- the limit alone the mailbox stays within the limit. The capacity of the slices does not matter.
pub append_lem :
    (half : Bool) (message nid : GoString) (box : MBox)
    → IsSized box
    → let box' = append half message nid box in
      ((k : ℕ) × (all_messages box' ≡ drop k (all_messages box) ++ message ∷ [])
        × (all_nids box' ≡ drop k (all_nids box) ++ nid ∷ [])
        × (size_of (all_messages box) + length message ≤ max_messages_size → k ≡ 0))
      × IsSized box'
      × (length message ≤ max_messages_size
          → size_of (all_messages box) ≤ max_messages_size
          → size_of (all_messages box') ≤ max_messages_size)
unfolding append put
append_lem half message nid box b =
    elim (Bool-cases (ltb max_messages_size (box.cur_size + length message))) [
      | inl full ↦
          let (sized, (k, held, held_nids), room) = evict_for_lem (length message) box b in
          let (kept, same, same_nids, size) =
            compact_lem half (evict_for (length message) box) sized in
          let (done, last, last_nids) =
            put_lem message nid (compact half (evict_for (length message) box)) kept in
          let over : max_messages_size < box.cur_size + length message = ground (arith, full) in
          rw full (
            (
              k,
              last ∙ ap (λ ms. ms ++ message ∷ []) (same ∙ held),
              last_nids ∙ ap (λ ms. ms ++ nid ∷ []) (same_nids ∙ held_nids),
              λ fits. absurd (omega (arith, fits, over, b.sized)),
            ),
            done,
            λ small within. ground (arith, room, size, done.sized, b.sized, small, within),
          )
      | inr fits ↦
          let (kept, same, same_nids, size) = compact_lem half box b in
          let (done, last, last_nids) = put_lem message nid (compact half box) kept in
          let room : box.cur_size + length message ≤ max_messages_size = ground (arith, fits) in
          rw fits (
            (
              0,
              last ∙ ap (λ ms. ms ++ message ∷ []) same,
              last_nids ∙ ap (λ ms. ms ++ nid ∷ []) same_nids,
              λ h. refl,
            ),
            done,
            λ small within. omega (arith, size, done.sized, room),
          )
    ]
