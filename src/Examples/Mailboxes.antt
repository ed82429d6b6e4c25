-- ===== src/Examples/Mailboxes.antt =====
-- The mailbox of an application at concrete values.
use push_component.Base.{ℕ, ◌+◌, ◌≤◌, ◌≡◌, refl, true, [], ◌∷◌, ◌++◌, lit, drop, arith}
use push_component.Client.Mailbox.{MBox, max_messages_size, append, all_messages}
use push_component.Client.Mailbox.Evicted.{IsSized, size_of, all_nids}
use push_component.Client.Mailbox.Fifo.{append_lem}

-- The first message is evicted, two are held.
abbrev two_held : MBox
two_held = record {
  evicted = 1;
  cur_size = 3;
  messages = [] ∷ lit "ab" ∷ lit "c" ∷ [];
  nids = [] ∷ lit "n1" ∷ lit "n2" ∷ [];
}

two_held-IsSized : IsSized two_held
two_held-IsSized = record { within = omega arith; paired = refl; sized = refl }

append_lem_example :
    ((k : ℕ) × (all_messages (append true (lit "def") (lit "n3") two_held)
        ≡ drop k (lit "ab" ∷ lit "c" ∷ []) ++ lit "def" ∷ [])
      × (all_nids (append true (lit "def") (lit "n3") two_held)
          ≡ drop k (lit "n1" ∷ lit "n2" ∷ []) ++ lit "n3" ∷ [])
      × (size_of (lit "ab" ∷ lit "c" ∷ []) + 3 ≤ max_messages_size → k ≡ 0))
    × IsSized (append true (lit "def") (lit "n3") two_held)
    × (3 ≤ max_messages_size
        → size_of (lit "ab" ∷ lit "c" ∷ []) ≤ max_messages_size
        → size_of (all_messages (append true (lit "def") (lit "n3") two_held)) ≤ max_messages_size)
append_lem_example = append_lem true (lit "def") (lit "n3") two_held two_held-IsSized
