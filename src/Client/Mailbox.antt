-- ===== src/Client/Mailbox.antt =====
-- client/service/mbox.go: the messages held for one application. Whether half of the capacity of the
-- slice is evicted depends on how `append` grew it, and is a parameter.
pub mod Evicted
pub mod Fifo
use push_component.Base.{
  ℕ, zero, suc, ◌+◌, ◌-◌, ◌*◌, ◌≤◌, ◌<◌, ◌≡◌, refl, sym, ap, ◌∙◌, inl, inr, Bool, true, false, not,
  ◌&&◌, List, [], ◌∷◌, ◌++◌, GoString, length, take, drop, replicate, ltb, leb, nat_eq,
  if◌then◌else◌, arith, Bool-cases, length-append, length-drop, drop-append, drop-append_left,
  drop_all,
}

abbrev pub max_messages_size : ℕ
max_messages_size = 128 * 1024

pub record MBox : Type 0 where
  pub evicted : ℕ
  pub cur_size : ℕ
  pub messages : List GoString
  pub nids : List GoString

-- The loop of evictFor from the first message held: how many messages it evicts, and their size.
unfoldable pub evict_loop : ℕ → ℕ → List GoString → ℕ × ℕ
evict_loop sz evicted_size [] = (0, evicted_size)
evict_loop sz evicted_size (m ∷ ms) =
    let (count, size) = evict_loop sz (evicted_size + length m) ms in
    if ltb evicted_size sz then (suc count, size) else (0, evicted_size)

-- The entries from `i` on, `count` of them, are made empty.
unfoldable pub blank : ℕ → ℕ → List GoString → List GoString
blank i count entries = take i entries ++ (replicate count [] ++ drop (i + count) entries)

unfoldable pub evict_for : ℕ → MBox → MBox
unfolding evict_loop blank
evict_for sz box =
    let (count, size) = evict_loop sz 0 (drop box.evicted box.messages) in
    record {
      evicted = box.evicted + count;
      cur_size = box.cur_size - size;
      messages = blank box.evicted count box.messages;
      nids = blank box.evicted count box.nids;
    }

-- The slices are cut down to what is held, where all is evicted or half of the capacity is.
unfoldable pub compact : Bool → MBox → MBox
compact half box =
    if nat_eq box.evicted 0
    then box
    else if nat_eq box.evicted (length box.messages)
    then record box { messages = []; nids = []; evicted = 0 }
    else if half
    then record box {
      messages = drop box.evicted box.messages;
      nids = drop box.evicted box.nids;
      evicted = 0;
    }
    else box

-- Append
unfoldable pub append : Bool → GoString → GoString → MBox → MBox
unfolding evict_for compact
append half message nid box =
    let room =
      if ltb max_messages_size (box.cur_size + length message)
      then evict_for (length message) box
      else box in
    let kept = compact half room in
    record kept {
      messages = kept.messages ++ message ∷ [];
      nids = kept.nids ++ nid ∷ [];
      cur_size = kept.cur_size + length message;
    }

-- AllMessages
abbrev pub all_messages : MBox → List GoString
all_messages box = drop box.evicted box.messages
