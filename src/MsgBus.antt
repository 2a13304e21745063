-- ===== src/MsgBus.antt =====
-- multiqueue-shm/core/include/multiqueue/msgbus.hpp: topics, subscribers and message queues inside
-- one process. Each method holds `mutex_`, so it is one step. The unordered maps are association
-- lists, the unordered sets lists.
pub mod Topics
pub mod Inbox
use mergeshare.Prelude.{
  ℕ, suc, ◌+◌, ◌≡◌, Bool, true, false, not, List, [], ◌∷◌, ◌++◌, Option, none, some, length, ltb,
  ◌==◌, if◌then◌else◌,
}
use mergeshare.Prelude.Dict.{lookup, insert, erase, nat_keys, text_keys}

pub record BusMessage : Type 0 where
  pub from : ℕ
  pub to : ℕ
  pub topic : List ℕ
  pub bytes : List ℕ

pub record MsgBus : Type 0 where
  pub subscriptions : List (List ℕ × List ℕ)
  pub message_queues : List (ℕ × List BusMessage)

abbrev pub new_bus : MsgBus
new_bus = record { subscriptions = []; message_queues = [] }

unfoldable pub shutdown : MsgBus → MsgBus
shutdown b = record { subscriptions = []; message_queues = [] }

-- `find(...)` on the two maps; a key that is not there has no members and no messages.
abbrev pub subscribers : MsgBus → List ℕ → List ℕ
subscribers b t = elim (lookup text_keys t b.subscriptions) [ none ↦ [] | some ps ↦ ps ]

abbrev pub inbox : MsgBus → ℕ → List BusMessage
inbox b p = elim (lookup nat_keys p b.message_queues) [ none ↦ [] | some ms ↦ ms ]

-- `std::unordered_set`: membership, `insert` and `erase`
abbrev pub has : List ℕ → ℕ → Bool
has [] p = false
has (x ∷ xs) p = if x == p then true else has xs p

abbrev pub with_member : List ℕ → ℕ → List ℕ
with_member xs p = if has xs p then xs else xs ++ p ∷ []

abbrev pub without_member : List ℕ → ℕ → List ℕ
without_member [] p = []
without_member (x ∷ xs) p = if x == p then without_member xs p else x ∷ without_member xs p

unfoldable pub subscribe : MsgBus → ℕ → List ℕ → MsgBus
subscribe b p t = record b {
  subscriptions = insert text_keys t (with_member (subscribers b t) p) b.subscriptions;
}

unfoldable pub unsubscribe : MsgBus → ℕ → List ℕ → MsgBus
unsubscribe b p t = elim (lookup text_keys t b.subscriptions) [
  | none ↦ b
  | some ps ↦ elim (without_member ps p) [
    | [] ↦ record b { subscriptions = erase text_keys t b.subscriptions }
    | q ∷ qs ↦ record b { subscriptions = insert text_keys t (q ∷ qs) b.subscriptions }
  ]
]

-- `message_queues_[to].push(...)`
unfoldable pub enqueue : MsgBus → BusMessage → MsgBus
enqueue b m = record b {
  message_queues = insert nat_keys m.to (inbox b m.to ++ m ∷ []) b.message_queues;
}

-- The loop of `publish` over the subscribers.
unfoldable pub publish_to : MsgBus → List ℕ → List ℕ → List ℕ → MsgBus
publish_to b [] t bytes = b
publish_to b (p ∷ ps) t bytes =
    publish_to (enqueue b (record { from = 0; to = p; topic = t; bytes = bytes })) ps t bytes

unfoldable pub publish : MsgBus → List ℕ → List ℕ → MsgBus
publish b t bytes = elim (lookup text_keys t b.subscriptions) [
  | none ↦ b
  | some ps ↦ publish_to b ps t bytes
]

unfoldable pub send_message : MsgBus → ℕ → ℕ → List ℕ → MsgBus
send_message b from to bytes =
    enqueue b (record { from = from; to = to; topic = []; bytes = bytes })

-- `receive_message` with a buffer of `size` bytes: the bytes copied, if there are any.
unfoldable pub receive_message : MsgBus → ℕ → ℕ → MsgBus × Option (List ℕ)
receive_message b p size = elim (lookup nat_keys p b.message_queues) [
  | none ↦ (b, none)
  | some ms ↦ elim ms [
    | [] ↦ (b, none)
    | m ∷ rest ↦
        if ltb size (length m.bytes)
        then (b, none)
        else (record b { message_queues = insert nat_keys p rest b.message_queues }, some m.bytes)
  ]
]

unfoldable pub has_message : MsgBus → ℕ → Bool
has_message b p = elim (inbox b p) [ [] ↦ false | m ∷ ms ↦ true ]

unfoldable pub message_count : MsgBus → ℕ → ℕ
message_count b p = length (inbox b p)

unfoldable pub clear_messages : MsgBus → ℕ → MsgBus
clear_messages b p = elim (lookup nat_keys p b.message_queues) [
  | none ↦ b
  | some ms ↦ record b { message_queues = insert nat_keys p [] b.message_queues }
]

unfoldable pub topic_count : MsgBus → ℕ
topic_count b = length b.subscriptions

unfoldable pub subscriber_count : MsgBus → List ℕ → ℕ
subscriber_count b t = length (subscribers b t)
