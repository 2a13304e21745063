-- ===== src/MsgBus/Inbox.antt =====
-- msgbus.hpp: which messages each process has, and in which order it receives them.
use mathlib.Core.List.{append-nil, append_assoc}
use mergeshare.Prelude.{
  ℕ, zero, suc, ◌≤◌, ◌<◌, ◌≡◌, ◌≢◌, ◌⊎◌, inl, inr, refl, sym, ap, ◌∙◌, true, not, List, [], ◌∷◌,
  ◌++◌, Option, none, some, arith, length, ◌==◌, ltb, if◌then◌else◌, Bool-cases, Option-cases,
  replicate,
}
use mergeshare.Prelude.Dict.{lookup, insert, nat_keys, text_keys, lookup-insert}
use mergeshare.MsgBus.{
  BusMessage, MsgBus, subscribers, inbox, enqueue, publish_to, publish, receive_message,
}
use mergeshare.MsgBus.Topics.{copies, has-copies, IsBus, is_subscribed}

inbox-insert :
    (b : MsgBus) (p q : ℕ) (ms : List BusMessage)
    → inbox (record b { message_queues = insert nat_keys p ms b.message_queues }) q
      ≡ (if p == q then ms else inbox b q)
inbox-insert b p q ms = ground (arith, lookup-insert nat_keys p q ms b.message_queues)

pub enqueue-inbox :
    (b : MsgBus) (m : BusMessage) (q : ℕ)
    → inbox (enqueue b m) q ≡ (if m.to == q then inbox b q ++ m ∷ [] else inbox b q)
unfolding enqueue
enqueue-inbox b m q = ground (arith, inbox-insert b m.to q (inbox b m.to ++ m ∷ []))

-- The message that `publish` gives to a subscriber.
abbrev pub published : List ℕ → List ℕ → ℕ → BusMessage
published t bytes p = record { from = 0; to = p; topic = t; bytes = bytes }

publish_to-inbox :
    (b : MsgBus) (ps t bytes : List ℕ) (q : ℕ)
    → inbox (publish_to b ps t bytes) q ≡ inbox b q ++ replicate (copies q ps) (published t bytes q)
unfolding publish_to
publish_to-inbox b [] t bytes q = sym (append-nil (inbox b q))
publish_to-inbox b (p ∷ ps) t bytes q = elim (Bool-cases (p == q)) [
  | inl e ↦
      let same : p ≡ q = ground (arith, e) in
      publish_to-inbox (enqueue b (published t bytes p)) ps t bytes q
      ∙ ap (λ ms. ms ++ replicate (copies q ps) (published t bytes q))
          (enqueue-inbox b (published t bytes p) q
            ∙ ground (arith, e, ap (λ z. inbox b q ++ published t bytes z ∷ []) same))
      ∙ append_assoc (inbox b q) (published t bytes q ∷ []) _
      ∙ ap (λ n. inbox b q ++ replicate n (published t bytes q)) {x = suc (copies q ps)}
          (ground (arith, e))
  | inr e ↦
      publish_to-inbox (enqueue b (published t bytes p)) ps t bytes q
      ∙ ap (λ ms. ms ++ replicate (copies q ps) (published t bytes q))
          (enqueue-inbox b (published t bytes p) q ∙ ground (arith, e))
      ∙ ap (λ n. inbox b q ++ replicate n (published t bytes q)) (ground (arith, e))
]

-- `publish` is its loop over the subscribers, of which there may be none.
publish-publish_to :
    (b : MsgBus) (t bytes : List ℕ) → publish b t bytes ≡ publish_to b (subscribers b t) t bytes
unfolding publish publish_to
publish-publish_to b t bytes = elim (Option-cases (lookup text_keys t b.subscriptions)) [
  | inl e ↦
      rw (e, publish)
        (ap (λ ps. publish_to b ps t bytes) {x = []} {y = subscribers b t} (ground (arith, e)))
  | inr (ps, e) ↦
      rw (e, publish)
        (ap (λ ps. publish_to b ps t bytes) {x = ps} {y = subscribers b t} (ground (arith, e)))
]

at_most_once :
    (n : ℕ) (ms : List BusMessage) (m : BusMessage)
    → n ≤ 1
    → ms ++ replicate n m ≡ (if not (n == 0) then ms ++ m ∷ [] else ms)
at_most_once zero ms m h = append-nil ms
at_most_once (suc zero) ms m h = refl
at_most_once (suc (suc n)) ms m h = absurd (omega arith)

-- On a bus where no process is subscribed twice to a topic, `publish` puts one message at the end of
-- the queue of each subscriber of the topic and leaves every other queue alone.
pub publish-inbox :
    (b : MsgBus) (t bytes : List ℕ) (q : ℕ)
    → IsBus b
    → inbox (publish b t bytes) q
      ≡ (if is_subscribed b t q then inbox b q ++ published t bytes q ∷ [] else inbox b q)
publish-inbox b t bytes q ok =
    ap (λ u. inbox u q) (publish-publish_to b t bytes)
    ∙ publish_to-inbox b (subscribers b t) t bytes q
    ∙ at_most_once (copies q (subscribers b t)) (inbox b q) (published t bytes q) (ok t q)
    ∙ ap (λ c. if c then inbox b q ++ published t bytes q ∷ [] else inbox b q)
        (sym (has-copies q (subscribers b t)))

-- What `receive_message` does with a queue and a buffer of `size` bytes: nothing if the queue is empty
-- or the buffer too small, else it takes the oldest message.
abbrev pub Receives : MsgBus → ℕ → ℕ → MsgBus × Option (List ℕ) → Type 0
Receives b p size res =
    ((inbox b p ≡ []) × (res ≡ (b, none)))
    ⊎ ((m : BusMessage) × (rest : List BusMessage) × (inbox b p ≡ m ∷ rest)
        × (((size < length m.bytes) × (res ≡ (b, none)))
            ⊎ ((length m.bytes ≤ size)
                × (res.1 ≡ some m.bytes)
                × (inbox res.0 p ≡ rest)
                × ((q : ℕ) → q ≢ p → inbox res.0 q ≡ inbox b q))))

receive_found :
    (b : MsgBus) (p size : ℕ) (ms : List BusMessage)
    → lookup nat_keys p b.message_queues ≡ some ms
    → Receives b p size (receive_message b p size)
unfolding receive_message
receive_found b p size [] e = inl (ground (arith, e), rw (e, receive_message) refl)
receive_found b p size (m ∷ rest) e = elim (Bool-cases (ltb size (length m.bytes))) [
  | inl small ↦ inr (
    m,
    rest,
    ground (arith, e),
    inl (ground (arith, small), rw (e, receive_message) (rw small refl)),
  )
  | inr fits ↦
      let taken : receive_message b p size
          ≡ (record b { message_queues = insert nat_keys p rest b.message_queues }, some m.bytes) =
        rw (e, receive_message) (rw fits refl) in
      inr (
        m,
        rest,
        ground (arith, e),
        inr (
          ground (arith, fits),
          ap (λ r. r.1) taken,
          ap (λ r. inbox r.0 p) taken ∙ inbox-insert b p p rest ∙ ground arith,
          λ q ne. ap (λ r. inbox r.0 q) taken ∙ inbox-insert b p q rest ∙ ground (arith, ne),
        ),
      )
]

-- On every bus, `receive_message` gives nothing and changes nothing if the process has no message or
-- if its oldest message is larger than the buffer; otherwise it gives that message's bytes, takes it
-- off the process's queue, and leaves every other queue alone.
pub receive_message-Receives :
    (b : MsgBus) (p size : ℕ) → Receives b p size (receive_message b p size)
receive_message-Receives b p size = elim (Option-cases (lookup nat_keys p b.message_queues)) [
  | inl e ↦ inl (ground (arith, e), unfold receive_message in rw (e, receive_message) refl)
  | inr (ms, e) ↦ receive_found b p size ms e
]

-- What was published to a topic is what each subscriber with an empty queue receives, if its buffer
-- is large enough, and its queue is empty again.
pub publish-receive_message :
    (b : MsgBus) (t bytes : List ℕ) (p size : ℕ)
    → IsBus b
    → is_subscribed b t p ≡ true
    → inbox b p ≡ []
    → length bytes ≤ size
    → ((receive_message (publish b t bytes) p size).1 ≡ some bytes)
      × (inbox (receive_message (publish b t bytes) p size).0 p ≡ [])
publish-receive_message b t bytes p size ok on bare room =
    elim (receive_message-Receives (publish b t bytes) p size) [
      | inl (none_there, _) ↦ absurd (cc (one, none_there))
      | inr (m, rest, e, outcome) ↦
          let first : m ≡ published t bytes p = cc (one, e) in
          let nothing_else : rest ≡ [] = cc (one, e) in
          elim outcome [
            | inl (small, _) ↦ absurd (omega (arith, ap (λ (z : BusMessage). length z.bytes) first))
            | inr (fits, gave, left, _) ↦
                (gave ∙ ap (λ (z : BusMessage). some z.bytes) first, left ∙ nothing_else)
          ]
    ]
  where
    one : inbox (publish b t bytes) p ≡ published t bytes p ∷ []
    one = publish-inbox b t bytes p ok ∙ ground (arith, on, bare)
