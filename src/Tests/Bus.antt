-- ===== src/Tests/Bus.antt =====
-- The message bus with two processes on one topic.
use mergeshare.Prelude.{ℕ, ◌≡◌, refl, true, List, [], ◌∷◌, ◌++◌, some, arith, if◌then◌else◌}
use mergeshare.MsgBus.{
  MsgBus, new_bus, subscribe, unsubscribe, publish, publish_to, enqueue, receive_message, inbox,
  topic_count, subscriber_count,
}
use mergeshare.MsgBus.Topics.{IsBus, is_subscribed, subscribe-is_subscribed}
use mergeshare.MsgBus.Inbox.{published, publish-inbox, publish-receive_message}

-- "tick" and "hi"
abbrev tick : List ℕ
tick = 116 ∷ 105 ∷ 99 ∷ 107 ∷ []

abbrev hi : List ℕ
hi = 104 ∷ 105 ∷ []

new_bus-IsBus : IsBus new_bus
new_bus-IsBus t p = omega arith

abbrev one_reader : MsgBus
one_reader = subscribe new_bus 7 tick

one_reader-IsBus : IsBus one_reader
one_reader-IsBus = (subscribe-is_subscribed new_bus 7 tick new_bus-IsBus).1

abbrev two_readers : MsgBus
two_readers = subscribe one_reader 8 tick

two_readers-IsBus : IsBus two_readers
two_readers-IsBus = (subscribe-is_subscribed one_reader 8 tick one_reader-IsBus).1

subscribers_counted : subscriber_count (subscribe two_readers 8 tick) tick ≡ 2
unfolding subscribe subscriber_count
subscribers_counted = refl

topic_dropped : topic_count (unsubscribe one_reader 7 tick) ≡ 0
unfolding subscribe unsubscribe topic_count
topic_dropped = refl

both_get_it : inbox (publish two_readers tick hi) 8 ≡ published tick hi 8 ∷ []
unfolding subscribe publish publish_to enqueue
both_get_it = refl

publish-inbox_example : inbox (publish two_readers tick hi) 8 ≡ (
    if is_subscribed two_readers tick 8
    then inbox two_readers 8 ++ published tick hi 8 ∷ []
    else inbox two_readers 8)
publish-inbox_example = publish-inbox two_readers tick hi 8 two_readers-IsBus

eight_is_subscribed : is_subscribed two_readers tick 8 ≡ true
unfolding subscribe
eight_is_subscribed = refl

eight_has_none : inbox two_readers 8 ≡ []
unfolding subscribe
eight_has_none = refl

publish-receive_message_example :
    ((receive_message (publish two_readers tick hi) 8 64).1 ≡ some hi)
    × (inbox (receive_message (publish two_readers tick hi) 8 64).0 8 ≡ [])
publish-receive_message_example =
    publish-receive_message two_readers tick hi 8 64 two_readers-IsBus eight_is_subscribed
      eight_has_none (omega arith)
