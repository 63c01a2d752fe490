-- ===== src/Tests/Messages.antt =====
-- One owner with one subscription of a topic.
use gorch.Base.{true, false, [], ◌∷◌, none, some, ◌≡◌, ◌↔◌, refl, arith}
use gorch.Messenger.{
  Messenger, value, register_owner, subscribe, unsubscribe, publish, drain_owner, owner_of,
}
use gorch.Messenger.Flow.{Subscribed}
use gorch.Messenger.Sound.{IsSound}
use gorch.Messenger.Delivery.{
  Drained, Delivered, drain_owner-Drained, publish-Delivered, publish-Delivered_all,
  unsubscribe-subscribe,
}
use gorch.Messenger.Runs.{
  Reach, here, next, registers, subscribes, Reach-IsSound, drain_owner-final,
}
use gorch.Tests.{no_messages}

no_messages-IsSound : IsSound no_messages
no_messages-IsSound = record {
  unbroken = refl;
  apart = tt;
  one_slot = tt;
  live = λ t o c h. elim h [ ];
  known = λ t lt. absurd (omega (arith, lt));
  minted = λ id t h. cc h;
}

abbrev joined : Messenger
unfolding register_owner subscribe
joined = (subscribe (register_owner no_messages 7).0 (some 0) "events" 1).0

joins : Reach no_messages joined
unfolding joined
joins =
    next (next here (registers no_messages 7))
      (subscribes (register_owner no_messages 7).0 (some 0) "events" 1)

joined-IsSound : IsSound joined
joined-IsSound = Reach-IsSound joins no_messages-IsSound

Reach-IsSound_example : IsSound joined
Reach-IsSound_example = Reach-IsSound joins no_messages-IsSound

drain_owner-Drained_example : Drained joined 7 (drain_owner joined 7)
drain_owner-Drained_example = drain_owner-Drained joined 7 joined-IsSound

publish-Delivered_example :
    Delivered joined (value 3) (λ t. t ≡ "events") (publish joined (value 3) ("events" ∷ []))
publish-Delivered_example = publish-Delivered joined (value 3) joined-IsSound "events"

publish-Delivered_all_example :
    Delivered joined (value 3) (λ t. Unit {0}) (publish joined (value 3) [])
publish-Delivered_all_example = publish-Delivered_all joined (value 3) joined-IsSound

unsubscribe-subscribe_example :
    Subscribed
      (unsubscribe
        (subscribe joined none "events" 4).0
        "events"
        (owner_of joined none)
        (subscribe joined none "events" 4).1).slots
      "events"
      7
      0
    ↔ Subscribed joined.slots "events" 7 0
unsubscribe-subscribe_example =
    unsubscribe-subscribe joined none "events" 4 "events" 7 0 joined-IsSound refl

drain_owner-final_example :
    let (after, ch, subscribed) = subscribe (drain_owner joined 7) (some 0) "events" 4 in
    (subscribed ≡ false)
    × (after.slots ≡ (drain_owner joined 7).slots)
    × ((after.channels ch).closed ≡ true)
unfolding joined
drain_owner-final_example =
    drain_owner-final joined (drain_owner joined 7) 7 0 "events" 4 joined-IsSound (omega arith) refl
      here
