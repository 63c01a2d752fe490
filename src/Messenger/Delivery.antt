-- ===== src/Messenger/Delivery.antt =====
-- What each call of messenger.go does to the subscriptions and the channels.
use gorch.Base.{
  ℕ, ◌<◌, true, false, List, [], ◌∷◌, Memᴰ, Name, Option, some, Bool-cases, ◌≡◌, ◌≢◌, ◌↔◌, inl, inr,
  refl, sym, ap, subst, ◌∙◌, arith,
}
use gorch.Messenger.{
  Messenger, Slot, Channel, Chan, Token, Msg, chans_where, every_slot, has_topic, has_owner,
  find_owner, subscribe, unsubscribe, unsubscribe_slots, push, publish, publish_to, close_subs,
  drain_owner, retire, without_owner, owner_of, is_dead, append_chan,
}
use gorch.Messenger.Flow.{
  Subscribed, Apart, chans_where-Subscribed, Subscribed-chans_where, Touched,
  append_chan-Subscribed, append_chan-Apart,
}
use gorch.Messenger.Cancel.{
  unsubscribe_slots-sub, unsubscribe_slots-other, unsubscribe_slots-gone, without_owner-Subscribed,
  without_owner-Apart,
}
use gorch.Messenger.Cancel.Slots.{without_owner-OneSlot, append_chan-OneSlot}
use gorch.Messenger.Sound.{IsSound, send_all-Touched, close_all-Touched, shut}
use gorch.Messenger.Sound.Drains.{retire-IsSound, retire-same}

-- A channel has one owner.
owner_unique :
    (ss : List Slot) (c : Chan)
    → Apart ss
    → (t t' : Name) (o o' : ℕ) → Subscribed ss t o c
    → Subscribed ss t' o' c
    → o ≡ o'
owner_unique [] c h t t' o o' a b = absurd a
owner_unique (s ∷ ss) c h t t' o o' (inl (_, p, _)) (inl (_, q, _)) = sym p ∙ q
owner_unique (s ∷ ss) c h t t' o o' (inl (_, _, k)) (inr b) = absurd (h.1 t' o' c k b)
owner_unique (s ∷ ss) c h t t' o o' (inr a) (inl (_, _, k)) = absurd (h.1 t o c k a)
owner_unique (s ∷ ss) c h t t' o o' (inr a) (inr b) = owner_unique ss c h.2 t t' o o' a b

-- What drainOwner has done.
pub record Drained (m : Messenger) (id : ℕ) (m' : Messenger) : Type 0 where
  pub others :
      (t : Name) (o : ℕ) (c : Chan)
      → Subscribed m'.slots t o c ↔ (Subscribed m.slots t o c × (o ≢ id))
  pub shut_own :
      (t : Name) (c : Chan) → Subscribed m.slots t id c → m'.channels c ≡ shut (m.channels c)
  pub untouched :
      (c : Chan) → ((t : Name) → ¬ (Subscribed m.slots t id c)) → m'.channels c ≡ m.channels c
  pub retired : (t : Token) → t < m.next_token → m.owner_id t ≡ id → m'.dead t ≡ true

module _ (m : Messenger) (id : ℕ) (v : IsSound m) where
  abbrev retired_m : Messenger
  retired_m = retire m id

  own_closed :
      Touched shut retired_m
        (chans_where (has_owner id) m.slots)
        (close_subs retired_m (chans_where (has_owner id) m.slots))
  own_closed =
      subst
        (λ ss.
          Touched shut retired_m (chans_where (has_owner id) ss)
            (close_subs retired_m (chans_where (has_owner id) ss)))
        (retire-same m id).0 (close_all-Touched retired_m (has_owner id) (retire-IsSound m id v))

  drained_eq : drain_owner m id ≡ record retired_m {
    channels = (drain_owner m id).channels;
    slots = without_owner id m.slots;
  }
  unfolding drain_owner
  drained_eq = ap (λ (q : Messenger). record q { slots = without_owner id m.slots }) own_closed.same

  dead_of_id : (t : Token) → t < m.next_token → m.owner_id t ≡ id → retired_m.dead t ≡ true
  dead_of_id t lt own = elim (Bool-cases (retired_m.dead t)) [
    | inl e ↦ e
    | inr e ↦
        let v' = retire-IsSound m id v in
        let (_, _, tokens, ids, gone) = retire-same m id in
        let lt' : t < retired_m.next_token = subst (λ z. t < z) (sym tokens) lt in
        let found = v'.known t lt' e in
        let at_id : find_owner retired_m.owners id ≡ some t =
          subst (λ z. find_owner retired_m.owners z ≡ some t)
            (ap (λ (f : Token → ℕ). f t) ids ∙ own) found in
        cc gone
  ]

  -- Draining an owner of a sound registry takes exactly that owner's subscriptions out, closes
  -- exactly their channels, keeps what these have buffered, and leaves every view of the owner dead.
  pub drain_owner-Drained : Drained m id (drain_owner m id)
  unfolding drain_owner
  drain_owner-Drained = record {
    others = λ t o c. without_owner-Subscribed id m.slots t o c;
    shut_own = λ t c k.
        own_closed.inside c
          (Subscribed-chans_where (has_owner id) m.slots t id c (λ s p q. ground (arith, q)) k)
        ∙ ap (λ (f : Chan → Channel). shut (f c)) (retire-same m id).1;
    untouched = λ c n.
        own_closed.outside c (λ k.
          let (s, own, sub) = chans_where-Subscribed (has_owner id) m.slots c k in
          let at_id : s.owner ≡ id = ground arith in
          n s.topic (subst (λ z. Subscribed m.slots s.topic z c) at_id sub))
        ∙ ap (λ (f : Chan → Channel). f c) (retire-same m id).1;
    retired = λ t lt own. ap (λ (q : Messenger). q.dead t) own_closed.same ∙ dead_of_id t lt own;
  }

  pub drain_owner-IsSound : IsSound (drain_owner m id)
  unfolding drain_owner
  drain_owner-IsSound =
      let v' = retire-IsSound m id v in
      let (slots, chans, tokens, _, _) = retire-same m id in
      let drained = drain_owner-Drained in
      subst IsSound (sym drained_eq) (record {
        unbroken = v'.unbroken;
        apart = without_owner-Apart id m.slots v.apart;
        one_slot = without_owner-OneSlot id m.slots v.one_slot;
        live = λ t o c k.
            let (sub, other) = (without_owner-Subscribed id m.slots t o c).0 k in
            let (open_, made) = v'.live t o c (subst (λ ss. Subscribed ss t o c) (sym slots) sub) in
            let not_own : ¬ (Memᴰ c (chans_where (has_owner id) m.slots)) = λ j.
              let (s, own, sub') = chans_where-Subscribed (has_owner id) m.slots c j in
              let at_id : s.owner ≡ id = ground arith in
              other (sym (owner_unique m.slots c v.apart s.topic t s.owner o sub' sub) ∙ at_id) in
            (ap (λ (h : Channel). h.closed) (own_closed.outside c not_own) ∙ open_, made);
        known = v'.known;
        minted = v'.minted;
      })

-- What a publish of one message has done, to the topics that a test names.
pub record Delivered (m : Messenger) (msg : Msg) (IsMeant : Name → Type 0) (m' : Messenger)
    : Type 0 where
  pub subs_kept : m'.slots ≡ m.slots
  pub reached :
      (t : Name) (o : ℕ) (c : Chan)
      → Subscribed m.slots t o c
      → IsMeant t
      → m'.channels c ≡ push (m.channels c) msg
  pub others_kept :
      (c : Chan)
      → ((t : Name) (o : ℕ) → IsMeant t → ¬ (Subscribed m.slots t o c))
      → m'.channels c ≡ m.channels c

module _ (m : Messenger) (msg : Msg) (v : IsSound m) where
  -- A publish on a topic gives the message once to each channel that is subscribed to the topic and
  -- has room, drops it for one that has none, and changes nothing else.
  pub publish-Delivered :
      (topic : Name) → Delivered m msg (λ t. t ≡ topic) (publish m msg (topic ∷ []))
  unfolding publish publish_to
  publish-Delivered topic =
      let sent = send_all-Touched m msg (has_topic topic) v in
      record {
        subs_kept = ap (λ (q : Messenger). q.slots) sent.same;
        reached = λ t o c k e. sent.inside c (
            Subscribed-chans_where (has_topic topic) m.slots t o c (λ s p q. ground (arith, p, e))
              k);
        others_kept = λ c n. sent.outside c (λ k.
            let (s, own, sub) = chans_where-Subscribed (has_topic topic) m.slots c k in
            n s.topic s.owner (ground arith) sub);
      }

  -- A publish with no topic does so for every subscribed channel.
  pub publish-Delivered_all : Delivered m msg (λ t. Unit {0}) (publish m msg [])
  unfolding publish
  publish-Delivered_all =
      let sent = send_all-Touched m msg every_slot v in
      record {
        subs_kept = ap (λ (q : Messenger). q.slots) sent.same;
        reached = λ t o c k e.
            sent.inside c (Subscribed-chans_where every_slot m.slots t o c (λ s p q. refl) k);
        others_kept = λ c n. sent.outside c (λ k.
            let (s, own, sub) = chans_where-Subscribed every_slot m.slots c k in
            n s.topic s.owner tt sub);
      }

-- In a sound registry, a subscription that is taken back at once leaves the subscriptions as they
-- were: the same channels of the same owners to the same topics.
pub unsubscribe-subscribe :
    (m : Messenger) (state : Option Token) (topic : Name) (n : ℕ) (t : Name) (o : ℕ) (c : Chan)
    → IsSound m
    → is_dead m state ≡ false
    → Subscribed
        (unsubscribe
          (subscribe m state topic n).0
          topic
          (owner_of m state)
          (subscribe m state topic n).1).slots
        t
        o
        c
      ↔ Subscribed m.slots t o c
unfolding unsubscribe subscribe
unsubscribe-subscribe m state topic n t o c v alive = rw (alive, subscribe) (to, back)
  where
    ow : ℕ
    ow = owner_of m state

    new : Chan
    new = m.next_chan

    fresh : (a : Name) (b : ℕ) → ¬ (Subscribed m.slots a b new)
    fresh a b k = absurd (omega (arith, (v.live a b new k).1))

    added : List Slot
    added = append_chan m.slots topic ow new

    to : Subscribed (unsubscribe_slots added topic ow new) t o c → Subscribed m.slots t o c
    to h =
        elim ((append_chan-Subscribed m.slots topic ow new t o c).0
          (unsubscribe_slots-sub added topic ow new t o c h)) [
            | inl k ↦ k
            | inr (p, q, e) ↦ absurd (
                unsubscribe_slots-gone added topic ow new
                  (append_chan-Apart m.slots topic ow new v.apart fresh)
                  (append_chan-OneSlot m.slots topic ow new v.one_slot)
                  (subst (Subscribed (unsubscribe_slots added topic ow new) topic ow) e (
                    subst (λ z. Subscribed (unsubscribe_slots added topic ow new) topic z c) q
                      (subst (λ z. Subscribed (unsubscribe_slots added topic ow new) z o c) p h))))
          ]

    back : Subscribed m.slots t o c → Subscribed (unsubscribe_slots added topic ow new) t o c
    back h =
        unsubscribe_slots-other added topic ow new t o c
          ((append_chan-Subscribed m.slots topic ow new t o c).1 (inl h))
          (λ e. fresh t o (subst (Subscribed m.slots t o) e h))
