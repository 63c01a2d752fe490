-- ===== src/Messenger/Sound.antt =====
-- No order of calls makes messenger.go panic, or brings a retired owner back.
pub mod Drains
use gorch.Base.{
  ℕ, ◌<◌, ◌==◌, if◌then◌else◌, Bool, true, false, List, [], ◌∷◌, Memᴰ, Name, Option, none, some,
  mem_dec, Bool-cases, Option-cases, ℕ_discrete, ◌≡◌, ◌≢◌, inl, inr, refl, sym, ap, subst, ◌∙◌,
  arith,
}
use gorch.Messenger.{
  Messenger, Slot, Channel, Chan, Token, Msg, each, chans_where, every_slot, has_topic, find_owner,
  register_owner, subscribe, unsubscribe, send, close, close_subs, push, publish, publish_to, drain,
  retire, kill, delete_owner, owner_of, is_dead,
}
use gorch.Messenger.Flow.{
  Subscribed, Apart, chans_where-Subscribed, Distinct-chans_where, Touched, each-Touched,
  append_chan-Subscribed, append_chan-Apart,
}
use gorch.Messenger.Cancel.{OneSlot, unsubscribe_slots-sub, unsubscribe_slots-Apart}
use gorch.Messenger.Cancel.Slots.{unsubscribe_slots-OneSlot, append_chan-OneSlot}

pub record IsSound (m : Messenger) : Type 0 where
  pub unbroken : m.fault ≡ false
  pub apart : Apart m.slots
  pub one_slot : OneSlot m.slots
  pub live :
      (t : Name) (o : ℕ) (c : Chan)
      → Subscribed m.slots t o c
      → ((m.channels c).closed ≡ false) × (c < m.next_chan)
  pub known :
      (t : Token)
      → t < m.next_token
      → m.dead t ≡ false
      → find_owner m.owners (m.owner_id t) ≡ some t
  pub minted :
      (id : ℕ) (t : Token)
      → find_owner m.owners id ≡ some t
      → (t < m.next_token) × (m.owner_id t ≡ id) × (m.dead t ≡ false)

-- A view's token was handed out before.
abbrev pub IsView : Messenger → Option Token → Type 0
IsView m none = Unit {0}
IsView m (some t) = t < m.next_token

pub register_owner-IsSound : (m : Messenger) (id : ℕ) → IsSound m → IsSound (register_owner m id).0
unfolding register_owner
register_owner-IsSound m id v = elim (Option-cases (find_owner m.owners id)) [
  | inr (t, e) ↦ rw (e, register_owner) v
  | inl e ↦
      rw (e, register_owner)
        (record {
          unbroken = v.unbroken;
          apart = v.apart;
          one_slot = v.one_slot;
          live = v.live;
          known = λ t lt alive. elim (ℕ_discrete t m.next_token) [
            | yes k ↦ ground (arith, k)
            | no n ↦
                let old = v.known t (omega arith) (ground (arith, n, alive)) in
                let other : m.owner_id t ≢ id = λ z. cc (ap (find_owner m.owners) z, e, old) in
                ground (arith, n, old, other)
          ];
          minted = λ k t h. elim (ℕ_discrete id k) [
            | yes z ↦ ground (arith, z, h)
            | no n ↦ let (a, b, c) = v.minted k t (ground (arith, n, h)) in ground (arith, a, b, c)
          ];
        })
]

pub subscribe-IsSound :
    (m : Messenger) (state : Option Token) (topic : Name) (n : ℕ)
    → IsSound m
    → IsSound (subscribe m state topic n).0
unfolding subscribe
subscribe-IsSound m state topic n v =
    let fresh : (t : Name) (o : ℕ) → ¬ (Subscribed m.slots t o m.next_chan) =
      λ t o k. absurd (omega (arith, (v.live t o m.next_chan k).1)) in
    elim (Bool-cases (is_dead m state)) [
      | inl e ↦
          rw (e, subscribe)
            (record {
              unbroken = v.unbroken;
              apart = v.apart;
              one_slot = v.one_slot;
              live = λ t o c k. let (a, b) = v.live t o c k in ground (arith, a, b);
              known = v.known;
              minted = v.minted;
            })
      | inr e ↦
          rw (e, subscribe)
            (record {
              unbroken = v.unbroken;
              apart = append_chan-Apart m.slots topic (owner_of m state) m.next_chan v.apart fresh;
              one_slot =
                  append_chan-OneSlot m.slots topic (owner_of m state) m.next_chan v.one_slot;
              live = λ t o c k.
                  elim ((append_chan-Subscribed m.slots topic (owner_of m state) m.next_chan t o
                      c).0
                    k) [
                      | inl old ↦ let (a, b) = v.live t o c old in ground (arith, a, b)
                      | inr (_, _, z) ↦ ground (arith, z)
                    ];
              known = v.known;
              minted = v.minted;
            })
    ]

pub unsubscribe-IsSound :
    (m : Messenger) (topic : Name) (owner : ℕ) (ch : Chan)
    → IsSound m
    → IsSound (unsubscribe m topic owner ch)
unfolding unsubscribe
unsubscribe-IsSound m topic owner ch v = record {
  unbroken = v.unbroken;
  apart = unsubscribe_slots-Apart m.slots topic owner ch v.apart;
  one_slot = unsubscribe_slots-OneSlot m.slots topic owner ch v.one_slot;
  live = λ t o c k. v.live t o c (unsubscribe_slots-sub m.slots topic owner ch t o c k);
  known = v.known;
  minted = v.minted;
}

-- The slots that a test takes, as one list of open channels.
pub taken_open :
    (m : Messenger) (test : Slot → Bool)
    → IsSound m
    → (c : Chan) → Memᴰ c (chans_where test m.slots)
    → (m.channels c).closed ≡ false
taken_open m test v c k =
    let (s, _, sub) = chans_where-Subscribed test m.slots c k in (v.live s.topic s.owner c sub).0

pub send_all-Touched :
    (m : Messenger) (msg : Msg) (test : Slot → Bool)
    → IsSound m
    → Touched
        (λ ch. push ch msg)
        m
        (chans_where test m.slots)
        (each (send msg) m (chans_where test m.slots))
unfolding send
send_all-Touched m msg test v =
    each-Touched (send msg) (λ ch. push ch msg) (λ q c e. rw e refl) (chans_where test m.slots) m
      (Distinct-chans_where test m.slots v.apart) (taken_open m test v)

abbrev pub shut : Channel → Channel
shut ch = record ch { closed = true }

pub close_all-Touched :
    (m : Messenger) (test : Slot → Bool)
    → IsSound m
    → Touched shut m (chans_where test m.slots) (close_subs m (chans_where test m.slots))
unfolding close_subs close
close_all-Touched m test v =
    each-Touched close shut (λ q c e. rw e refl) (chans_where test m.slots) m
      (Distinct-chans_where test m.slots v.apart) (taken_open m test v)

-- A change of channels that keeps what is open open.
pub kept-IsSound :
    (m m' : Messenger)
    → m' ≡ record m { channels = m'.channels }
    → ((c : Chan) → (m.channels c).closed ≡ false → (m'.channels c).closed ≡ false)
    → IsSound m
    → IsSound m'
kept-IsSound m m' same keeps v = subst IsSound (sym same) (record {
  unbroken = v.unbroken;
  apart = v.apart;
  one_slot = v.one_slot;
  live = λ t o c k. let (a, b) = v.live t o c k in (keeps c a, b);
  known = v.known;
  minted = v.minted;
})

push-closed : (ch : Channel) (msg : Msg) → (push ch msg).closed ≡ ch.closed
push-closed ch msg = ground arith

send_all-IsSound :
    (m : Messenger) (msg : Msg) (test : Slot → Bool)
    → IsSound m
    → IsSound (each (send msg) m (chans_where test m.slots))
send_all-IsSound m msg test v =
    let m' = each (send msg) m (chans_where test m.slots) in
    let sent = send_all-Touched m msg test v in
    kept-IsSound m m' sent.same
      (λ c open_. elim (mem_dec ℕ_discrete c (chans_where test m.slots)) [
        | yes k ↦
            ap (λ (h : Channel). h.closed) (sent.inside c k)
            ∙ push-closed (m.channels c) msg
            ∙ open_
        | no k ↦ ap (λ (h : Channel). h.closed) (sent.outside c k) ∙ open_
      ])
      v

publish_to-IsSound :
    (m : Messenger) (msg : Msg) (topics : List Name) → IsSound m → IsSound (publish_to m msg topics)
unfolding publish_to
publish_to-IsSound m msg [] v = v
publish_to-IsSound m msg (topic ∷ topics) v =
    publish_to-IsSound (each (send msg) m (chans_where (has_topic topic) m.slots)) msg topics
      (send_all-IsSound m msg (has_topic topic) v)

pub publish-IsSound :
    (m : Messenger) (msg : Msg) (topics : List Name) → IsSound m → IsSound (publish m msg topics)
unfolding publish publish_to
publish-IsSound m msg [] v = send_all-IsSound m msg every_slot v
publish-IsSound m msg (topic ∷ topics) v = publish_to-IsSound m msg (topic ∷ topics) v
