-- ===== src/Messenger.antt =====
-- messenger.go: the subscriptions of topics by owners, and the channels behind them.
pub mod Flow
pub mod Cancel
pub mod Sound
pub mod Delivery
pub mod Runs
use gorch.Base.{
  ℕ, suc, ◌+◌, ◌==◌, ltb, if◌then◌else◌, Bool, true, false, ◌&&◌, List, [], ◌∷◌, ◌++◌, length,
  Option, none, some, Name, name_discrete, ite,
}
use gorch.Service.Errors.{Error, Result, ok, err, wraps, other, invalid_buffer_size, nil_context}

-- A message: a value of the caller, or the Message envelope of a request, with its payload, its topic
-- and the topic of the reply.
pub data Msg : Type 0 where
  value : ℕ → Msg
  message : Option ℕ → Name → Name → Msg

-- A channel with its buffer. `waiting` receivers are blocked on it, and a send reaches one of them
-- where the buffer is full.
pub record Channel : Type 0 where
  pub cap : ℕ
  pub queue : List Msg
  pub waiting : ℕ
  pub closed : Bool

abbrev pub Chan : Type 0
Chan = ℕ

-- A *ownerState.
abbrev pub Token : Type 0
Token = ℕ

-- One value of the map of maps `subs`: the channels of a topic and an owner.
pub record Slot : Type 0 where
  pub topic : Name
  pub owner : ℕ
  pub chans : List Chan

-- The root registry, with the owner states and the channels that pointers lead to. `fault` is set by
-- what panics in Go: a send on a closed channel, and a second close.
pub record Messenger : Type 0 where
  pub slots : List Slot
  pub owners : List (ℕ × Token)
  pub owner_id : Token → ℕ
  pub dead : Token → Bool
  pub next_token : Token
  pub channels : Chan → Channel
  pub next_chan : Chan
  pub fault : Bool

abbrev pub set_channel : Messenger → Chan → Channel → Messenger
set_channel m c ch = record m { channels = λ d. if d == c then ch else m.channels d }

abbrev pub find_owner : List (ℕ × Token) → ℕ → Option Token
find_owner [] id = none
find_owner ((k, t) ∷ rest) id = let later = find_owner rest id in if k == id then some t else later

-- A fresh, live ownerState under its id.
abbrev pub add_owner : Messenger → ℕ → Messenger
add_owner m id = record m {
  owners = (id, m.next_token) ∷ m.owners;
  owner_id = λ t. if t == m.next_token then id else m.owner_id t;
  dead = λ t. if t == m.next_token then false else m.dead t;
  next_token = suc m.next_token;
}

unfoldable pub register_owner : Messenger → ℕ → Messenger × Token
register_owner m id = elim (find_owner m.owners id) [
  | some t ↦ (m, t)
  | none ↦ (add_owner m id, m.next_token)
]

-- A new channel, open or closed.
abbrev pub make_channel : Messenger → ℕ → Bool → Messenger
make_channel m cap closed = record m {
  channels = λ d.
      if d == m.next_chan
      then record { cap = cap; queue = []; waiting = 0; closed = closed }
      else m.channels d;
  next_chan = suc m.next_chan;
}

abbrev pub is_slot : Name → ℕ → Slot → Bool
is_slot topic owner s = ite (name_discrete s.topic topic) (s.owner == owner) false

-- r.subs[topic][owner] = append(r.subs[topic][owner], ch)
pub append_chan : List Slot → Name → ℕ → Chan → List Slot
append_chan [] topic owner ch = record { topic = topic; owner = owner; chans = ch ∷ [] } ∷ []
append_chan (s ∷ ss) topic owner ch =
    let rest = s ∷ append_chan ss topic owner ch in
    if is_slot topic owner s then record s { chans = s.chans ++ ch ∷ [] } ∷ ss else rest

-- m.state: the token of a scoped view, and none for the root. Its owner is 0 for the root.
abbrev pub owner_of : Messenger → Option Token → ℕ
owner_of m none = 0
owner_of m (some t) = m.owner_id t

abbrev pub is_dead : Messenger → Option Token → Bool
is_dead m none = false
is_dead m (some t) = m.dead t

-- The new channel, and whether it was subscribed.
unfoldable pub subscribe : Messenger → Option Token → Name → ℕ → Messenger × Chan × Bool
unfolding append_chan
subscribe m state topic buf_size =
    if is_dead m state then (make_channel m buf_size true, m.next_chan, false) else (
      record (make_channel m buf_size false) {
        slots = append_chan m.slots topic (owner_of m state) m.next_chan;
      },
      m.next_chan,
      true,
    )

-- SubscribeWithBuffer, by the size less its sign.
unfoldable pub subscribe_with_buffer :
    Messenger → Option Token → Name → Bool → ℕ → Messenger × Result Chan
unfolding subscribe
subscribe_with_buffer m state topic true buf_size = (m, err (wraps invalid_buffer_size))
subscribe_with_buffer m state topic false buf_size =
    let sub = subscribe m state topic buf_size in (sub.0, ok sub.1)

abbrev pub erase : Chan → List Chan → List Chan
erase ch [] = []
erase ch (c ∷ cs) = let rest = c ∷ erase ch cs in if c == ch then cs else rest

abbrev pub put_slot : Slot → List Chan → List Slot → List Slot
put_slot s [] rest = rest
put_slot s (c ∷ cs) rest = record s { chans = c ∷ cs } ∷ rest

-- The unsubscribe function of a subscription. A slot that is left with no channel is deleted.
pub unsubscribe_slots : List Slot → Name → ℕ → Chan → List Slot
unsubscribe_slots [] topic owner ch = []
unsubscribe_slots (s ∷ ss) topic owner ch =
    let rest = unsubscribe_slots ss topic owner ch in
    if is_slot topic owner s then put_slot s (erase ch s.chans) ss else s ∷ rest

unfoldable pub unsubscribe : Messenger → Name → ℕ → Chan → Messenger
unfolding unsubscribe_slots
unsubscribe m topic owner ch = record m { slots = unsubscribe_slots m.slots topic owner ch }

abbrev pub has_room : Channel → Bool
has_room ch = ltb (length ch.queue) (ch.cap + ch.waiting)

abbrev pub push : Channel → Msg → Channel
push ch msg = if has_room ch then record ch { queue = ch.queue ++ msg ∷ [] } else ch

-- select { case ch <- msg: default: }
unfoldable pub send : Msg → Messenger → Chan → Messenger
send msg m c =
    if (m.channels c).closed
    then record m { fault = true }
    else set_channel m c (push (m.channels c) msg)

unfoldable pub close : Messenger → Chan → Messenger
close m c =
    if (m.channels c).closed
    then record m { fault = true }
    else set_channel m c (record (m.channels c) { closed = true })

-- A loop over channels, with one effect on each.
pub each : (Messenger → Chan → Messenger) → Messenger → List Chan → Messenger
each act m [] = m
each act m (c ∷ cs) = each act (act m c) cs

unfoldable pub close_subs : Messenger → List Chan → Messenger
unfolding each close
close_subs = each close

-- The channels of the slots that a test takes, in order.
pub chans_where : (Slot → Bool) → List Slot → List Chan
chans_where test [] = []
chans_where test (s ∷ ss) =
    let rest = chans_where test ss in if test s then s.chans ++ rest else rest

abbrev pub has_topic : Name → Slot → Bool
has_topic topic s = ite (name_discrete s.topic topic) true false

abbrev pub every_slot : Slot → Bool
every_slot s = true

abbrev pub publish_to : Messenger → Msg → List Name → Messenger
unfolding each send chans_where
publish_to m msg [] = m
publish_to m msg (topic ∷ topics) =
    publish_to (each (send msg) m (chans_where (has_topic topic) m.slots)) msg topics

unfoldable pub publish : Messenger → Msg → List Name → Messenger
unfolding each send chans_where
publish m msg [] = each (send msg) m (chans_where every_slot m.slots)
publish m msg (topic ∷ topics) = publish_to m msg (topic ∷ topics)

-- Every state of the map is marked dead.
abbrev pub kill : (Token → Bool) → List (ℕ × Token) → Token → Bool
kill dead [] = dead
kill dead ((id, t) ∷ rest) = kill (λ u. if u == t then true else dead u) rest

unfoldable pub drain : Messenger → Messenger
unfolding close_subs chans_where
drain m =
    let closed = close_subs m (chans_where every_slot m.slots) in
    record closed { slots = []; dead = kill closed.dead closed.owners; owners = [] }

abbrev pub delete_owner : List (ℕ × Token) → ℕ → List (ℕ × Token)
delete_owner [] id = []
delete_owner ((k, t) ∷ rest) id =
    let more = delete_owner rest id in if k == id then more else (k, t) ∷ more

abbrev pub has_owner : ℕ → Slot → Bool
has_owner id s = s.owner == id

abbrev pub without_owner : ℕ → List Slot → List Slot
without_owner id [] = []
without_owner id (s ∷ ss) =
    let rest = without_owner id ss in if has_owner id s then rest else s ∷ rest

-- The owner's state is marked dead and forgotten.
abbrev pub retire : Messenger → ℕ → Messenger
retire m id = elim (find_owner m.owners id) [
  | none ↦ m
  | some t ↦ record m {
    dead = λ u. if u == t then true else m.dead u;
    owners = delete_owner m.owners id;
  }
]

unfoldable pub drain_owner : Messenger → ℕ → Messenger
unfolding close_subs chans_where
drain_owner m id =
    let closed = close_subs (retire m id) (chans_where (has_owner id) m.slots) in
    record closed { slots = without_owner id m.slots }

-- requestMessage: `reply` is the topic "_reply." with a new UUID. The reply channel, with true if the
-- owner is alive.
unfoldable pub request_message :
    Messenger → Option Token → Option ℕ → Name → Name → Messenger × Chan × Bool
unfolding subscribe publish
request_message m state payload topic reply =
    let (m', ch, alive) = subscribe m state reply 16 in
    if alive
    then (publish m' (message payload topic reply) (topic ∷ []), ch, true)
    else (m', ch, false)

module _ (encode : ℕ → Option ℕ) where
  -- A nil message has no payload; `encode` is encoding/gob, and none its error.
  abbrev payload_of : Option ℕ → Option (Option ℕ)
  payload_of none = some none
  payload_of (some msg) = elim (encode msg) [ none ↦ none | some bytes ↦ some (some bytes) ]

  -- RequestAsync up to its goroutine, which waits for one reply on the channel and then unsubscribes.
  unfoldable pub request_async :
      Messenger → Option Token → Bool → Option ℕ → Name → Name → Messenger × Result Chan
  unfolding request_message
  request_async m state false msg topic reply = (m, err (wraps nil_context))
  request_async m state true msg topic reply = elim (payload_of msg) [
    | none ↦ (m, err other)
    | some payload ↦
        let sent = request_message m state payload topic reply in
        (sent.0, if sent.2 then ok sent.1 else err other)
  ]
