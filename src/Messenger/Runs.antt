-- ===== src/Messenger/Runs.antt =====
-- Any order of calls on messenger.go by any number of goroutines: each call holds the lock.
use gorch.Base.{
  ℕ, ◌<◌, Bool, true, false, List, [], ◌∷◌, Name, Option, some, Option-cases, Bool-cases,
  ℕ_discrete, ◌≡◌, inl, inr, refl, sym, ap, subst, ◌∙◌, arith,
}
use gorch.Messenger.{
  Messenger, Channel, Chan, Token, Msg, set_channel, each, chans_where, every_slot, has_topic,
  has_owner, send, close, close_subs, publish_to, retire, register_owner, subscribe, unsubscribe,
  publish, drain, drain_owner, is_dead, find_owner,
}
use gorch.Messenger.Sound.{
  IsSound, register_owner-IsSound, subscribe-IsSound, unsubscribe-IsSound, publish-IsSound,
  kept-IsSound,
}
use gorch.Messenger.Sound.Drains.{drain-IsSound, kill_mono, retire-same}
use gorch.Messenger.Delivery.{drain_owner-IsSound, drain_owner-Drained}

-- The calls, and a receiver at work on a channel, which neither opens nor closes it.
pub data Step : Messenger → Messenger → Type 0 where
  registers : (m : Messenger) (id : ℕ) → Step m (register_owner m id).0
  subscribes :
      (m : Messenger) (state : Option Token) (topic : Name) (n : ℕ)
      → Step m (subscribe m state topic n).0
  unsubscribes :
      (m : Messenger) (topic : Name) (owner : ℕ) (ch : Chan) → Step m (unsubscribe m topic owner ch)
  publishes : (m : Messenger) (msg : Msg) (topics : List Name) → Step m (publish m msg topics)
  drains : (m : Messenger) → Step m (drain m)
  drains_owner : (m : Messenger) (id : ℕ) → Step m (drain_owner m id)
  receives :
      (m : Messenger) (c : Chan) (ch : Channel)
      → ch.closed ≡ (m.channels c).closed
      → Step m (set_channel m c ch)

pub data Reach (s : Messenger) : Messenger → Type 0 where
  here : Reach s s
  next : {t u : Messenger} → Reach s t → Step t u → Reach s u

receive-open :
    (m : Messenger) (c : Chan) (ch : Channel)
    → ch.closed ≡ (m.channels c).closed
    → (d : Chan) → (m.channels d).closed ≡ false
    → ((set_channel m c ch).channels d).closed ≡ false
receive-open m c ch h d k = elim (ℕ_discrete d c) [
  | yes e ↦ ground (arith, e, h, ap (λ z. (m.channels z).closed) e)
  | no n ↦ ground (arith, n)
]

Step-IsSound : {s t : Messenger} → Step s t → IsSound s → IsSound t
Step-IsSound (registers m id) v = register_owner-IsSound m id v
Step-IsSound (subscribes m state topic n) v = subscribe-IsSound m state topic n v
Step-IsSound (unsubscribes m topic owner ch) v = unsubscribe-IsSound m topic owner ch v
Step-IsSound (publishes m msg topics) v = publish-IsSound m msg topics v
Step-IsSound (drains m) v = drain-IsSound m v
Step-IsSound (drains_owner m id) v = drain_owner-IsSound m id v
Step-IsSound (receives m c ch h) v =
    kept-IsSound m (set_channel m c ch) refl (receive-open m c ch h) v

-- Whatever calls goroutines make on a sound registry, in whatever order: no channel is closed twice and
-- nothing is sent on a closed one (either would panic), no channel is subscribed twice, every
-- subscribed channel is open, and each live owner state is the one that its id is registered under.
pub Reach-IsSound : {s t : Messenger} → Reach s t → IsSound s → IsSound t
Reach-IsSound here v = v
Reach-IsSound (next r st) v = Step-IsSound st (Reach-IsSound r v)

-- What holds of a token once it is dead.
abbrev IsBuried : Token → Messenger → Type 0
IsBuried t m = (m.dead t ≡ true) × (t < m.next_token)

-- Sends and closes leave the owner states alone.
each-tokens :
    (act : Messenger → Chan → Messenger)
    → ((m : Messenger) (c : Chan)
        → ((act m c).dead ≡ m.dead) × ((act m c).next_token ≡ m.next_token))
    → (m : Messenger) (cs : List Chan)
    → ((each act m cs).dead ≡ m.dead) × ((each act m cs).next_token ≡ m.next_token)
unfolding each
each-tokens act h m [] = (refl, refl)
each-tokens act h m (c ∷ cs) =
    let (a, b) = each-tokens act h (act m c) cs in let (p, q) = h m c in (a ∙ p, b ∙ q)

send-tokens :
    (msg : Msg) (m : Messenger) (c : Chan)
    → ((send msg m c).dead ≡ m.dead) × ((send msg m c).next_token ≡ m.next_token)
unfolding send
send-tokens msg m c = elim (Bool-cases (m.channels c).closed) [
  | inl e ↦ rw e (refl, refl)
  | inr e ↦ rw e (refl, refl)
]

close-tokens :
    (m : Messenger) (c : Chan)
    → ((close m c).dead ≡ m.dead) × ((close m c).next_token ≡ m.next_token)
unfolding close
close-tokens m c = elim (Bool-cases (m.channels c).closed) [
  | inl e ↦ rw e (refl, refl)
  | inr e ↦ rw e (refl, refl)
]

kept_tokens :
    (t : Token) (m m' : Messenger)
    → (m'.dead ≡ m.dead) × (m'.next_token ≡ m.next_token)
    → IsBuried t m
    → IsBuried t m'
kept_tokens t m m' (a, b) (d, lt) =
    (ap (λ (f : Token → Bool). f t) a ∙ d, subst (λ z. t < z) (sym b) lt)

publish_to-IsBuried :
    (t : Token) (m : Messenger) (msg : Msg) (topics : List Name)
    → IsBuried t m
    → IsBuried t (publish_to m msg topics)
unfolding publish_to
publish_to-IsBuried t m msg [] h = h
publish_to-IsBuried t m msg (topic ∷ topics) h =
    let cs = chans_where (has_topic topic) m.slots in
    publish_to-IsBuried t (each (send msg) m cs) msg topics
      (kept_tokens t m (each (send msg) m cs) (each-tokens (send msg) (send-tokens msg) m cs) h)

publish-IsBuried :
    (t : Token) (m : Messenger) (msg : Msg) (topics : List Name)
    → IsBuried t m
    → IsBuried t (publish m msg topics)
unfolding publish publish_to
publish-IsBuried t m msg [] h =
    let cs = chans_where every_slot m.slots in
    kept_tokens t m (each (send msg) m cs) (each-tokens (send msg) (send-tokens msg) m cs) h
publish-IsBuried t m msg (topic ∷ topics) h = publish_to-IsBuried t m msg (topic ∷ topics) h

register_owner-IsBuried :
    (t : Token) (m : Messenger) (id : ℕ) → IsBuried t m → IsBuried t (register_owner m id).0
unfolding register_owner
register_owner-IsBuried t m id (d, lt) = elim (Option-cases (find_owner m.owners id)) [
  | inr (u, e) ↦ rw (e, register_owner) (d, lt)
  | inl e ↦ rw (e, register_owner) (ground (arith, d, lt), omega (arith, lt))
]

subscribe-IsBuried :
    (t : Token) (m : Messenger) (state : Option Token) (topic : Name) (n : ℕ)
    → IsBuried t m
    → IsBuried t (subscribe m state topic n).0
unfolding subscribe
subscribe-IsBuried t m state topic n h = elim (Bool-cases (is_dead m state)) [
  | inl e ↦ rw (e, subscribe) h
  | inr e ↦ rw (e, subscribe) h
]

retire-IsBuried : (t : Token) (m : Messenger) (id : ℕ) → IsBuried t m → IsBuried t (retire m id)
retire-IsBuried t m id (d, lt) = elim (Option-cases (find_owner m.owners id)) [
  | inl e ↦ rw (e, retire) (d, lt)
  | inr (u, e) ↦ rw (e, retire) (ground (arith, d), lt)
]

Step-IsBuried : (t : Token) {m m' : Messenger} → Step m m' → IsBuried t m → IsBuried t m'
unfolding drain drain_owner unsubscribe close_subs
Step-IsBuried t (registers m id) h = register_owner-IsBuried t m id h
Step-IsBuried t (subscribes m state topic n) h = subscribe-IsBuried t m state topic n h
Step-IsBuried t (unsubscribes m topic owner ch) h = h
Step-IsBuried t (publishes m msg topics) h = publish-IsBuried t m msg topics h
Step-IsBuried t (drains m) h =
    let cs = chans_where every_slot m.slots in
    let closed = close_subs m cs in
    let (d, lt) = kept_tokens t m closed (each-tokens close close-tokens m cs) h in
    (kill_mono closed.dead closed.owners t d, lt)
Step-IsBuried t (drains_owner m id) h =
    let cs = chans_where (has_owner id) m.slots in
    kept_tokens t (retire m id) (close_subs (retire m id) cs)
      (each-tokens close close-tokens (retire m id) cs) (retire-IsBuried t m id h)
Step-IsBuried t (receives m c ch k) h = h

Reach-IsBuried : (t : Token) {m m' : Messenger} → Reach m m' → IsBuried t m → IsBuried t m'
Reach-IsBuried t here h = h
Reach-IsBuried t (next r st) h = Step-IsBuried t st (Reach-IsBuried t r h)

drain_owner-next_token : (m : Messenger) (id : ℕ) → (drain_owner m id).next_token ≡ m.next_token
unfolding drain_owner close_subs
drain_owner-next_token m id =
    let (_, _, tokens, _, _) = retire-same m id in
    (each-tokens close close-tokens (retire m id) (chans_where (has_owner id) m.slots)).1 ∙ tokens

-- A view of an owner that was drained in a sound registry never subscribes again: whatever calls come
-- between, a subscribe through it changes no subscription and gives a channel that is closed.
pub drain_owner-final :
    (m m' : Messenger) (id : ℕ) (t : Token) (topic : Name) (n : ℕ)
    → IsSound m
    → t < m.next_token
    → m.owner_id t ≡ id
    → Reach (drain_owner m id) m'
    → let (after, ch, subscribed) = subscribe m' (some t) topic n in
      (subscribed ≡ false) × (after.slots ≡ m'.slots) × ((after.channels ch).closed ≡ true)
unfolding subscribe
drain_owner-final m m' id t topic n v lt own run =
    let dead = (drain_owner-Drained m id v).retired t lt own in
    let still =
      (Reach-IsBuried t run (dead, subst (λ z. t < z) (sym (drain_owner-next_token m id)) lt)).0 in
    rw still (refl, refl, ground arith)
