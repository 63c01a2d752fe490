-- ===== src/Messenger/Cancel/Slots.antt =====
-- The slots of a topic and an owner stay single.
use gorch.Base.{ℕ, List, [], ◌∷◌, Name, ℕ_discrete, Bool-cases, ◌≡◌, inl, inr, sym, subst, arith}
use gorch.Messenger.{
  Slot, Chan, is_slot, append_chan, erase, put_slot, unsubscribe_slots, without_owner,
}
use gorch.Messenger.Flow.{Subscribed, append_chan-Subscribed}
use gorch.Messenger.Cancel.{is_slot-false, unsubscribe_slots-sub, OneSlot, without_owner-Subscribed}

put_slot-OneSlot :
    (s : Slot) (cs : List Chan) (ss : List Slot)
    → ((c : Chan) → ¬ (Subscribed ss s.topic s.owner c))
    → OneSlot ss
    → OneSlot (put_slot s cs ss)
put_slot-OneSlot s [] ss n h = h
put_slot-OneSlot s (x ∷ cs) ss n h = (n, h)

pub unsubscribe_slots-OneSlot :
    (ss : List Slot) (t : Name) (o : ℕ) (ch : Chan)
    → OneSlot ss
    → OneSlot (unsubscribe_slots ss t o ch)
unfolding unsubscribe_slots
unsubscribe_slots-OneSlot [] t o ch h = h
unsubscribe_slots-OneSlot (s ∷ ss) t o ch h = elim (Bool-cases (is_slot t o s)) [
  | inl e ↦ rw (e, unsubscribe_slots) (put_slot-OneSlot s (erase ch s.chans) ss h.0 h.1)
  | inr e ↦
      rw (e, unsubscribe_slots)
        (
          (λ c k. h.0 c (unsubscribe_slots-sub ss t o ch s.topic s.owner c k)),
          unsubscribe_slots-OneSlot ss t o ch h.1,
        )
]

pub without_owner-OneSlot : (id : ℕ) (ss : List Slot) → OneSlot ss → OneSlot (without_owner id ss)
without_owner-OneSlot id [] h = h
without_owner-OneSlot id (s ∷ ss) h = elim (ℕ_discrete s.owner id) [
  | yes e ↦
      let same : without_owner id (s ∷ ss) ≡ without_owner id ss = ground (arith, e) in
      subst OneSlot (sym same) (without_owner-OneSlot id ss h.1)
  | no n ↦
      let same : without_owner id (s ∷ ss) ≡ s ∷ without_owner id ss = ground (arith, n) in
      subst OneSlot (sym same) (
        (λ c k. h.0 c ((without_owner-Subscribed id ss s.topic s.owner c).0 k).0),
        without_owner-OneSlot id ss h.1,
      )
]

pub append_chan-OneSlot :
    (ss : List Slot) (t : Name) (o : ℕ) (ch : Chan) → OneSlot ss → OneSlot (append_chan ss t o ch)
unfolding append_chan
append_chan-OneSlot [] t o ch h = ((λ c k. k), tt)
append_chan-OneSlot (s ∷ ss) t o ch h = elim (Bool-cases (is_slot t o s)) [
  | inl e ↦ rw (e, append_chan) h
  | inr e ↦
      rw (e, append_chan)
        (
          (λ c k. elim ((append_chan-Subscribed ss t o ch s.topic s.owner c).0 k) [
            | inl a ↦ h.0 c a
            | inr (p, q, _) ↦ is_slot-false t o s e p q
          ]),
          append_chan-OneSlot ss t o ch h.1,
        )
]
