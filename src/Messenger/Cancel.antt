-- ===== src/Messenger/Cancel.antt =====
-- What the unsubscribe function and drainOwner take out of the slots.
pub mod Slots
use gorch.Base.{
  ℕ, true, false, List, [], ◌∷◌, Memᴰ, Distinct, Name, ℕ_discrete, Bool-cases, ◌≡◌, ◌≢◌, ◌⊎◌, ◌↔◌,
  inl, inr, sym, subst, ◌∙◌, arith,
}
use mathlib.Core.List.Memᴰ.{cases_cons}
use gorch.Messenger.{
  Slot, Chan, is_slot, append_chan, erase, put_slot, unsubscribe_slots, without_owner,
}
use gorch.Messenger.Flow.{Subscribed, Apart, append_chan-Subscribed}

mem-erase : (ch : Chan) (cs : List Chan) {c : Chan} → Memᴰ c (erase ch cs) → Memᴰ c cs
mem-erase ch [] m = elim m [ ]
mem-erase ch (x ∷ cs) {c} m = elim (ℕ_discrete x ch) [
  | yes e ↦ Memᴰ.tail (subst (Memᴰ c) (ground (arith, e)) m)
  | no n ↦
      let same : erase ch (x ∷ cs) ≡ x ∷ erase ch cs = ground (arith, n) in
      elim (cases_cons (subst (Memᴰ c) same m)) [
        | inl e ↦ Memᴰ.head e
        | inr t ↦ Memᴰ.tail (mem-erase ch cs t)
      ]
]

mem-erase_ne : (ch : Chan) (cs : List Chan) {c : Chan} → Memᴰ c cs → c ≢ ch → Memᴰ c (erase ch cs)
mem-erase_ne ch [] m n = elim m [ ]
mem-erase_ne ch (x ∷ cs) {c} m n = elim (ℕ_discrete x ch) [
  | yes e ↦
      let same : erase ch (x ∷ cs) ≡ cs = ground (arith, e) in
      subst (Memᴰ c) (sym same) (elim (cases_cons m) [ inl z ↦ absurd (n (z ∙ e)) | inr t ↦ t ])
  | no k ↦
      let same : erase ch (x ∷ cs) ≡ x ∷ erase ch cs = ground (arith, k) in
      subst (Memᴰ c) (sym same)
        (elim (cases_cons m) [ inl z ↦ Memᴰ.head z | inr t ↦ Memᴰ.tail (mem-erase_ne ch cs t n) ])
]

erase-Distinct :
    (ch : Chan) (cs : List Chan) → Distinct cs → Distinct (erase ch cs) × ¬ (Memᴰ ch (erase ch cs))
erase-Distinct ch [] d = (tt, λ m. elim m [ ])
erase-Distinct ch (x ∷ cs) d = elim (ℕ_discrete x ch) [
  | yes e ↦
      let same : erase ch (x ∷ cs) ≡ cs = ground (arith, e) in
      (
        subst Distinct (sym same) d.1,
        λ m. d.0 (subst (λ z. Memᴰ z cs) (sym e) (subst (Memᴰ ch) same m)),
      )
  | no n ↦
      let same : erase ch (x ∷ cs) ≡ x ∷ erase ch cs = ground (arith, n) in
      let (rest, gone) = erase-Distinct ch cs d.1 in
      (
        subst Distinct (sym same) ((λ m. d.0 (mem-erase ch cs m)), rest),
        λ m. elim (cases_cons (subst (Memᴰ ch) same m)) [ inl z ↦ n (sym z) | inr t ↦ gone t ],
      )
]

-- A slot is put back unless it is empty.
put_slot-Subscribed :
    (s : Slot) (cs : List Chan) (ss : List Slot) (t : Name) (o : ℕ) (c : Chan)
    → Subscribed (put_slot s cs ss) t o c
      ↔ (((s.topic ≡ t) × (s.owner ≡ o) × Memᴰ c cs) ⊎ Subscribed ss t o c)
put_slot-Subscribed s [] ss t o c =
    ((λ h. inr h), (λ h. elim h [ inl (_, _, m) ↦ elim m [ ] | inr k ↦ k ]))
put_slot-Subscribed s (x ∷ cs) ss t o c = ((λ h. h), (λ h. h))

put_slot-Apart :
    (s : Slot) (cs : List Chan) (ss : List Slot)
    → Distinct cs
    → ((t : Name) (o : ℕ) (c : Chan) → Memᴰ c cs → ¬ (Subscribed ss t o c))
    → Apart ss
    → Apart (put_slot s cs ss)
put_slot-Apart s [] ss d n h = h
put_slot-Apart s (x ∷ cs) ss d n h = (d, n, h)

is_slot-true :
    (topic : Name) (owner : ℕ) (s : Slot)
    → is_slot topic owner s ≡ true
    → (s.topic ≡ topic) × (s.owner ≡ owner)
is_slot-true topic owner s h = ground arith

pub is_slot-false :
    (topic : Name) (owner : ℕ) (s : Slot)
    → is_slot topic owner s ≡ false
    → s.topic ≡ topic
    → s.owner ≡ owner
    → ⊥
is_slot-false topic owner s h p q = ground arith

-- A subscription that is left was there before.
pub unsubscribe_slots-sub :
    (ss : List Slot) (t : Name) (o : ℕ) (ch : Chan) (t' : Name) (o' : ℕ) (c : Chan)
    → Subscribed (unsubscribe_slots ss t o ch) t' o' c
    → Subscribed ss t' o' c
unfolding unsubscribe_slots
unsubscribe_slots-sub [] t o ch t' o' c h = h
unsubscribe_slots-sub (s ∷ ss) t o ch t' o' c h = elim (Bool-cases (is_slot t o s)) [
  | inl e ↦
      elim ((put_slot-Subscribed s (erase ch s.chans) ss t' o' c).0
        (rw (e, unsubscribe_slots) at h)) [
          | inl (p, q, m) ↦ inl (p, q, mem-erase ch s.chans m)
          | inr k ↦ inr k
        ]
  | inr e ↦
      elim (let k : Subscribed (s ∷ unsubscribe_slots ss t o ch) t' o' c =
          rw (e, unsubscribe_slots) at h in
        k) [ inl k ↦ inl k | inr k ↦ inr (unsubscribe_slots-sub ss t o ch t' o' c k) ]
]

-- Every other channel is left.
pub unsubscribe_slots-other :
    (ss : List Slot) (t : Name) (o : ℕ) (ch : Chan) (t' : Name) (o' : ℕ) (c : Chan)
    → Subscribed ss t' o' c
    → c ≢ ch
    → Subscribed (unsubscribe_slots ss t o ch) t' o' c
unfolding unsubscribe_slots
unsubscribe_slots-other [] t o ch t' o' c h n = h
unsubscribe_slots-other (s ∷ ss) t o ch t' o' c h n = elim (Bool-cases (is_slot t o s)) [
  | inl e ↦
      rw (e, unsubscribe_slots)
        ((put_slot-Subscribed s (erase ch s.chans) ss t' o' c).1
          (elim h [ inl (p, q, m) ↦ inl (p, q, mem-erase_ne ch s.chans m n) | inr k ↦ inr k ]))
  | inr e ↦
      rw (e, unsubscribe_slots)
        (elim h [ inl k ↦ inl k | inr k ↦ inr (unsubscribe_slots-other ss t o ch t' o' c k n) ])
]

-- No slot of a key is behind one of the same key.
abbrev pub OneSlot : List Slot → Type 0
OneSlot [] = Unit {0}
OneSlot (s ∷ ss) = ((c : Chan) → ¬ (Subscribed ss s.topic s.owner c)) × OneSlot ss

-- The channel itself is gone.
pub unsubscribe_slots-gone :
    (ss : List Slot) (t : Name) (o : ℕ) (ch : Chan)
    → Apart ss
    → OneSlot ss
    → ¬ (Subscribed (unsubscribe_slots ss t o ch) t o ch)
unfolding unsubscribe_slots
unsubscribe_slots-gone [] t o ch h one k = k
unsubscribe_slots-gone (s ∷ ss) t o ch h one k = elim (Bool-cases (is_slot t o s)) [
  | inl e ↦
      let (p, q) = is_slot-true t o s e in
      elim ((put_slot-Subscribed s (erase ch s.chans) ss t o ch).0
        (rw (e, unsubscribe_slots) at k)) [
          | inl (_, _, m) ↦ (erase-Distinct ch s.chans h.0).1 m
          | inr b ↦ one.0 ch (
              subst (λ z. Subscribed ss z s.owner ch) (sym p)
                (subst (λ z. Subscribed ss t z ch) (sym q) b))
        ]
  | inr e ↦
      elim (let j : Subscribed (s ∷ unsubscribe_slots ss t o ch) t o ch =
          rw (e, unsubscribe_slots) at k in
        j) [
          | inl (p, q, _) ↦ is_slot-false t o s e p q
          | inr b ↦ unsubscribe_slots-gone ss t o ch h.2 one.1 b
        ]
]

pub unsubscribe_slots-Apart :
    (ss : List Slot) (t : Name) (o : ℕ) (ch : Chan) → Apart ss → Apart (unsubscribe_slots ss t o ch)
unfolding unsubscribe_slots
unsubscribe_slots-Apart [] t o ch h = h
unsubscribe_slots-Apart (s ∷ ss) t o ch h = elim (Bool-cases (is_slot t o s)) [
  | inl e ↦
      rw (e, unsubscribe_slots)
        (put_slot-Apart s (erase ch s.chans) ss (erase-Distinct ch s.chans h.0).0
          (λ t' o' c m k. h.1 t' o' c (mem-erase ch s.chans m) k) h.2)
  | inr e ↦
      rw (e, unsubscribe_slots)
        (
          h.0,
          (λ t' o' c m k. h.1 t' o' c m (unsubscribe_slots-sub ss t o ch t' o' c k)),
          unsubscribe_slots-Apart ss t o ch h.2,
        )
]

-- drainOwner deletes the slots of the owner, and no other.
pub without_owner-Subscribed :
    (id : ℕ) (ss : List Slot) (t : Name) (o : ℕ) (c : Chan)
    → Subscribed (without_owner id ss) t o c ↔ (Subscribed ss t o c × (o ≢ id))
without_owner-Subscribed id [] t o c = ((λ h. absurd h), (λ h. h.0))
without_owner-Subscribed id (s ∷ ss) t o c =
    let ih = without_owner-Subscribed id ss t o c in
    elim (ℕ_discrete s.owner id) [
      | yes e ↦
          let same : without_owner id (s ∷ ss) ≡ without_owner id ss = ground (arith, e) in
          subst (λ z. Subscribed z t o c ↔ (Subscribed (s ∷ ss) t o c × (o ≢ id))) (sym same)
            (
              (λ h. let (a, b) = ih.0 h in (inr a, b)),
              (λ h. elim h.0 [ inl (_, q, _) ↦ absurd (h.1 (sym q ∙ e)) | inr k ↦ ih.1 (k, h.1) ]),
            )
      | no n ↦
          let same : without_owner id (s ∷ ss) ≡ s ∷ without_owner id ss = ground (arith, n) in
          subst (λ z. Subscribed z t o c ↔ (Subscribed (s ∷ ss) t o c × (o ≢ id))) (sym same)
            (
              (λ h. elim h [
                | inl (p, q, m) ↦ (inl (p, q, m), λ z. n (q ∙ z))
                | inr k ↦ let (a, b) = ih.0 k in (inr a, b)
              ]),
              (λ h. elim h.0 [ inl k ↦ inl k | inr k ↦ inr (ih.1 (k, h.1)) ]),
            )
    ]

pub without_owner-Apart : (id : ℕ) (ss : List Slot) → Apart ss → Apart (without_owner id ss)
without_owner-Apart id [] h = h
without_owner-Apart id (s ∷ ss) h = elim (ℕ_discrete s.owner id) [
  | yes e ↦
      let same : without_owner id (s ∷ ss) ≡ without_owner id ss = ground (arith, e) in
      subst Apart (sym same) (without_owner-Apart id ss h.2)
  | no n ↦
      let same : without_owner id (s ∷ ss) ≡ s ∷ without_owner id ss = ground (arith, n) in
      subst Apart (sym same) (
        h.0,
        (λ t o c m k. h.1 t o c m ((without_owner-Subscribed id ss t o c).0 k).0),
        without_owner-Apart id ss h.2,
      )
]
