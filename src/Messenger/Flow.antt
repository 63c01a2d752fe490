-- ===== src/Messenger/Flow.antt =====
-- The slots of messenger.go as a set of subscriptions, and loops over channels.
use gorch.Base.{
  ℕ, Bool, true, false, List, [], ◌∷◌, Memᴰ, mem-append_cases, mem-append_left, mem-append_right,
  Distinct, Distinct-append, Name, ℕ_discrete, Bool-cases, ◌≡◌, ◌≢◌, ◌⊎◌, ◌↔◌, inl, inr, refl, sym,
  ap, subst, ◌∙◌, arith,
}
use mathlib.Core.List.Memᴰ.{cases_cons}
use gorch.Messenger.{
  Messenger, Slot, Channel, Chan, set_channel, each, chans_where, is_slot, append_chan,
}

-- `c` is subscribed to the topic by the owner.
abbrev pub Subscribed : List Slot → Name → ℕ → Chan → Type 0
Subscribed [] topic owner c = ⊥
Subscribed (s ∷ ss) topic owner c =
    ((s.topic ≡ topic) × (s.owner ≡ owner) × Memᴰ c s.chans) ⊎ Subscribed ss topic owner c

-- No channel stands twice.
abbrev pub Apart : List Slot → Type 0
Apart [] = Unit {0}
Apart (s ∷ ss) =
    Distinct s.chans
    × ((t : Name) (o : ℕ) (c : Chan) → Memᴰ c s.chans → ¬ (Subscribed ss t o c))
    × Apart ss

pub chans_where-Subscribed :
    (test : Slot → Bool) (ss : List Slot) (c : Chan)
    → Memᴰ c (chans_where test ss)
    → (s : Slot) × (test s ≡ true) × Subscribed ss s.topic s.owner c
unfolding chans_where
chans_where-Subscribed test [] c m = elim m [ ]
chans_where-Subscribed test (s ∷ ss) c m = elim (Bool-cases (test s)) [
  | inl e ↦ elim (mem-append_cases s.chans (rw (e, chans_where) at m)) [
    | inl a ↦ (s, e, inl (refl, refl, a))
    | inr b ↦ let (t, k, sub) = chans_where-Subscribed test ss c b in (t, k, inr sub)
  ]
  | inr e ↦
      let (t, k, sub) = chans_where-Subscribed test ss c (rw (e, chans_where) at m) in
      (t, k, inr sub)
]

-- A test that looks at the topic and the owner only takes every channel of such a slot.
pub Subscribed-chans_where :
    (test : Slot → Bool) (ss : List Slot) (topic : Name) (owner : ℕ) (c : Chan)
    → ((s : Slot) → s.topic ≡ topic → s.owner ≡ owner → test s ≡ true)
    → Subscribed ss topic owner c
    → Memᴰ c (chans_where test ss)
unfolding chans_where
Subscribed-chans_where test [] topic owner c takes h = absurd h
Subscribed-chans_where test (s ∷ ss) topic owner c takes (inl (p, q, m)) =
    rw (takes s p q, chans_where) (mem-append_left (chans_where test ss) m)
Subscribed-chans_where test (s ∷ ss) topic owner c takes (inr h) =
    let rest = Subscribed-chans_where test ss topic owner c takes h in
    elim (Bool-cases (test s)) [
      | inl e ↦ rw (e, chans_where) (mem-append_right s.chans rest)
      | inr e ↦ rw (e, chans_where) rest
    ]

pub Distinct-chans_where :
    (test : Slot → Bool) (ss : List Slot) → Apart ss → Distinct (chans_where test ss)
unfolding chans_where
Distinct-chans_where test [] h = tt
Distinct-chans_where test (s ∷ ss) h =
    let rest = Distinct-chans_where test ss h.2 in
    elim (Bool-cases (test s)) [
      | inl e ↦
          rw (e, chans_where)
            (Distinct-append s.chans (chans_where test ss) h.0 rest (λ c m k.
              let (t, _, sub) = chans_where-Subscribed test ss c k in h.1 t.topic t.owner c m sub))
      | inr e ↦ rw (e, chans_where) rest
    ]

-- What a loop has done that changes each of its channels by `f`.
pub record Touched (f : Channel → Channel) (m : Messenger) (cs : List Chan) (m' : Messenger)
    : Type 0 where
  pub same : m' ≡ record m { channels = m'.channels }
  pub inside : (c : Chan) → Memᴰ c cs → m'.channels c ≡ f (m.channels c)
  pub outside : (c : Chan) → ¬ (Memᴰ c cs) → m'.channels c ≡ m.channels c

pub each-Touched :
    (act : Messenger → Chan → Messenger) (f : Channel → Channel)
    → ((m : Messenger) (c : Chan)
        → (m.channels c).closed ≡ false
        → act m c ≡ set_channel m c (f (m.channels c)))
    → (cs : List Chan) (m : Messenger) → Distinct cs
    → ((c : Chan) → Memᴰ c cs → (m.channels c).closed ≡ false)
    → Touched f m cs (each act m cs)
unfolding each
each-Touched act f step [] m d open_ = record {
  same = refl;
  inside = λ c k. elim k [ ];
  outside = λ c k. refl;
}
each-Touched act f step (x ∷ cs) m d open_ =
    let m1 = set_channel m x (f (m.channels x)) in
    let first = step m x (open_ x (Memᴰ.head refl)) in
    let other : (c : Chan) → c ≢ x → m1.channels c ≡ m.channels c = λ c k. ground (arith, k) in
    let not_x : (c : Chan) → Memᴰ c cs → c ≢ x = λ c k e. d.0 (subst (λ z. Memᴰ z cs) e k) in
    let rest =
      each-Touched act f step cs m1 d.1
        (λ c k. ap (λ (h : Channel). h.closed) (other c (not_x c k)) ∙ open_ c (Memᴰ.tail k)) in
    subst (λ q. Touched f m (x ∷ cs) (each act q cs)) (sym first)
      (record {
        same = rest.same;
        inside = λ c k. elim (ℕ_discrete c x) [
          | yes e ↦
              let same_x : (each act m1 cs).channels x ≡ f (m.channels x) =
                rest.outside x d.0 ∙ ground arith in
              subst (λ z. (each act m1 cs).channels z ≡ f (m.channels z)) (sym e) same_x
          | no n ↦ elim (cases_cons k) [
            | inl e ↦ absurd (n e)
            | inr t ↦ rest.inside c t ∙ ap f (other c n)
          ]
        ];
        outside = λ c k. rest.outside c (λ t. k (Memᴰ.tail t)) ∙ other c (λ e. k (Memᴰ.head e));
      })

is_slot-true :
    (topic : Name) (owner : ℕ) (s : Slot)
    → is_slot topic owner s ≡ true
    → (s.topic ≡ topic) × (s.owner ≡ owner)
is_slot-true topic owner s h = ground arith

is_slot-false :
    (topic : Name) (owner : ℕ) (s : Slot)
    → is_slot topic owner s ≡ false
    → (s.topic ≡ topic)
    → (s.owner ≡ owner)
    → ⊥
is_slot-false topic owner s h p q = ground arith

-- append adds the one subscription.
pub append_chan-Subscribed :
    (ss : List Slot) (t : Name) (o : ℕ) (ch : Chan) (t' : Name) (o' : ℕ) (c : Chan)
    → Subscribed (append_chan ss t o ch) t' o' c
      ↔ (Subscribed ss t' o' c ⊎ ((t' ≡ t) × (o' ≡ o) × (c ≡ ch)))
unfolding append_chan
append_chan-Subscribed [] t o ch t' o' c = (
  λ h. elim h [
    | inl (p, q, m) ↦ elim (cases_cons m) [ inl e ↦ inr (sym p, sym q, e) | inr k ↦ elim k [ ] ]
    | inr k ↦ absurd k
  ],
  λ h. elim h [ inl k ↦ absurd k | inr (p, q, e) ↦ inl (sym p, sym q, Memᴰ.head e) ],
)
append_chan-Subscribed (s ∷ ss) t o ch t' o' c = elim (Bool-cases (is_slot t o s)) [
  | inl e ↦
      let (p, q) = is_slot-true t o s e in
      rw (e, append_chan)
        (
          (λ h. elim h [
            | inl (a, b, m) ↦ elim (mem-append_cases s.chans m) [
              | inl k ↦ inl (inl (a, b, k))
              | inr k ↦ elim (cases_cons k) [
                | inl z ↦ inr (sym a ∙ p, sym b ∙ q, z)
                | inr w ↦ elim w [ ]
              ]
            ]
            | inr k ↦ inl (inr k)
          ]),
          (λ h. elim h [
            | inl (inl (a, b, m)) ↦ inl (a, b, mem-append_left (ch ∷ []) m)
            | inl (inr k) ↦ inr k
            | inr (a, b, z) ↦ inl (p ∙ sym a, q ∙ sym b, mem-append_right s.chans (Memᴰ.head z))
          ]),
        )
  | inr e ↦
      let ih = append_chan-Subscribed ss t o ch t' o' c in
      rw (e, append_chan)
        (
          (λ h. elim h [
            | inl k ↦ inl (inl k)
            | inr k ↦ elim (ih.0 k) [ inl a ↦ inl (inr a) | inr b ↦ inr b ]
          ]),
          (λ h. elim h [
            | inl (inl k) ↦ inl k
            | inl (inr k) ↦ inr (ih.1 (inl k))
            | inr k ↦ inr (ih.1 (inr k))
          ]),
        )
]

pub append_chan-Apart :
    (ss : List Slot) (t : Name) (o : ℕ) (ch : Chan)
    → Apart ss
    → ((t' : Name) (o' : ℕ) → ¬ (Subscribed ss t' o' ch))
    → Apart (append_chan ss t o ch)
unfolding append_chan
append_chan-Apart [] t o ch h new = ((λ k. elim k [ ], tt), (λ t' o' c m k. k), tt)
append_chan-Apart (s ∷ ss) t o ch h new =
    let not_here : ¬ (Memᴰ ch s.chans) = λ m. new s.topic s.owner (inl (refl, refl, m)) in
    elim (Bool-cases (is_slot t o s)) [
      | inl e ↦
          rw (e, append_chan)
            (
              Distinct-append s.chans (ch ∷ []) h.0 ((λ k. elim k [ ]), tt)
                  (λ a m k. elim (cases_cons k) [
                    | inl z ↦ not_here (subst (λ w. Memᴰ w s.chans) z m)
                    | inr w ↦ elim w [ ]
                  ]),
              (λ t' o' c m k. elim (mem-append_cases s.chans m) [
                | inl a ↦ h.1 t' o' c a k
                | inr b ↦ elim (cases_cons b) [
                  | inl z ↦ new t' o' (inr (subst (Subscribed ss t' o') z k))
                  | inr w ↦ elim w [ ]
                ]
              ]),
              h.2,
            )
      | inr e ↦
          rw (e, append_chan)
            (
              h.0,
              (λ t' o' c m k. elim ((append_chan-Subscribed ss t o ch t' o' c).0 k) [
                | inl a ↦ h.1 t' o' c m a
                | inr (_, _, z) ↦ not_here (subst (λ w. Memᴰ w s.chans) z m)
              ]),
              append_chan-Apart ss t o ch h.2 (λ t' o' k. new t' o' (inr k)),
            )
    ]
