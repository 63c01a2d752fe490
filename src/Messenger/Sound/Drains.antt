-- ===== src/Messenger/Sound/Drains.antt =====
-- The drains of messenger.go keep the registry sound.
use gorch.Base.{
  ℕ, ◌==◌, if◌then◌else◌, Bool, true, false, List, [], ◌∷◌, none, some, Bool-cases, Option-cases,
  ℕ_discrete, ◌≡◌, ◌≢◌, inl, inr, refl, sym, ap, subst, ◌∙◌, arith,
}
use gorch.Messenger.{
  Messenger, Token, chans_where, every_slot, find_owner, close_subs, drain, retire, kill,
  delete_owner,
}
use gorch.Messenger.Sound.{IsSound, close_all-Touched}

pub kill_mono :
    (dead : Token → Bool) (os : List (ℕ × Token)) (t : Token)
    → dead t ≡ true
    → kill dead os t ≡ true
kill_mono dead [] t h = h
kill_mono dead ((id, u) ∷ rest) t h =
    kill_mono (λ w. if w == u then true else dead w) rest t (ground (arith, h))

kill-found :
    (dead : Token → Bool) (os : List (ℕ × Token)) (id : ℕ) (t : Token)
    → find_owner os id ≡ some t
    → kill dead os t ≡ true
kill-found dead [] id t h = cc h
kill-found dead ((k, u) ∷ rest) id t h = elim (ℕ_discrete k id) [
  | yes e ↦ kill_mono (λ w. if w == u then true else dead w) rest t (ground (arith, e, h))
  | no n ↦ kill-found (λ w. if w == u then true else dead w) rest id t (ground (arith, n, h))
]

kill-alive :
    (dead : Token → Bool) (os : List (ℕ × Token)) (t : Token)
    → kill dead os t ≡ false
    → dead t ≡ false
kill-alive dead os t h = elim (Bool-cases (dead t)) [
  | inl e ↦ cc (kill_mono dead os t e, h)
  | inr e ↦ e
]

pub drain-IsSound : (m : Messenger) → IsSound m → IsSound (drain m)
unfolding drain
drain-IsSound m v =
    let m1 = close_subs m (chans_where every_slot m.slots) in
    let closed = close_all-Touched m every_slot v in
    let plain = record m {
      channels = m1.channels;
      slots = [];
      dead = kill m.dead m.owners;
      owners = [];
    } in
    let same : drain m ≡ plain =
      ap (λ (q : Messenger). record q { slots = []; dead = kill q.dead q.owners; owners = [] })
        closed.same in
    subst IsSound (sym same) (record {
      unbroken = v.unbroken;
      apart = tt;
      one_slot = tt;
      live = λ t o c k. absurd k;
      known = λ t lt alive.
          let was = v.known t lt (kill-alive m.dead m.owners t alive) in
          cc (kill-found m.dead m.owners (m.owner_id t) t was, alive);
      minted = λ id t h. cc h;
    })

delete_owner-other :
    (os : List (ℕ × Token)) (id k : ℕ)
    → k ≢ id
    → find_owner (delete_owner os id) k ≡ find_owner os k
delete_owner-other [] id k n = refl
delete_owner-other ((i, t) ∷ rest) id k n = ground (arith, n, delete_owner-other rest id k n)

delete_owner-gone : (os : List (ℕ × Token)) (id : ℕ) → find_owner (delete_owner os id) id ≡ none
delete_owner-gone [] id = refl
delete_owner-gone ((i, t) ∷ rest) id = ground (arith, delete_owner-gone rest id)

pub retire-IsSound : (m : Messenger) (id : ℕ) → IsSound m → IsSound (retire m id)
retire-IsSound m id v = elim (Option-cases (find_owner m.owners id)) [
  | inl e ↦ rw (e, retire) v
  | inr (t, e) ↦
      let (lt_t, id_t, alive_t) = v.minted id t e in
      rw (e, retire)
        (record {
          unbroken = v.unbroken;
          apart = v.apart;
          one_slot = v.one_slot;
          live = v.live;
          known = λ u lt alive.
              let other : u ≢ t = λ z. ground (arith, z, alive) in
              let was = v.known u lt (ground (arith, other, alive)) in
              let apart_ids : m.owner_id u ≢ id =
                λ z. other (cc (ap (find_owner m.owners) z, was, e)) in
              delete_owner-other m.owners id (m.owner_id u) apart_ids ∙ was;
          minted = λ k u h. elim (ℕ_discrete k id) [
            | yes z ↦
                cc (h, ap (find_owner (delete_owner m.owners id)) z, delete_owner-gone m.owners id)
            | no n ↦
                let (a, b, c) = v.minted k u (sym (delete_owner-other m.owners id k n) ∙ h) in
                let other : u ≢ t = λ z. n (sym b ∙ ap m.owner_id z ∙ id_t) in
                (a, b, ground (arith, other, c))
          ];
        })
]

-- What the retirement leaves alone.
pub retire-same :
    (m : Messenger) (id : ℕ)
    → ((retire m id).slots ≡ m.slots)
      × ((retire m id).channels ≡ m.channels)
      × ((retire m id).next_token ≡ m.next_token)
      × ((retire m id).owner_id ≡ m.owner_id)
      × (find_owner (retire m id).owners id ≡ none)
retire-same m id = elim (Option-cases (find_owner m.owners id)) [
  | inl e ↦ rw (e, retire) (refl, refl, refl, refl, e)
  | inr (t, e) ↦ rw (e, retire) (refl, refl, refl, refl, delete_owner-gone m.owners id)
]
