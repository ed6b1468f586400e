-- ===== src/Auth/Nack/Taken.antt =====
-- Which Event `freshNack` takes into account.
use mathlib.Core.List.{Memᴰ}
use assayd.Base.{
  ℕ, ◌≡◌, ◌≤◌, subst, sym, ◌⊎◌, refl, Bool, true, false, not, ◌&&◌, ◌||◌, Option, none, some, List,
  [], ◌∷◌, String, ◌==◌, arith, ltb, leb, if◌then◌else◌, is_some, Bool-cases, inl, inr,
}
use assayd.Auth.Nack.{
  Event, Gateway, ManagedField, genuine_nack, event_last_seen, policy_written_at, names_policy,
  Found, at_of, takes, found_in, find_nack, fresh_nack,
}

-- The Event is a NACK of the policy that is newer than its last write.
unfoldable pub nacks : Gateway → ℕ → String → Event → Bool
unfolding genuine_nack event_last_seen
nacks gw written key ev =
    genuine_nack ev gw && (ltb written (event_last_seen ev) && names_policy key ev.names)

abbrev pub any_nack : Gateway → ℕ → String → List Event → Bool
unfolding nacks
any_nack gw written key [] = false
any_nack gw written key (ev ∷ evs) = nacks gw written key ev || any_nack gw written key evs

-- What was found is at or after what was found before.
find_nack-keeps :
    (gw : Gateway) (written : ℕ) (key : String) (f : Found) (evs : List Event)
    → (is_some (find_nack gw written key (some f) evs) ≡ true)
      × (f.at ≤ at_of (find_nack gw written key (some f) evs))
unfolding find_nack event_last_seen
find_nack-keeps gw written key f [] = (refl, omega arith)
find_nack-keeps gw written key f (ev ∷ evs) = elim (Bool-cases (takes gw written key (some f) ev)) [
  | inl e ↦
      let (is, le) =
        find_nack-keeps gw written key (record { event = ev; at = event_last_seen ev }) evs in
      rw e (is, ground (arith, le, e))
  | inr e ↦ rw e (find_nack-keeps gw written key f evs)
]

find_nack-any_nack :
    (gw : Gateway) (written : ℕ) (key : String) (evs : List Event)
    → is_some (find_nack gw written key none evs) ≡ any_nack gw written key evs
unfolding find_nack nacks event_last_seen
find_nack-any_nack gw written key [] = refl
find_nack-any_nack gw written key (ev ∷ evs) = elim (Bool-cases (takes gw written key none ev)) [
  | inl e ↦ rw e (
      ground (
        arith,
        e,
        (find_nack-keeps gw written key (record { event = ev; at = event_last_seen ev }) evs).0,
      ))
  | inr e ↦ rw e (ground (arith, e, find_nack-any_nack gw written key evs))
]

-- Every Event that NACKs the policy was last seen by this time.
abbrev pub nacks_by : Gateway → ℕ → String → ℕ → List Event → Bool
unfolding nacks event_last_seen
nacks_by gw written key at [] = true
nacks_by gw written key at (ev ∷ evs) =
    (not (nacks gw written key ev) || leb (event_last_seen ev) at) && nacks_by gw written key at evs

find_nack-le :
    (gw : Gateway) (written : ℕ) (key : String) (found : Option Found) (evs : List Event)
    → at_of found ≤ at_of (find_nack gw written key found evs)
find_nack-le gw written key none evs = omega arith
find_nack-le gw written key (some f) evs = (find_nack-keeps gw written key f evs).1

nack_le :
    (g n : Bool) (written at seen after : ℕ)
    → (if g && (ltb written seen && (ltb at seen && n)) then seen else at) ≤ after
    → (not (g && (ltb written seen && n)) || leb seen after) ≡ true
nack_le false n written at seen after le = refl
nack_le true false written at seen after le = ground (arith, le)
nack_le true true written at seen after le = ground (arith, le)

at_of-if :
    (b : Bool) (f : Found) (found : Option Found)
    → at_of (if b then some f else found) ≡ (if b then f.at else at_of found)
at_of-if true f found = refl
at_of-if false f found = refl

and-true : (a b : Bool) → a ≡ true → b ≡ true → (a && b) ≡ true
and-true a b p q = ground (arith, p, q)

find_nack-nacks_by :
    (gw : Gateway) (written : ℕ) (key : String) (found : Option Found) (evs : List Event)
    → nacks_by gw written key (at_of (find_nack gw written key found evs)) evs ≡ true
unfolding find_nack nacks
find_nack-nacks_by gw written key found [] = refl
find_nack-nacks_by gw written key found (ev ∷ evs) =
    let b = takes gw written key found ev in
    let next = if b then found_in ev else found in
    let last = at_of (find_nack gw written key next evs) in
    let le =
      subst (λ at. at ≤ last) (at_of-if b (record { event = ev; at = event_last_seen ev }) found)
        (find_nack-le gw written key next evs) in
    and-true _ _
      (nack_le (genuine_nack ev gw) (names_policy key ev.names) written (at_of found)
        (event_last_seen ev) last le)
      (find_nack-nacks_by gw written key next evs)

-- What was found is one of these Events, a NACK of the policy, with when that Event was last seen.
unfoldable pub IsTaken : Gateway → ℕ → String → List Event → Option Found → Type 0
IsTaken gw written key evs none = Unit
IsTaken gw written key evs (some f) =
    Memᴰ f.event evs × (nacks gw written key f.event ≡ true) × (f.at ≡ event_last_seen f.event)

IsTaken-later :
    (gw : Gateway) (written : ℕ) (key : String) (ev : Event) (evs : List Event)
    (found : Option Found)
    → IsTaken gw written key evs found
    → IsTaken gw written key (ev ∷ evs) found
unfolding IsTaken
IsTaken-later gw written key ev evs none h = tt
IsTaken-later gw written key ev evs (some f) h = (Memᴰ.tail h.0, h.1, h.2)

takes-IsTaken :
    (gw : Gateway) (written : ℕ) (key : String) (found : Option Found) (ev : Event)
    (evs : List Event)
    → takes gw written key found ev ≡ true
    → IsTaken gw written key (ev ∷ evs) (found_in ev)
unfolding IsTaken nacks
takes-IsTaken gw written key found ev evs e = (Memᴰ.head refl, ground (arith, e), refl)

-- The loop ends with what it had found before, or with one of the Events that it reads.
find_nack-IsTaken :
    (gw : Gateway) (written : ℕ) (key : String) (found : Option Found) (evs : List Event)
    → (find_nack gw written key found evs ≡ found)
      ⊎ IsTaken gw written key evs (find_nack gw written key found evs)
unfolding find_nack
find_nack-IsTaken gw written key found [] = inl refl
find_nack-IsTaken gw written key found (ev ∷ evs) =
    elim (Bool-cases (takes gw written key found ev)) [
      | inl e ↦ rw e (elim (find_nack-IsTaken gw written key (found_in ev) evs) [
        | inl same ↦ inr (
            subst (IsTaken gw written key (ev ∷ evs)) (sym same)
              (takes-IsTaken gw written key found ev evs e))
        | inr h ↦ inr (IsTaken-later gw written key ev evs _ h)
      ])
      | inr e ↦ rw e (elim (find_nack-IsTaken gw written key found evs) [
        | inl same ↦ inl same
        | inr h ↦ inr (IsTaken-later gw written key ev evs _ h)
      ])
    ]

find_nack-none-IsTaken :
    (gw : Gateway) (written : ℕ) (key : String) (evs : List Event)
    → IsTaken gw written key evs (find_nack gw written key none evs)
unfolding IsTaken
find_nack-none-IsTaken gw written key evs = elim (find_nack-IsTaken gw written key none evs) [
  | inl same ↦ subst (IsTaken gw written key evs) (sym same) tt
  | inr h ↦ h
]

-- For a gateway with a namespace, a NACK is taken into account exactly where some Event that was read is
-- the gateway's own, names the policy and is newer than the policy's last write. What is taken is one of
-- those Events, with the time at which it was last seen, and none of them was seen later.
pub fresh_nack-any_nack :
    (gw : Gateway) (fields : List ManagedField) (created : ℕ) (key : String) (evs : List Event)
    → (gw.namespace == "") ≡ false
    → (is_some (fresh_nack gw fields created key evs)
        ≡ any_nack gw (policy_written_at fields created) key evs)
      × (nacks_by gw
            (policy_written_at fields created)
            key
            (at_of (fresh_nack gw fields created key evs))
            evs
          ≡ true)
      × IsTaken gw (policy_written_at fields created) key evs (fresh_nack gw fields created key evs)
unfolding fresh_nack
fresh_nack-any_nack gw fields created key evs n =
    let written = policy_written_at fields created in
    rw n (
      find_nack-any_nack gw written key evs,
      find_nack-nacks_by gw written key none evs,
      find_nack-none-IsTaken gw written key evs,
    )
