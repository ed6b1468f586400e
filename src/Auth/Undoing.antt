-- ===== src/Auth/Undoing.antt =====
-- An abandonment and a refused Adopt keep the world safe.
use assayd.Base.{
  ◌≡◌, refl, Bool, true, false, not, ◌&&◌, ◌||◌, inl, inr, Option, none, some, List, [], ◌∷◌,
  String, ◌==◌, arith, Bool-cases, if◌then◌else◌,
}
use assayd.Status.{AuthTransaction, AuthStatus, AgentStatus}
use assayd.Predicates.{is_lock}
use assayd.Auth.{is_create_kind, Route, route_published}
use assayd.Auth.Publication.{
  Effect, ensured, collected, persisted, stripped, deleted_route, deleted_policy, PassInput,
  route_publication_for,
}
use assayd.Auth.Abandon.{
  refusal, refuse_adopt, AbandonReads, Abandoned, halted, resumed, abandon_record, abandon_route,
  abandon_policy, abandon, prefixed, recorded_none, strips, deletes, is_there,
}
use assayd.Auth.World.{
  proved, enforced, guarded, grounded, AuthWorld, play, IsSafe, IsSound, IsSound-append,
  play-append,
}
use assayd.Auth.Rounds.{write-IsSafe}
use assayd.Auth.Locking.{ensure_recorded-IsSafe}
use assayd.Auth.Dispatching.{is_creating_in, at, IsResumed, collected-IsSafe}

-- An abandonment's writes are sound, and it goes on only with what is then stored, or with nothing.
abbrev pub IsSoundAbandoned : AuthWorld → Abandoned → Type 0
IsSoundAbandoned w (halted p) = IsSound w p.effects
IsSoundAbandoned w (resumed es auth) = IsSound w es × IsResumed (play w es) auth

-- A write of none of these kinds shows nothing, and undoes nothing that was shown.
quiet-IsSafe :
    (stored : Option AuthStatus) (e : Effect) (h : List Effect)
    → (guarded h ≡ true → guarded (e ∷ h) ≡ true)
    → proved (e ∷ h) ≡ proved h
    → enforced (e ∷ h) ≡ enforced h
    → IsSafe (at stored h)
    → IsSafe (at stored (e ∷ h))
unfolding grounded
quiet-IsSafe none e h g p f s = record { log = g s.log; record_ok = refl }
quiet-IsSafe (some auth) e h g p f s = record {
  log = g s.log;
  record_ok = ground (arith, p, f, s.record_ok);
}

-- The route is brought to what status.auth records, if anything.
ensure_open-IsSafe :
    (auth : Option AuthStatus) (h : List Effect)
    → is_creating_in auth ≡ false
    → IsSafe (at auth h)
    → IsSafe (at auth (ensured (route_publication_for auth) ∷ h))
unfolding route_publication_for guarded grounded
ensure_open-IsSafe none h k s = record { log = ground (arith, s.log); record_ok = refl }
ensure_open-IsSafe (some auth) h k s = ensure_recorded-IsSafe auth h k s

grounded-refusal :
    (auth : Option AuthStatus) (desired : String) (h : List Effect)
    → grounded (some (refusal auth desired)) h ≡ true
unfolding refusal grounded
grounded-refusal none desired h = refl
grounded-refusal (some auth) desired h = refl

refused-IsSound :
    (inp : PassInput) (auth stored : Option AuthStatus) (desired : String) (h : List Effect)
    → IsSafe (at stored h)
    → IsSound
        (at stored h)
        (collected inp.route_name ∷ persisted (some (refusal auth desired)) ∷ [])
refused-IsSound inp auth stored desired h s =
    let c = collected-IsSafe stored inp.route_name h s in
    (s, (c, write-IsSafe stored (refusal auth desired) _ c (grounded-refusal auth desired _)))

pub refuse_adopt-IsSound :
    (inp : PassInput) (status : AgentStatus) (auth : Option AuthStatus) (desired : String)
    (h : List Effect)
    → is_creating_in auth ≡ false
    → IsSafe (at auth h)
    → IsSound (at auth h) (refuse_adopt inp status auth desired).effects
unfolding refuse_adopt
refuse_adopt-IsSound inp status auth desired h k s =
    elim (Bool-cases (status.active_revision == "")) [
      | inl e ↦ rw e (refused-IsSound inp auth auth desired h s)
      | inr e ↦ rw e (s, refused-IsSound inp auth auth desired _ (ensure_open-IsSafe auth h k s))
    ]

prefixed-IsSound :
    (w : AuthWorld) (es : List Effect) (a : Abandoned)
    → IsSound w es
    → IsSoundAbandoned (play w es) a
    → IsSoundAbandoned w (prefixed es a)
prefixed-IsSound w es (halted p) s t = IsSound-append w es p.effects s t
prefixed-IsSound w es (resumed fs auth) s t =
    (IsSound-append w es fs s t.0, rw (play-append w es fs) t.1)

-- An abandonment that branches is sound where each branch is.
branch-IsSoundAbandoned :
    (w : AuthWorld) (b : Bool) (x y : Abandoned)
    → (b ≡ true → IsSoundAbandoned w x)
    → (b ≡ false → IsSoundAbandoned w y)
    → IsSoundAbandoned w (if b then x else y)
branch-IsSoundAbandoned w true x y f g = f refl
branch-IsSoundAbandoned w false x y f g = g refl

-- An empty status.auth claims nothing.
forget-IsSafe :
    (stored : Option AuthStatus) (h : List Effect)
    → IsSafe (at stored h)
    → IsSafe (at none (persisted none ∷ h))
unfolding guarded grounded
forget-IsSafe stored h s = record { log = ground (arith, s.log); record_ok = refl }

abandon_record-IsSound :
    (inp : PassInput) (status : AgentStatus) (b : Bool) (desired : String) (auth : AuthStatus)
    (tx : AuthTransaction) (h : List Effect)
    → auth.transaction ≡ some tx
    → (is_create_kind tx.kind || is_lock tx.kind) ≡ true
    → IsSafe (at (some auth) h)
    → IsSoundAbandoned (at (some auth) h) (abandon_record inp status b desired auth tx)
unfolding abandon_record grounded
abandon_record-IsSound inp status b desired auth tx h q k s =
    branch-IsSoundAbandoned _ (is_lock tx.kind) _ _
      (λ l.
        branch-IsSoundAbandoned _ (auth.mode == "") _ _
          (λ e. refuse_adopt-IsSound inp status (some auth) desired h (rw q (ground (arith, l))) s)
          (λ e. (
            (s, write-IsSafe _ (recorded_none auth) h s (ground (arith, s.record_ok, l, q))),
            refl,
          )))
      (λ l.
        branch-IsSoundAbandoned _ b _ _ (λ e. (s, tt))
          (λ e. ((s, forget-IsSafe (some auth) h s), tt)))

abandon_policy-IsSound :
    (r : AbandonReads) (tx : AuthTransaction) (auth : AuthStatus) (rest : Abandoned)
    (h : List Effect)
    → ((g : List Effect) → IsSafe (at (some auth) g) → IsSoundAbandoned (at (some auth) g) rest)
    → IsSafe (at (some auth) h)
    → IsSoundAbandoned (at (some auth) h) (abandon_policy r tx rest)
unfolding abandon_policy guarded proved enforced
abandon_policy-IsSound r tx auth rest h f s =
    let gone = quiet-IsSafe (some auth) deleted_policy h (λ g. g) refl refl s in
    branch-IsSoundAbandoned _ (tx.written && r.owned) _ _
      (λ e.
        prefixed-IsSound _ (deleted_policy ∷ []) _ (s, gone)
          (branch-IsSoundAbandoned _ r.held _ _ (λ l. gone) (λ l. f _ gone)))
      (λ e. f h s)

strips-IsSound :
    (rt : Option Route) (auth : AuthStatus) (rest : Abandoned) (h : List Effect)
    → ((g : List Effect) → IsSafe (at (some auth) g) → IsSoundAbandoned (at (some auth) g) rest)
    → IsSafe (at (some auth) h)
    → IsSoundAbandoned (at (some auth) h) (prefixed (strips rt) rest)
unfolding guarded proved enforced
strips-IsSound none auth rest h f s = prefixed-IsSound _ [] rest s (f h s)
strips-IsSound (some rt) auth rest h f s =
    let bare = quiet-IsSafe (some auth) stripped h (λ g. g) refl refl s in
    elim (Bool-cases (route_published rt)) [
      | inl e ↦ rw e (prefixed-IsSound (at (some auth) h) (stripped ∷ []) rest (s, bare) (f _ bare))
      | inr e ↦ rw e (prefixed-IsSound (at (some auth) h) [] rest s (f h s))
    ]

deletes-IsSound :
    (r : AbandonReads) (auth : AuthStatus) (rest : Abandoned) (h : List Effect)
    → ((g : List Effect) → IsSafe (at (some auth) g) → IsSoundAbandoned (at (some auth) g) rest)
    → IsSafe (at (some auth) h)
    → IsSoundAbandoned (at (some auth) h) (prefixed (deletes r) rest)
unfolding guarded proved enforced
deletes-IsSound r auth rest h f s =
    let gone = quiet-IsSafe (some auth) deleted_route h (λ g. g) refl refl s in
    elim (Bool-cases r.is_deleting) [
      | inl e ↦ rw e (prefixed-IsSound (at (some auth) h) [] rest s (f h s))
      | inr e ↦
          rw e (prefixed-IsSound (at (some auth) h) (deleted_route ∷ []) rest (s, gone) (f _ gone))
    ]

abandon_route-IsSound :
    (r : AbandonReads) (b : Bool) (auth : AuthStatus) (rest : Abandoned) (h : List Effect)
    → ((g : List Effect) → IsSafe (at (some auth) g) → IsSoundAbandoned (at (some auth) g) rest)
    → IsSafe (at (some auth) h)
    → IsSoundAbandoned (at (some auth) h) (abandon_route r b rest)
unfolding abandon_route
abandon_route-IsSound r b auth rest h f s =
    strips-IsSound r.live auth _ h
      (λ g t.
        branch-IsSoundAbandoned _ (is_there r.live && not b) _ _
          (λ e.
            deletes-IsSound r auth _ g
              (λ k v. branch-IsSoundAbandoned _ r.still _ _ (λ l. v) (λ l. f k v)) t)
          (λ e. f g t))
      s

-- An abandonment keeps the world safe.
pub abandon-IsSound :
    (inp : PassInput) (status : AgentStatus) (r : AbandonReads) (b : Bool) (desired : String)
    (auth : AuthStatus) (tx : AuthTransaction) (h : List Effect)
    → auth.transaction ≡ some tx
    → (is_create_kind tx.kind || is_lock tx.kind) ≡ true
    → IsSafe (at (some auth) h)
    → IsSoundAbandoned (at (some auth) h) (abandon inp status r b desired auth tx)
unfolding abandon
abandon-IsSound inp status r b desired auth tx h q k s =
    let ends = λ (g : List Effect) (t : IsSafe (at (some auth) g)).
      abandon_policy-IsSound r tx auth (abandon_record inp status b desired auth tx) g
        (λ l v. abandon_record-IsSound inp status b desired auth tx l q k v) t in
    branch-IsSoundAbandoned _ (is_create_kind tx.kind) _ _
      (λ e. abandon_route-IsSound r b auth _ h ends s) (λ e. ends h s)
