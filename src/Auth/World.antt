-- ===== src/Auth/World.antt =====
-- The -auth passes over time: what is stored in status.auth, and what the passes have written, of which
-- each may have stopped anywhere, on an error or a crash.
--
-- Who else changes the route, the policy or status.auth is in the passes' reads, which are arbitrary,
-- but that nobody else writes status.auth: a pass reads the Agent live first (`requireFreshAgent`).
use assayd.Base.{
  ℕ, ◌≡◌, refl, Bool, true, false, not, ◌&&◌, Option, none, some, List, [], ◌∷◌, ◌++◌, String, ◌==◌,
  if◌then◌else◌, take, zero, suc, arith,
}
use assayd.Status.{AuthTransaction, AuthStatus, AgentStatus}
use assayd.Auth.{mode_api_key, is_create_kind, is_publishing, AuthDesire}
use assayd.Auth.Publication.{
  RoutePublication, Effect, ensured, wrote_policy, probed, persisted, AuthPass, PassInput,
}
use assayd.Auth.Create.{is_401}
use assayd.Auth.Pass.{StepReads, auth_step}

-- A 401 that is this route's policy's: attributed, with no gateway-wide policy beside it.
abbrev pub is_credited : Option ℕ → Bool → Bool → Bool
is_credited code attributed held = is_401 code && (attributed && not held)

-- Writes are listed from the last one. A 401 was credited since the route was last prepared.
unfoldable pub proved : List Effect → Bool
proved [] = false
proved (probed code attributed held ∷ es) =
    let rest = proved es in if is_credited code attributed held then true else rest
proved (ensured p ∷ es) = let rest = proved es in if p.prepared then false else rest
proved (_ ∷ es) = proved es

-- A 401 was credited since the route was last prepared and since a transaction last wrote the policy.
unfoldable pub enforced : List Effect → Bool
enforced [] = false
enforced (probed code attributed held ∷ es) =
    let rest = enforced es in if is_credited code attributed held then true else rest
enforced (ensured p ∷ es) = let rest = enforced es in if p.prepared then false else rest
enforced (wrote_policy ∷ es) = false
enforced (_ ∷ es) = enforced es

-- The route is published for callers with a key.
abbrev pub opens_for_keys : RoutePublication → Bool
opens_for_keys p = not p.prepared && p.mode == mode_api_key

abbrev pub is_allowed : Effect → List Effect → Bool
unfolding proved
is_allowed (ensured p) h = if opens_for_keys p then proved h else true
is_allowed _ h = true

-- Each publication for keys came after a credited 401.
unfoldable pub guarded : List Effect → Bool
unfolding proved
guarded [] = true
guarded (e ∷ h) = let rest = guarded h in is_allowed e h && rest

abbrev pub is_creating : Option AuthTransaction → Bool
is_creating none = false
is_creating (some tx) = is_create_kind tx.kind

-- status.auth records the Agent as served with keys, and does not re-create its route.
abbrev pub is_key_served : AuthStatus → Bool
is_key_served auth = auth.mode == mode_api_key && not (is_creating auth.transaction)

abbrev publishes_keys : Option AuthTransaction → Bool
publishes_keys none = false
publishes_keys (some tx) =
    is_create_kind tx.kind && (is_publishing tx.stage && tx.target_mode == mode_api_key)

-- A Create for keys is in stage Publishing.
abbrev pub is_key_publishing : AuthStatus → Bool
is_key_publishing auth = publishes_keys auth.transaction

-- What status.auth claims, the writes bear out.
unfoldable pub grounded : Option AuthStatus → List Effect → Bool
unfolding proved enforced
grounded none h = true
grounded (some auth) h =
    (if is_key_served auth then proved h else true)
    && (if is_key_publishing auth then enforced h else true)

pub record AuthWorld : Type 0 where
  pub stored : Option AuthStatus
  pub history : List Effect

abbrev pub stored_by : Effect → Option AuthStatus → Option AuthStatus
stored_by (persisted auth) old = auth
stored_by _ old = old

abbrev pub apply : AuthWorld → Effect → AuthWorld
apply w e = record { stored = stored_by e w.stored; history = e ∷ w.history }

abbrev pub play : AuthWorld → List Effect → AuthWorld
play w [] = w
play w (e ∷ es) = play (apply w e) es

-- A pass reads anything, decides from what is stored, and gets as far as `n` of its writes.
pub data Reach : AuthWorld → Type 0 where
  start : Reach (record { stored = none; history = [] })
  pass :
      {w : AuthWorld}
      → Reach w
      → (n : ℕ) (inp : PassInput) (status : AgentStatus) (reads : StepReads) (desired : String)
        (desire : AuthDesire)
      → Reach (play w (take n (auth_step inp status reads desired desire w.stored).effects))

pub record IsSafe (w : AuthWorld) : Type 0 where
  pub log : guarded w.history ≡ true
  pub record_ok : grounded w.stored w.history ≡ true

-- The world is safe after each of these writes, and before them.
abbrev pub IsSound : AuthWorld → List Effect → Type 0
IsSound w [] = IsSafe w
IsSound w (e ∷ es) = IsSafe w × IsSound (apply w e) es

pub IsSound-start : (w : AuthWorld) (es : List Effect) → IsSound w es → IsSafe w
IsSound-start w [] s = s
IsSound-start w (e ∷ es) s = s.0

pub IsSound-take :
    (n : ℕ) (w : AuthWorld) (es : List Effect) → IsSound w es → IsSafe (play w (take n es))
IsSound-take zero w es s = IsSound-start w es s
IsSound-take (suc n) w [] s = s
IsSound-take (suc n) w (e ∷ es) s = IsSound-take n (apply w e) es s.1

pub IsSound-end : (w : AuthWorld) (es : List Effect) → IsSound w es → IsSafe (play w es)
IsSound-end w [] s = s
IsSound-end w (e ∷ es) s = IsSound-end (apply w e) es s.1

pub IsSound-append :
    (w : AuthWorld) (es fs : List Effect)
    → IsSound w es
    → IsSound (play w es) fs
    → IsSound w (es ++ fs)
IsSound-append w [] fs s t = t
IsSound-append w (e ∷ es) fs s t = (s.0, IsSound-append (apply w e) es fs s.1 t)

pub play-append : (w : AuthWorld) (es fs : List Effect) → play w (es ++ fs) ≡ play (play w es) fs
play-append w [] fs = refl
play-append w (e ∷ es) fs = play-append (apply w e) es fs

pub enforced-proved : (h : List Effect) → enforced h ≡ true → proved h ≡ true
unfolding enforced proved
enforced-proved [] q = q
enforced-proved (probed code attributed held ∷ h) q = ground (arith, enforced-proved h)
enforced-proved (ensured p ∷ h) q = ground (arith, enforced-proved h)
enforced-proved (wrote_policy ∷ h) q = absurd (ground arith)
enforced-proved (e ∷ h) q = enforced-proved h q

-- A pass that branches is sound where each branch is.
pub branch-IsSound :
    (w : AuthWorld) (b : Bool) (x y : AuthPass)
    → (b ≡ true → IsSound w x.effects)
    → (b ≡ false → IsSound w y.effects)
    → IsSound w (if b then x else y).effects
branch-IsSound w true x y f g = f refl
branch-IsSound w false x y f g = g refl
