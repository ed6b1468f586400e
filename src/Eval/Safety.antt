-- ===== src/Eval/Safety.antt =====
-- The invariant of the eval controller's steps: what each process holds, and what was sent.
use assayd.Base.{
  ℕ, suc, ◌<◌, ◌≡◌, refl, sym, ◌∙◌, subst, ◌⊎◌, inl, inr, ◌≢◌, true, false, Option, some, List, [],
  ◌∷◌, String, arith, eq_iff, All, All-map, All_at,
}
use mathlib.Core.List.{Memᴰ}
use assayd.Status.{Outcome, sending, EvalStatus, EvalCaseRecord}
use assayd.Eval.Records.{EvalRun, with_case, with_outcome, case_record}
use assayd.Eval.Cases.{case_record-with_case}
use assayd.Eval.Steps.{
  is_sending, is_none, with_claim, View, Flight, World, cases_of, claims, put, anew, draw, send,
  Current,
}
use assayd.Eval.NextCase.{cases-with_outcome}

-- Written while its own version was stored, or an earlier one's.
abbrev pub IsCoherent : World → View → Type 0
IsCoherent w v = (v.version < w.stored.version) ⊎ (v ≡ w.stored)

-- What a process that may still patch holds of its claim.
pub record IsClaimed (w : World) (f : Flight) : Type 0 where
  pub current : f.view ≡ w.stored
  pub is_open : is_sending (case_record (cases_of w.stored.eval) f.id) ≡ true
  pub own : claims (cases_of w.stored.eval) f.id f.nonce ≡ true
  pub same_run : f.number ≡ w.number

abbrev pub IsLive : World → Flight → Type 0
IsLive w f = (f.view.version < w.stored.version) ⊎ IsClaimed w f

-- Its nonce was drawn, and bears an entry in its own run only.
pub record IsOwn (w : World) (f : Flight) : Type 0 where
  pub drawn : Memᴰ f.nonce w.nonces
  pub run_only :
      (f.number ≡ w.number)
      ⊎ ((f.number < w.number) × (claims (cases_of w.stored.eval) f.id f.nonce ≡ false))

-- A request that was sent was sent in an earlier run, or its case has an entry.
abbrev pub IsEntered : World → (ℕ × String) → Type 0
IsEntered w s =
    (s.0 < w.number)
    ⊎ ((s.0 ≡ w.number) × (is_none (case_record (cases_of w.stored.eval) s.1) ≡ false))

-- No member occurs twice.
abbrev pub IsUnique {ℓ} : {A : Type ℓ} → List A → Type ℓ
IsUnique [] = Unit
IsUnique (x ∷ xs) = All (λ y. x ≢ y) xs × IsUnique xs

pub record IsSafe (w : World) : Type 0 where
  pub views : All (IsCoherent w) w.views
  pub flights : All (IsLive w) w.flights
  pub owners : All (IsOwn w) w.flights
  pub entered : All (IsEntered w) w.sent
  pub unique : IsUnique w.sent

-- The world after a write of status.eval.
abbrev pub store : World → Option EvalStatus → World
store w e = record w { stored = record { version = suc w.stored.version; eval = e } }

-- A patch in a run: no entry is dropped, and no entry takes on a nonce that is another flight's.
pub store-IsSafe :
    (w : World) (e : Option EvalStatus)
    → IsSafe w
    → ((id : String)
        → is_none (case_record (cases_of w.stored.eval) id) ≡ false
        → is_none (case_record (cases_of e) id) ≡ false)
    → ((f : Flight)
        → IsOwn w f
        → claims (cases_of w.stored.eval) f.id f.nonce ≡ false
        → f.number < w.number
        → claims (cases_of e) f.id f.nonce ≡ false)
    → IsSafe (store w e)
store-IsSafe w e s keep own = record {
  views = All-map w.views (λ v h. inl (ground arith)) s.views;
  flights = All-map w.flights (λ f h. inl (ground arith)) s.flights;
  owners =
      All-map w.flights
        (λ f h. record { drawn = h.drawn; run_only = ground (arith, own f h, h.run_only) })
        s.owners;
  entered = All-map w.sent (λ t h. ground (arith, keep t.1)) s.entered;
  unique = s.unique;
}

-- A patch that starts cases[] anew.
pub anew-IsSafe : (w : World) (e : EvalStatus) → e.cases ≡ [] → IsSafe w → IsSafe (anew (put w e))
unfolding case_record
anew-IsSafe w e empty s = record {
  views = All-map w.views (λ v h. inl (ground arith)) s.views;
  flights = All-map w.flights (λ f h. inl (ground arith)) s.flights;
  owners =
      All-map w.flights
        (λ f h. record {
          drawn = h.drawn;
          run_only = inr (ground (arith, h.run_only), rw empty refl);
        })
        s.owners;
  entered = All-map w.sent (λ t h. inl (ground arith)) s.entered;
  unique = s.unique;
}

-- A patch that writes one entry, whose nonce is no other flight's.
pub entry-IsSafe :
    (w : World) (e : EvalStatus) (c : EvalCaseRecord)
    → e.cases ≡ with_case (cases_of w.stored.eval) c
    → ((f : Flight)
        → IsOwn w f
        → claims (cases_of w.stored.eval) c.id f.nonce ≡ false
        → c.claim ≢ f.nonce)
    → IsSafe w
    → IsSafe (put w e)
entry-IsSafe w e c q own s =
    store-IsSafe w (some e) s
      (λ id h. ground (arith, q, case_record-with_case (cases_of w.stored.eval) c id))
      (λ f h k l. ground (
        arith,
        q,
        case_record-with_case (cases_of w.stored.eval) c f.id,
        own f h,
        eq_iff c.claim f.nonce,
        eq_iff c.id f.id,
      ))

-- What a process holds depends on the stored record and the run alone.
pub IsLive-same :
    (w w' : World) (f : Flight)
    → w'.stored ≡ w.stored
    → w'.number ≡ w.number
    → IsLive w f
    → IsLive w' f
IsLive-same w w' f q n (inl older) = inl (ground arith)
IsLive-same w w' f q n (inr c) = inr (record {
  current = c.current ∙ sym q;
  is_open = ground (arith, c.is_open);
  own = ground (arith, c.own);
  same_run = ground (arith, c.same_run);
})

pub draw-IsSafe : (w : World) (nonce : String) → IsSafe w → IsSafe (draw nonce w)
draw-IsSafe w nonce s = record {
  views = All-map w.views (λ v h. h) s.views;
  flights = All-map w.flights (λ f. IsLive-same w (draw nonce w) f refl refl) s.flights;
  owners =
      All-map w.flights (λ f h. record { drawn = Memᴰ.tail h.drawn; run_only = h.run_only })
        s.owners;
  entered = s.entered;
  unique = s.unique;
}

-- A request goes out that was not sent before in the run, for a claim that is stored.
pub send-IsSafe :
    (w : World) (run : EvalRun) (id nonce : String) (outcome : Outcome) (reason : String)
    → Memᴰ nonce w.nonces
    → is_sending (case_record (cases_of w.stored.eval) id) ≡ true
    → claims (cases_of w.stored.eval) id nonce ≡ true
    → All (λ t. (w.number, id) ≢ t) w.sent
    → IsSafe w
    → IsSafe (send w run id nonce outcome reason)
send-IsSafe w run id nonce outcome reason d o c new s = record {
  views = All-map w.views (λ v h. h) s.views;
  flights = (
    inr (record { current = refl; is_open = o; own = c; same_run = refl }),
    All-map w.flights (λ f. IsLive-same w (send w run id nonce outcome reason) f refl refl)
        s.flights,
  );
  owners = (
    record { drawn = d; run_only = inl refl },
    All-map w.flights (λ f h. record { drawn = h.drawn; run_only = h.run_only }) s.owners,
  );
  entered = (inr (refl, ground arith), All-map w.sent (λ t h. h) s.entered);
  unique = (new, s.unique);
}

-- A claim's id has no entry, so no request for it was sent in the run.
pub new_in_run :
    (w : World) (id : String)
    → is_none (case_record (cases_of w.stored.eval) id) ≡ true
    → IsSafe w
    → All (λ t. (w.number, id) ≢ t) w.sent
new_in_run w id free s =
    All-map w.sent (λ t h p. let again = subst (IsEntered w) (sym p) h in ground arith) s.entered

-- What a view that is current holds is what is stored.
pub Current-view :
    (w : World) (v : View) (e : EvalStatus) → IsSafe w → Current w v e → w.stored.eval ≡ some e
Current-view w v e s c =
    ground (arith, All_at (IsCoherent w) s.views c.was_read, c.same_version, c.holds)

-- The patch of a claim.
pub claim-IsSafe :
    (w : World) (v : View) (e : EvalStatus) (id nonce : String)
    → Current w v e
    → is_none (case_record e.cases id) ≡ true
    → ¬ (Memᴰ nonce w.nonces)
    → IsSafe w
    → IsSafe (put w (with_claim e id nonce))
unfolding with_claim
claim-IsSafe w v e id nonce c free fresh s =
    entry-IsSafe w (with_claim e id nonce)
      (record { id = id; outcome = sending; reason = ""; claim = nonce })
      (ground (arith, Current-view w v e s c))
      (λ f h k p. fresh (subst (λ x. Memᴰ x w.nonces) (sym p) h.drawn)) s

-- The patch of an outcome over an entry with the same nonce.
pub outcome-IsSafe :
    (w : World) (e : EvalStatus) (run : EvalRun) (id nonce : String) (outcome : Outcome)
    (reason : String) (now : ℕ)
    → w.stored.eval ≡ some e
    → claims e.cases id nonce ≡ true
    → IsSafe w
    → IsSafe (put w (with_outcome run e id nonce outcome reason now))
outcome-IsSafe w e run id nonce outcome reason now q c s =
    entry-IsSafe w (with_outcome run e id nonce outcome reason now)
      (record { id = id; outcome = outcome; reason = reason; claim = nonce })
      (ground (arith, cases-with_outcome run e id nonce outcome reason now))
      (λ f h k p. let same = subst (λ x. claims e.cases id x ≡ true) p c in ground arith) s
