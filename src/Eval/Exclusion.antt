-- ===== src/Eval/Exclusion.antt =====
-- What the steps keep of the requests sent and of the outcomes recorded.
use assayd.Base.{
  ◌≡◌, refl, ap, inl, inr, true, false, Option, none, some, ◌∷◌, String, arith, eq_iff, eq_refl,
  All-map, All_at,
}
use mathlib.Core.List.{Memᴰ}
use assayd.Status.{sending, case_failed, EvalBlocked, EvalBlockedFor, EvalStatus, EvalCaseRecord}
use assayd.Eval.Records.{with_case, with_outcome, case_record, outcome_recorded, has_outcome}
use assayd.Eval.Cases.{case_record-with_case}
use assayd.Eval.Pass.{run_start_record}
use assayd.Eval.Steps.{
  is_sending, cleared, blocked_write, with_claim, View, Flight, World, cases_of, claims,
  claim_stands, put, draw, Step, Reach,
}
use assayd.Eval.NextCase.{next_case-interrupted, next_case-to_claim, cases-with_outcome}
use assayd.Eval.Safety.{
  IsSafe, IsOwn, IsClaimed, IsCoherent, IsLive, IsUnique, store-IsSafe, anew-IsSafe, IsLive-same,
  draw-IsSafe, send-IsSafe, new_in_run, Current-view, claim-IsSafe, outcome-IsSafe,
}

-- A blocked write keeps cases[].
kept_by_blocked :
    (w : World) (v : View) (b : Option EvalBlocked) (bf : EvalBlockedFor)
    → IsSafe w
    → Memᴰ v w.views
    → v.version ≡ w.stored.version
    → (blocked_write v.eval b bf).cases ≡ cases_of w.stored.eval
unfolding blocked_write
kept_by_blocked w v b bf s m same =
    of_eval v.eval w.stored.eval (ground (arith, All_at (IsCoherent w) s.views m))
  where
    of_eval : (x y : Option EvalStatus) → x ≡ y → (blocked_write x b bf).cases ≡ cases_of y
    of_eval none y q = ap cases_of q
    of_eval (some x) y q = ap cases_of q

-- The claim of a flight that may still patch.
flight_claim :
    (w : World) (f : Flight) (e : EvalStatus)
    → IsSafe w
    → Memᴰ f w.flights
    → f.view.version ≡ w.stored.version
    → f.view.eval ≡ some e
    → (w.stored.eval ≡ some e) × (IsClaimed w f)
flight_claim w f e s m same q = elim (All_at (IsLive w) s.flights m) [
  | inl older ↦ absurd (omega (arith, same))
  | inr c ↦ (ground (arith, c.current), c)
]

-- Every step keeps it.
Step-IsSafe : (w w' : World) → Step w w' → IsSafe w → IsSafe w'
unfolding cleared run_start_record with_claim claim_stands
Step-IsSafe w _ Step.observe s = record {
  views = (inr refl, All-map w.views (λ v h. h) s.views);
  flights =
      All-map w.flights (λ f. IsLive-same w (record w { views = w.stored ∷ w.views }) f refl refl)
        s.flights;
  owners = All-map w.flights (λ f h. record { drawn = h.drawn; run_only = h.run_only }) s.owners;
  entered = s.entered;
  unique = s.unique;
}
Step-IsSafe w _ Step.other_write s = store-IsSafe w w.stored.eval s (λ id h. h) (λ f h k l. k)
Step-IsSafe w _ (Step.write_blocked v b bf m same) s =
    store-IsSafe w (some (blocked_write v.eval b bf)) s
      (λ id h. ground (arith, kept_by_blocked w v b bf s m same))
      (λ f h k l. ground (arith, kept_by_blocked w v b bf s m same))
Step-IsSafe w _ (Step.clear v e c) s = anew-IsSafe w (cleared e) refl s
Step-IsSafe w _ (Step.start v run st path digest m same q) s =
    anew-IsSafe w (run_start_record run st path digest) refl s
Step-IsSafe w _ (Step.claim v e run c nonce outcome reason cur pair next fresh) s =
    let free = next_case-to_claim run e.cases c next in
    let stored = Current-view w v e s cur in
    let after = put w (with_claim e c.id nonce) in
    let entry : EvalCaseRecord = record {
      id = c.id;
      outcome = sending;
      reason = "";
      claim = nonce;
    } in
    let written : case_record (with_case e.cases entry) c.id ≡ some entry =
      ground (arith, case_record-with_case e.cases entry c.id, eq_refl c.id) in
    send-IsSafe (draw nonce after) run c.id nonce outcome reason (Memᴰ.head refl)
      (ground (arith, written)) (ground (arith, written, eq_refl nonce))
      (new_in_run w c.id (ground arith) s)
      (draw-IsSafe after nonce (claim-IsSafe w v e c.id nonce cur free fresh s))
Step-IsSafe w _ (Step.claim_lost v e run c nonce cur pair next fresh) s =
    draw-IsSafe (put w (with_claim e c.id nonce)) nonce
      (claim-IsSafe w v e c.id nonce cur (next_case-to_claim run e.cases c next) fresh s)
Step-IsSafe w _ (Step.interrupt v e run c now cur pair next) s =
    outcome-IsSafe w e run c.id c.claim case_failed "Interrupted" now (Current-view w v e s cur)
      (ground (arith, next_case-interrupted run e.cases c next, eq_refl c.claim)) s
Step-IsSafe w _ (Step.record_outcome f e now m same q) s =
    let (stored, c) = flight_claim w f e s m same q in
    outcome-IsSafe w e f.run f.id f.nonce f.outcome f.reason now stored (ground (arith, c.own)) s
Step-IsSafe w _ (Step.read_again f m stands) s = record {
  views = All-map w.views (λ v h. h) s.views;
  flights = (
    inr (record {
      current = refl;
      is_open = ground arith;
      own = ground arith;
      same_run = ground (arith, (All_at (IsOwn w) s.owners m).run_only);
    }),
    All-map w.flights
        (λ g.
          IsLive-same w (record w { flights = record f { view = w.stored } ∷ w.flights }) g refl
            refl)
        s.flights,
  );
  owners = (
    record {
      drawn = (All_at (IsOwn w) s.owners m).drawn;
      run_only = (All_at (IsOwn w) s.owners m).run_only;
    },
    All-map w.flights (λ g h. record { drawn = h.drawn; run_only = h.run_only }) s.owners,
  );
  entered = All-map w.sent (λ t h. h) s.entered;
  unique = s.unique;
}

Reach-IsSafe : (v : View) (w : World) → Reach v w → IsSafe w
Reach-IsSafe v _ Reach.begin = record {
  views = tt;
  flights = tt;
  owners = tt;
  entered = tt;
  unique = tt;
}
Reach-IsSafe v _ (Reach.later {w = w} {w' = w'} r step) = Step-IsSafe w w' step (Reach-IsSafe v w r)

-- However the processes interleave, with lost responses, conflicts and stale reads, no case is sent
-- twice between two starts of cases[].
pub sent-IsUnique : (v : View) (w : World) → Reach v w → IsUnique w.sent
sent-IsUnique v w r = (Reach-IsSafe v w r).unique

-- A process that can still patch the outcome of a request holds the stored record, in which the claim of
-- the request stands with its nonce and no outcome, and the run is the one that it was sent in.
pub flight_may_record :
    (v : View) (w : World) (f : Flight)
    → Reach v w
    → Memᴰ f w.flights
    → f.view.version ≡ w.stored.version
    → (f.view ≡ w.stored)
      × (is_sending (case_record (cases_of w.stored.eval) f.id) ≡ true)
      × (claims (cases_of w.stored.eval) f.id f.nonce ≡ true)
      × (f.number ≡ w.number)
flight_may_record v w f r m same = elim (All_at (IsLive w) (Reach-IsSafe v w r).flights m) [
  | inl older ↦ absurd (omega (arith, same))
  | inr c ↦ (c.current, c.is_open, c.own, c.same_run)
]

-- A write of one entry keeps the other entries, and no entry with an outcome is the one written.
kept_entry :
    (w : World) (e e' : EvalStatus) (c : EvalCaseRecord) (id : String)
    → e'.cases ≡ with_case e.cases c
    → w.stored.eval ≡ some e
    → has_outcome outcome_recorded (case_record (cases_of w.stored.eval) id) ≡ true
    → has_outcome outcome_recorded (case_record e.cases c.id) ≡ false
    → case_record e'.cases id ≡ case_record (cases_of w.stored.eval) id
kept_entry w e e' c id q s h k =
    ground (arith, case_record-with_case e.cases c id, eq_iff c.id id, q, s)

kept_outcome :
    (w w' : World) (id : String)
    → Step w w'
    → IsSafe w
    → w'.number ≡ w.number
    → has_outcome outcome_recorded (case_record (cases_of w.stored.eval) id) ≡ true
    → case_record (cases_of w'.stored.eval) id ≡ case_record (cases_of w.stored.eval) id
unfolding with_claim
kept_outcome w _ id Step.observe s n h = refl
kept_outcome w _ id Step.other_write s n h = refl
kept_outcome w _ id (Step.write_blocked v b bf m same) s n h =
    ap (λ cs. case_record cs id) (kept_by_blocked w v b bf s m same)
kept_outcome w _ id (Step.clear v e c) s n h = absurd (omega (arith, n))
kept_outcome w _ id (Step.start v run st path digest m same q) s n h = absurd (omega (arith, n))
kept_outcome w _ id (Step.claim v e run c nonce result reason cur pair next fresh) s n h =
    kept_entry w e (with_claim e c.id nonce)
      (record { id = c.id; outcome = sending; reason = ""; claim = nonce }) id refl
      (Current-view w v e s cur) h (ground (arith, next_case-to_claim run e.cases c next))
kept_outcome w _ id (Step.claim_lost v e run c nonce cur pair next fresh) s n h =
    kept_entry w e (with_claim e c.id nonce)
      (record { id = c.id; outcome = sending; reason = ""; claim = nonce }) id refl
      (Current-view w v e s cur) h (ground (arith, next_case-to_claim run e.cases c next))
kept_outcome w _ id (Step.interrupt v e run c now cur pair next) s n h =
    kept_entry w e (with_outcome run e c.id c.claim case_failed "Interrupted" now)
      (record { id = c.id; outcome = case_failed; reason = "Interrupted"; claim = c.claim }) id
      (cases-with_outcome run e c.id c.claim case_failed "Interrupted" now)
      (Current-view w v e s cur) h (ground (arith, next_case-interrupted run e.cases c next))
kept_outcome w _ id (Step.record_outcome f e now m same q) s n h =
    let (stored, c) = flight_claim w f e s m same q in
    kept_entry w e (with_outcome f.run e f.id f.nonce f.outcome f.reason now)
      (record { id = f.id; outcome = f.outcome; reason = f.reason; claim = f.nonce }) id
      (cases-with_outcome f.run e f.id f.nonce f.outcome f.reason now) stored h
      (ground (arith, c.is_open, stored))
kept_outcome w _ id (Step.read_again f m stands) s n h = refl

-- An outcome that is recorded, Interrupted included, is never written over while the run goes on.
pub outcome_stays :
    (v : View) (w w' : World) (id : String)
    → Reach v w
    → Step w w'
    → w'.number ≡ w.number
    → has_outcome outcome_recorded (case_record (cases_of w.stored.eval) id) ≡ true
    → case_record (cases_of w'.stored.eval) id ≡ case_record (cases_of w.stored.eval) id
outcome_stays v w w' id r step n h = kept_outcome w w' id step (Reach-IsSafe v w r) n h
