-- ===== src/Examples/Passes.antt =====
-- The -auth passes at concrete inputs.
use assayd.Base.{is_some, ◌≡◌, refl, true, false, none, some, List, [], ◌∷◌, take, drop}
use assayd.Status.{AgentStatus, AuthTransaction, create, preparing_route, publishing}
use assayd.Predicates.{transaction_of}
use assayd.Fixtures.{evaluated}
use assayd.Auth.{AuthTarget, AuthDesire, mode_api_key, Route, new_transaction, new_auth}
use assayd.Auth.Publication.{Effect, PassInput, served_record, route_publication_for}
use assayd.Auth.Create.{CreateReads, run_create}
use assayd.Auth.Lock.{LockPassReads}
use assayd.Auth.Pass.{StepReads, auth_step}
use assayd.Auth.World.{AuthWorld, start, pass, proved, enforced, play}
use assayd.Auth.Reachable.{publication-proved, record-proved, publishing-enforced}
use assayd.Auth.Ready.{IsUndisturbed, is_settled, run_create-settles}
use assayd.Auth.Serving.{IsFavourable, Serves, run_create-Serves}
use assayd.Auth.Nack.{
  Event, Gateway, ManagedField, nack_reason, agentgateway_controller, policy_written_at, fresh_nack,
  at_of,
}
use assayd.Auth.Nack.Taken.{any_nack, nacks_by, IsTaken, fresh_nack-any_nack}
use assayd.Auth.Consent.{refusals, consents_to, k2_consent-refusals}

abbrev route : Route
route = record { rules = ("greeter-r1" ∷ []) ∷ [] }

-- The gateway has taken everything, and refuses an anonymous request.
abbrev taken : CreateReads
taken = record {
  created = false;
  intact = true;
  nacked = false;
  route_converged = true;
  policy_converged = true;
  above_before = false;
  above_after = false;
  answer = some 401;
  current = some route;
  gone = false;
}

abbrev input : PassInput
input = record {
  route_name = "greeter-serving";
  own_policy = "run/greeter-auth";
  agent_name = "greeter";
  agent_namespace = "team";
  run_namespace = "run";
  rendered = some "p1";
  foreign = [];
  now = 5;
  new_deadline = 100;
}

abbrev serving : AgentStatus
serving = evaluated

abbrev lock_reads : LockPassReads
lock_reads = record {
  current = none;
  kept = route;
  rounds = λ k. record {
    intact = true;
    nacked = false;
    route_converged = true;
    policy_converged = true;
    above_before = false;
    above_after = false;
    answer = some 401;
    card_digest = "";
    repointed = none;
  };
  creation = λ k. taken;
}

abbrev reads : StepReads
reads = record {
  adopted = none;
  abandonment = record {
    live = none;
    is_deleting = false;
    still = false;
    owned = false;
    held = false;
  };
  keeping = record { lock_reads = lock_reads; present = true; reasserted = true; gone = false };
  creation = λ k. taken;
}

abbrev desire : AuthDesire
desire = record { target = some (record { mode = mode_api_key; digest = "p1" }); budget = false }

abbrev writes : List Effect
unfolding auth_step
writes = (auth_step input serving reads mode_api_key desire none).effects

-- A first pass, to its end, and stopped where the Create has come to Publishing.
abbrev published_world : AuthWorld
published_world = play (record { stored = none; history = [] }) (take 14 writes)

abbrev publishing_world : AuthWorld
publishing_world = play (record { stored = none; history = [] }) (take 11 writes)

publication-proved_example : proved (drop 3 published_world.history) ≡ true
unfolding auth_step served_record route_publication_for
publication-proved_example =
    publication-proved (pass start 14 input evaluated reads mode_api_key desire)
      (take 2 published_world.history) (record { prepared = false; mode = mode_api_key })
      (drop 3 published_world.history) refl refl refl

abbrev served_target : AuthTarget
served_target = record { mode = mode_api_key; digest = "p1" }

record-proved_example : proved published_world.history ≡ true
unfolding auth_step served_record route_publication_for
record-proved_example =
    record-proved (pass start 14 input evaluated reads mode_api_key desire)
      (served_record input served_target) refl refl refl

abbrev creating : AuthTransaction
creating = new_transaction create mode_api_key "p1" preparing_route (some 100)

publishing-enforced_example : enforced publishing_world.history ≡ true
unfolding auth_step
publishing-enforced_example =
    publishing-enforced (pass start 11 input evaluated reads mode_api_key desire)
      (new_auth ""
        (some (record creating { stage = publishing; written = true; probe_after = some 401 })))
      (record creating { stage = publishing; written = true; probe_after = some 401 }) refl refl
      refl refl refl

undisturbed : IsUndisturbed taken
undisturbed = record { not_created = refl; kept = refl; there = refl; not_gone = refl }

run_create-settles_example :
    is_settled (run_create input "r1" (λ k. taken) (new_auth "" none) creating).end ≡ true
run_create-settles_example =
    run_create-settles input "r1" (λ k. taken) (new_auth "" none) creating (λ k. undisturbed)

favourable : IsFavourable taken
favourable = record {
  undisturbed = undisturbed;
  not_nacked = refl;
  route_taken = refl;
  policy_taken = refl;
  none_above = refl;
  none_above_after = refl;
  unauthorized = refl;
}

run_create-Serves_example :
    Serves input served_target (run_create input "r1" (λ k. taken) (new_auth "" none) creating)
run_create-Serves_example =
    run_create-Serves input "r1" (λ k. taken) (new_auth "" none) creating (λ k. favourable) refl
      refl refl refl refl

k2_consent-refusals_example :
    consents_to (transaction_of (refusals none (mode_api_key ∷ "none" ∷ mode_api_key ∷ []))) ≡ true
k2_consent-refusals_example = k2_consent-refusals mode_api_key ("none" ∷ mode_api_key ∷ []) refl

abbrev gateway : Gateway
gateway = record { name = "gw"; namespace = "gw-ns" }

abbrev nack : Event
nack = record {
  type = "Warning";
  reason = nack_reason;
  namespace = "gw-ns";
  object_group = some "gateway.networking.k8s.io";
  object_kind = "Gateway";
  object_name = "gw";
  object_namespace = "gw-ns";
  source_component = agentgateway_controller;
  reporting_controller = agentgateway_controller;
  first_seen = 8;
  last_seen = 12;
  event_time = 0;
  series_seen = none;
  names = "run/greeter-auth" ∷ [];
}

-- The policy was last written at 10, and rejected at 12 and at 14.
abbrev rejections : List Event
rejections = nack ∷ record nack { last_seen = 14 } ∷ []

abbrev written : List ManagedField
written =
    record { subresource = "status"; time = some 15 }
    ∷ record { subresource = ""; time = some 10 }
    ∷ []

fresh_nack-any_nack_example :
    (is_some (fresh_nack gateway written 3 "run/greeter-auth" rejections)
      ≡ any_nack gateway (policy_written_at written 3) "run/greeter-auth" rejections)
    × (nacks_by gateway
          (policy_written_at written 3)
          "run/greeter-auth"
          (at_of (fresh_nack gateway written 3 "run/greeter-auth" rejections))
          rejections
        ≡ true)
    × IsTaken gateway
        (policy_written_at written 3)
        "run/greeter-auth"
        rejections
        (fresh_nack gateway written 3 "run/greeter-auth" rejections)
fresh_nack-any_nack_example =
    fresh_nack-any_nack gateway written 3 "run/greeter-auth" rejections refl
