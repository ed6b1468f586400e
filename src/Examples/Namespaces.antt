-- ===== src/Examples/Namespaces.antt =====
-- Run namespaces at concrete inputs: one is made, bound, and torn down with its last Agent.
use assayd.Base.{
  ◌≡◌, ◌≤◌, ◌&&◌, ◌||◌, refl, true, false, not, none, some, List, [], ◌∷◌, ◌==◌, String, length,
}
use assayd.RunNamespace.{
  Binding, binding_creating, bound, terminating, deleting, Namespace, found, missing, RunEffect,
  created_binding, swapped_binding, created_namespace, mirrored, deleted_namespace, Entry,
}
use assayd.RunNamespace.Naming.{run_namespace_name, mirror_name, names-le}
use assayd.RunNamespace.Labels.{get, or_blank, has, wanted_labels, reconcile_run_namespace_labels}
use assayd.RunNamespace.Mirrored.{reconcile_run_namespace_labels-mirrors}
use assayd.RunNamespace.Record.{
  decode_binding, encode_binding, decode_binding-encode_binding, decode_binding-strict, is_complete,
  read_field, state_name,
}
use assayd.RunNamespace.Needed.{ListedAgent, NeededReads, run_namespace_still_needed}
use assayd.RunNamespace.Remaining.{any_lives, any_belongs, run_namespace_still_needed-belongs}
use assayd.RunNamespace.Handler.{
  HandlerReads, ReleaseReads, record_absent, release_run_namespace_if_last,
}
use assayd.RunNamespace.Ensure.{present, EnsureInput, EnsureReads, ensure_run_namespace}
use assayd.RunNamespace.Log.{
  stored_in, is_borne_out, RunReach, run_start, ensured_once, released_once, IsKept,
}
use assayd.RunNamespace.Safety.{RunReach-IsKept}
use assayd.RunNamespace.Owning.{is_own}
use assayd.RunNamespace.Serving.{ensure_run_namespace-serves}
use assayd.Compiler.{Name}

abbrev run_shop_name : String
run_shop_name = "assayd-run-shop"

abbrev shop : Namespace
shop = record { uid = "u1"; nonce = ""; is_deleting = false; labels = [] }

abbrev run_shop : Namespace
run_shop = record { uid = "ns1"; nonce = "n1"; is_deleting = false; labels = [] }

abbrev new_record : Binding
new_record = record {
  source_namespace = "shop";
  source_namespace_uid = "u1";
  run_namespace = "assayd-run-shop";
  run_namespace_uid = "";
  nonce = "n1";
  state = binding_creating;
}

abbrev bound_record : Binding
bound_record = record new_record { run_namespace_uid = "ns1"; state = bound }

-- An Agent is left, being deleted, with a workload.
abbrev leaving : ListedAgent
leaving = record { uid = "a2"; is_external = false; is_deleting = true }

abbrev needed : NeededReads
needed = record {
  source = found shop;
  agents = some [];
  deployments = some [];
  config_maps = some [];
  secrets = some [];
}

abbrev draining : NeededReads
draining = record needed { agents = some (leaving ∷ []); deployments = some ("a2" ∷ []) }

abbrev handling : HandlerReads
handling = record { namespace = found run_shop; needed = needed }

abbrev input : EnsureInput
input = record { namespace = "shop"; run_name = "assayd-run-shop"; is_wired = true }

abbrev reads : EnsureReads
reads = record {
  authority = record { policy = present; binding = present } ∷ [];
  source = found shop;
  unbound = missing;
  nonce = some "n1";
  current = missing;
  rotated_nonce = some "n2";
  install_uid = some "i1";
  created_uid = "ns1";
  handling = handling;
}

abbrev release_reads : ReleaseReads
release_reads = record {
  needed = needed;
  conflicted = false;
  reread = record_absent;
  handling = handling;
}

abbrev bound_log : List RunEffect
bound_log =
    swapped_binding bound_record
    ∷ mirrored
    ∷ created_namespace "assayd-run-shop" "n1" "ns1"
    ∷ created_binding new_record
    ∷ []

abbrev released_log : List RunEffect
released_log =
    deleted_namespace "assayd-run-shop" run_shop
    ∷ swapped_binding (record bound_record { state = deleting })
    ∷ swapped_binding (record bound_record { state = terminating })
    ∷ bound_log

bound_reach : RunReach "assayd-run-shop" bound_log
unfolding ensure_run_namespace stored_in
bound_reach = ensured_once run_start 9 "shop" reads

released_reach : RunReach "assayd-run-shop" released_log
unfolding release_run_namespace_if_last stored_in run_namespace_still_needed
released_reach = released_once bound_reach 9 "shop" "a1" release_reads

RunReach-IsKept_example : IsKept "assayd-run-shop" released_log
RunReach-IsKept_example = RunReach-IsKept "assayd-run-shop" released_log released_reach

ensure_run_namespace-serves_example :
    (run_shop_name ≡ input.run_name)
    × (is_own input reads (stored_in bound_log) ≡ true)
    × (is_borne_out "assayd-run-shop" (stored_in bound_log) bound_log ≡ true)
unfolding ensure_run_namespace stored_in
ensure_run_namespace-serves_example =
    ensure_run_namespace-serves input reads [] run_shop_name
      (RunReach-IsKept "assayd-run-shop" [] run_start) refl

decode_binding-encode_binding_example :
    decode_binding (encode_binding bound_record) ≡ some bound_record
decode_binding-encode_binding_example = decode_binding-encode_binding bound_record refl

abbrev fields : List Entry
unfolding encode_binding
fields = encode_binding bound_record

decode_binding-strict_example :
    (is_complete bound_record ≡ true)
    × (read_field fields "schemaVersion" ≡ "1")
    × (read_field fields "sourceNamespace" ≡ bound_record.source_namespace)
    × (read_field fields "sourceNamespaceUID" ≡ bound_record.source_namespace_uid)
    × (read_field fields "runNamespace" ≡ bound_record.run_namespace)
    × (read_field fields "runNamespaceUID" ≡ bound_record.run_namespace_uid)
    × (read_field fields "nonce" ≡ bound_record.nonce)
    × (read_field fields "state" ≡ state_name bound_record.state)
unfolding encode_binding decode_binding
decode_binding-strict_example = decode_binding-strict fields bound_record refl

run_namespace_still_needed-belongs_example :
    run_namespace_still_needed bound_record none draining
    ≡ some (
        shop.uid == bound_record.source_namespace_uid
        && (any_lives none (leaving ∷ []) || any_belongs none (leaving ∷ []) ("a2" ∷ [])))
run_namespace_still_needed-belongs_example =
    run_namespace_still_needed-belongs bound_record none draining shop (leaving ∷ []) ("a2" ∷ []) []
      [] refl refl refl refl refl

abbrev digits : Name → Name
digits name =
    "0" ∷ "1" ∷ "2" ∷ "3" ∷ "4" ∷ "5" ∷ "6" ∷ "7" ∷ "8" ∷ "9" ∷ "a" ∷ "b" ∷ "c" ∷ "d" ∷ "e" ∷ "f"
    ∷ []

names-le_example :
    (length (run_namespace_name digits ("s" ∷ "h" ∷ [])) ≤ 63)
    × (length (mirror_name digits ("s" ∷ "h" ∷ [])) ≤ 253)
names-le_example = names-le digits ("s" ∷ "h" ∷ [])

abbrev enforced_label : Entry
enforced_label = record { key = "pod-security.kubernetes.io/enforce"; value = "restricted" }

-- Labels that someone set: a laxer level, and a level of warning that the source does not have.
abbrev drifted : List Entry
drifted =
    record { key = "pod-security.kubernetes.io/enforce"; value = "privileged" }
    ∷ record { key = "pod-security.kubernetes.io/warn"; value = "baseline" }
    ∷ []

abbrev left : List Entry
unfolding reconcile_run_namespace_labels wanted_labels
left =
    (reconcile_run_namespace_labels drifted
      (wanted_labels "shop" (enforced_label ∷ []) "i1")).labels

reconcile_run_namespace_labels-mirrors_example :
    (or_blank (get left "pod-security.kubernetes.io/enforce") ≡ "restricted")
    × ((has (get left "pod-security.kubernetes.io/enforce") && not true) ≡ false)
    × (or_blank (get left "assayd.dev/agent-namespace") ≡ "shop")
    × (or_blank (get left "assayd.dev/owned-by") ≡ "i1")
unfolding reconcile_run_namespace_labels wanted_labels
reconcile_run_namespace_labels-mirrors_example =
    reconcile_run_namespace_labels-mirrors drifted (enforced_label ∷ []) "shop" "i1"
      "pod-security.kubernetes.io/enforce" refl
