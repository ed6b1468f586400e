-- ===== src/RunNamespace/Labels.antt =====
-- internal/controller/runnamespace.go: `runNamespaceFor` and `reconcileRunNamespaceLabels`, the labels of a
-- run namespace. A map is a list of its entries, of which the first of a key counts.
use assayd.Base.{
  Bool, true, false, not, ◌&&◌, Option, none, some, List, [], ◌∷◌, String, ◌==◌, if◌then◌else◌,
}
use assayd.RunNamespace.{Entry}

abbrev pub get : List Entry → String → Option String
get [] k = none
get (e ∷ es) k = if e.key == k then some e.value else get es k

abbrev pub set_entry : List Entry → String → String → List Entry
set_entry [] k v = record { key = k; value = v } ∷ []
set_entry (e ∷ es) k v =
    let rest = set_entry es k v in
    if e.key == k then record { key = k; value = v } ∷ es else e ∷ rest

-- Go's `delete(m, k)`
abbrev pub remove : List Entry → String → List Entry
remove [] k = []
remove (e ∷ es) k = let rest = remove es k in if e.key == k then rest else e ∷ rest

abbrev pub pss_labels : List String
pss_labels =
    "pod-security.kubernetes.io/enforce" ∷ "pod-security.kubernetes.io/enforce-version"
    ∷ "pod-security.kubernetes.io/audit" ∷ "pod-security.kubernetes.io/audit-version"
    ∷ "pod-security.kubernetes.io/warn" ∷ "pod-security.kubernetes.io/warn-version" ∷ []

abbrev pub kept : Option String → String → List Entry → List Entry
kept none k es = es
kept (some v) k es = record { key = k; value = v } ∷ es

-- The entries of these keys that the source namespace has.
abbrev pub mirrored_labels : List String → List Entry → List Entry
mirrored_labels [] source = []
mirrored_labels (k ∷ ks) source = kept (get source k) k (mirrored_labels ks source)

-- The labels of `runNamespaceFor`.
unfoldable pub wanted_labels : String → List Entry → String → List Entry
wanted_labels source_name source install_uid =
    record { key = "assayd.dev/run-namespace"; value = "true" }
    ∷ record { key = "assayd.dev/pods-by"; value = "agent-operator" }
    ∷ record { key = "assayd.dev/agent-namespace"; value = source_name }
    ∷ record { key = "assayd.dev/owned-by"; value = install_uid }
    ∷ mirrored_labels pss_labels source

-- The labels, and whether any of them changed.
pub record Reconciled : Type 0 where
  pub labels : List Entry
  pub changed : Bool

-- What Go's map gives for a key: "" where there is none.
abbrev pub or_blank : Option String → String
or_blank none = ""
or_blank (some v) = v

abbrev pub has : Option String → Bool
has none = false
has (some v) = true

-- `for k, v := range want`
unfoldable pub set_wanted : List Entry → Reconciled → Reconciled
set_wanted [] r = r
set_wanted (w ∷ ws) r =
    let written =
      set_wanted ws (record { labels = set_entry r.labels w.key w.value; changed = true }) in
    let same = set_wanted ws r in if or_blank (get r.labels w.key) == w.value then same else written

-- `for _, k := range pssLabels`
unfoldable pub drop_unwanted : List String → List Entry → Reconciled → Reconciled
drop_unwanted [] want r = r
drop_unwanted (k ∷ ks) want r =
    let dropped = drop_unwanted ks want (record { labels = remove r.labels k; changed = true }) in
    let same = drop_unwanted ks want r in
    if not (has (get want k)) && has (get r.labels k) then dropped else same

-- `reconcileRunNamespaceLabels`: the labels it updates the namespace to, none where they are right
unfoldable pub reconcile_run_namespace_labels : List Entry → List Entry → Reconciled
unfolding set_wanted drop_unwanted
reconcile_run_namespace_labels labels want =
    drop_unwanted pss_labels want (set_wanted want (record { labels = labels; changed = false }))
