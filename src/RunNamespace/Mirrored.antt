-- ===== src/RunNamespace/Mirrored.antt =====
-- The labels that `reconcileRunNamespaceLabels` leaves: what each key is read as.
use assayd.Base.{
  ◌≡◌, refl, ap, ◌∙◌, subst, Bool, true, false, not, ◌&&◌, ◌||◌, inl, inr, Option, none, some, List,
  [], ◌∷◌, String, ◌==◌, if◌then◌else◌, arith, Bool-cases, Option-cases, eq_iff,
}
use assayd.RunNamespace.{Entry}
use assayd.RunNamespace.Labels.{
  get, set_entry, remove, pss_labels, mirrored_labels, wanted_labels, Reconciled, or_blank, has,
  set_wanted, drop_unwanted, reconcile_run_namespace_labels,
}

abbrev pub is_key : List String → String → Bool
is_key [] k = false
is_key (x ∷ xs) k = x == k || is_key xs k

-- No key stands twice.
abbrev pub is_distinct : List Entry → Bool
is_distinct [] = true
is_distinct (e ∷ es) = let rest = is_distinct es in not (has (get es e.key)) && rest

get-set_entry :
    (es : List Entry) (k v l : String)
    → get (set_entry es k v) l ≡ (if k == l then some v else get es l)
get-set_entry [] k v l = ground arith
get-set_entry (e ∷ es) k v l =
    ground (arith, get-set_entry es k v l, eq_iff e.key k, eq_iff e.key l, eq_iff k l)

get-remove :
    (es : List Entry) (k l : String) → get (remove es k) l ≡ (if k == l then none else get es l)
get-remove [] k l = ground arith
get-remove (e ∷ es) k l =
    ground (arith, get-remove es k l, eq_iff e.key k, eq_iff e.key l, eq_iff k l)

branch-reads :
    (c : Bool) (x y : Reconciled) (k : String) (o : Option String)
    → (c ≡ true → get x.labels k ≡ o)
    → (c ≡ false → get y.labels k ≡ o)
    → get (if c then x else y).labels k ≡ o
branch-reads true x y k o f g = f refl
branch-reads false x y k o f g = g refl

branch-blank :
    (c : Bool) (x y : Reconciled) (k v : String)
    → (c ≡ true → or_blank (get x.labels k) ≡ v)
    → (c ≡ false → or_blank (get y.labels k) ≡ v)
    → or_blank (get (if c then x else y).labels k) ≡ v
branch-blank true x y k v f g = f refl
branch-blank false x y k v f g = g refl

-- A key that is not wanted keeps its value, and one that is wanted has the wanted one.
set_wanted-keeps :
    (ws : List Entry) (r : Reconciled) (k : String)
    → has (get ws k) ≡ false
    → get (set_wanted ws r).labels k ≡ get r.labels k
unfolding set_wanted
set_wanted-keeps [] r k q = refl
set_wanted-keeps (w ∷ ws) r k q =
    let next : Reconciled = record { labels = set_entry r.labels w.key w.value; changed = true } in
    let other : (w.key == k) ≡ false = ground (arith, q) in
    let rest : has (get ws k) ≡ false = ground (arith, q, other) in
    branch-reads _ (set_wanted ws r) (set_wanted ws next) k (get r.labels k)
      (λ e. set_wanted-keeps ws r k rest)
      (λ e.
        set_wanted-keeps ws next k rest ∙ get-set_entry r.labels w.key w.value k ∙ rw other refl)

set_wanted-sets :
    (ws : List Entry) (r : Reconciled) (k v : String)
    → is_distinct ws ≡ true
    → get ws k ≡ some v
    → or_blank (get (set_wanted ws r).labels k) ≡ v
unfolding set_wanted
set_wanted-sets [] r k v d q = absurd (ground (arith, q))
set_wanted-sets (w ∷ ws) r k v d q =
    let next : Reconciled = record { labels = set_entry r.labels w.key w.value; changed = true } in
    elim (Bool-cases (w.key == k)) [
      | inl e ↦
          let same : w.key ≡ k = (eq_iff w.key k).0 e in
          let last : has (get ws k) ≡ false =
            subst (λ x. has (get ws x) ≡ false) same (ground (arith, d)) in
          let value : w.value ≡ v = ground (arith, q, e) in
          let written : get (set_entry r.labels w.key w.value) k ≡ some w.value =
            ground (arith, get-set_entry r.labels w.key w.value k, e) in
          branch-blank _ (set_wanted ws r) (set_wanted ws next) k v
            (λ t.
              ap or_blank (set_wanted-keeps ws r k last)
              ∙ (subst (λ x. or_blank (get r.labels x) ≡ w.value) same
                    ((eq_iff (or_blank (get r.labels w.key)) w.value).0 t)
                  ∙ value))
            (λ t. ap or_blank (set_wanted-keeps ws next k last ∙ written) ∙ value)
      | inr e ↦
          let later : get ws k ≡ some v = ground (arith, q, e) in
          branch-blank _ (set_wanted ws r) (set_wanted ws next) k v
            (λ t. set_wanted-sets ws r k v (ground (arith, d)) later)
            (λ t. set_wanted-sets ws next k v (ground (arith, d)) later)
    ]

none_of : (o : Option String) → has o ≡ false → o ≡ none
none_of none q = refl
none_of (some v) q = absurd (ground (arith, q))

drop_unwanted-reads :
    (ks : List String) (want : List Entry) (r : Reconciled) (k : String)
    → get (drop_unwanted ks want r).labels k
      ≡ (if is_key ks k && not (has (get want k)) then none else get r.labels k)
unfolding drop_unwanted
drop_unwanted-reads [] want r k = refl
drop_unwanted-reads (x ∷ ks) want r k =
    let next : Reconciled = record { labels = remove r.labels x; changed = true } in
    let removed = get-remove r.labels x k in
    let after_next = drop_unwanted-reads ks want next k in
    let after_same = drop_unwanted-reads ks want r k in
    branch-reads _ (drop_unwanted ks want next) (drop_unwanted ks want r) k _
      (λ e. ground (arith, e, after_next, removed, eq_iff x k))
      (λ e. ground (arith, e, after_same, eq_iff x k, none_of (get r.labels x)))

get-mirrored_labels :
    (ks : List String) (source : List Entry) (k : String)
    → get (mirrored_labels ks source) k ≡ (if is_key ks k then get source k else none)
get-mirrored_labels [] source k = refl
get-mirrored_labels (x ∷ ks) source k = elim (Option-cases (get source x)) [
  | inl e ↦ rw e (ground (arith, get-mirrored_labels ks source k, eq_iff x k, e))
  | inr (v, e) ↦ rw e (ground (arith, get-mirrored_labels ks source k, eq_iff x k, e))
]

-- No key of the list stands in it twice.
abbrev pub is_unrepeated : List String → Bool
is_unrepeated [] = true
is_unrepeated (x ∷ xs) = let rest = is_unrepeated xs in not (is_key xs x) && rest

is_distinct-mirrored_labels :
    (ks : List String) (source : List Entry)
    → is_unrepeated ks ≡ true
    → is_distinct (mirrored_labels ks source) ≡ true
is_distinct-mirrored_labels [] source u = refl
is_distinct-mirrored_labels (x ∷ ks) source u =
    let rest = is_distinct-mirrored_labels ks source (ground (arith, u)) in
    elim (Option-cases (get source x)) [
      | inl e ↦ rw e rest
      | inr (v, e) ↦ rw e (ground (arith, rest, get-mirrored_labels ks source x, u))
    ]

-- A key that is not of the six is none of them.
other_key :
    (c k : String) → is_key pss_labels c ≡ false → is_key pss_labels k ≡ true → (c == k) ≡ false
other_key c k p q = elim (Bool-cases (c == k)) [
  | inl e ↦
      let same : c ≡ k = (eq_iff c k).0 e in
      absurd (ground (arith, q, subst (λ x. is_key pss_labels x ≡ false) same p))
  | inr e ↦ e
]

get-wanted_labels :
    (name install_uid k : String) (source : List Entry)
    → is_key pss_labels k ≡ true
    → get (wanted_labels name source install_uid) k ≡ get source k
unfolding wanted_labels
get-wanted_labels name install_uid k source q =
    let a = other_key "assayd.dev/run-namespace" k refl q in
    let b = other_key "assayd.dev/pods-by" k refl q in
    let c = other_key "assayd.dev/agent-namespace" k refl q in
    let d = other_key "assayd.dev/owned-by" k refl q in
    rw (a, b, c, d) (get-mirrored_labels pss_labels source k ∙ rw q refl)

is_distinct-wanted_labels :
    (name install_uid : String) (source : List Entry)
    → is_distinct (wanted_labels name source install_uid) ≡ true
unfolding wanted_labels
is_distinct-wanted_labels name install_uid source =
    rw
      (
        get-mirrored_labels pss_labels source "assayd.dev/run-namespace",
        get-mirrored_labels pss_labels source "assayd.dev/pods-by",
        get-mirrored_labels pss_labels source "assayd.dev/agent-namespace",
        get-mirrored_labels pss_labels source "assayd.dev/owned-by",
        is_distinct-mirrored_labels pss_labels source refl,
      )
      refl

own_labels :
    (name install_uid : String) (source : List Entry)
    → (get (wanted_labels name source install_uid) "assayd.dev/agent-namespace" ≡ some name)
      × (get (wanted_labels name source install_uid) "assayd.dev/owned-by" ≡ some install_uid)
unfolding wanted_labels
own_labels name install_uid source = (refl, refl)

mirrored_reads :
    (labels source : List Entry) (name install_uid k : String)
    → is_key pss_labels k ≡ true
    → or_blank (
        get
          (reconcile_run_namespace_labels labels (wanted_labels name source install_uid)).labels
          k)
      ≡ or_blank (get source k)
unfolding reconcile_run_namespace_labels
mirrored_reads labels source name install_uid k q =
    let want = wanted_labels name source install_uid in
    let start : Reconciled = record { labels = labels; changed = false } in
    let set = set_wanted want start in
    let wanted = get-wanted_labels name install_uid k source q in
    let reads = drop_unwanted-reads pss_labels want set k in
    elim (Option-cases (get source k)) [
      | inl e ↦ ground (arith, reads, wanted, q, e)
      | inr (v, e) ↦
          let sets =
            set_wanted-sets want start k v (is_distinct-wanted_labels name install_uid source)
              (wanted ∙ e) in
          ground (arith, reads, wanted, q, e, sets)
    ]

-- The labels that a run namespace is left with: each of the six Pod Security labels reads as the source
-- namespace's, and is not there where the source has none, and the operator's own name the source
-- namespace and the installation.
pub reconcile_run_namespace_labels-mirrors :
    (labels source : List Entry) (name install_uid k : String)
    → is_key pss_labels k ≡ true
    → let left =
        (reconcile_run_namespace_labels labels (wanted_labels name source install_uid)).labels in
      (or_blank (get left k) ≡ or_blank (get source k))
      × ((has (get left k) && not (has (get source k))) ≡ false)
      × (or_blank (get left "assayd.dev/agent-namespace") ≡ name)
      × (or_blank (get left "assayd.dev/owned-by") ≡ install_uid)
unfolding reconcile_run_namespace_labels
reconcile_run_namespace_labels-mirrors labels source name install_uid k q =
    let want = wanted_labels name source install_uid in
    let start : Reconciled = record { labels = labels; changed = false } in
    let set = set_wanted want start in
    let wanted = get-wanted_labels name install_uid k source q in
    let reads = drop_unwanted-reads pss_labels want set in
    let own = own_labels name install_uid source in
    let distinct = is_distinct-wanted_labels name install_uid source in
    (
      mirrored_reads labels source name install_uid k q,
      ground (arith, reads k, wanted, q),
      ap or_blank (reads "assayd.dev/agent-namespace")
          ∙ set_wanted-sets want start "assayd.dev/agent-namespace" name distinct own.0,
      ap or_blank (reads "assayd.dev/owned-by")
          ∙ set_wanted-sets want start "assayd.dev/owned-by" install_uid distinct own.1,
    )
