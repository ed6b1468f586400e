-- ===== src/RunNamespace/Record.antt =====
-- internal/controller/runnamespace.go: `decodeBinding` and `encode`, the binding record as the data of a
-- ConfigMap. Which field an error names is left out: Go reads four of them in no order.
use assayd.Base.{
  ◌≡◌, refl, Bool, true, false, not, ◌&&◌, Option, none, some, List, [], ◌∷◌, String, ◌==◌, arith,
  ◌||◌, if◌then◌else◌, Bool-cases, inl, inr, eq_iff, ap, ◌∙◌, subst,
}
use assayd.RunNamespace.{
  Binding, BindingState, binding_creating, bound, terminating, deleting, Entry,
}
use assayd.RunNamespace.Labels.{get, or_blank}

abbrev pub filled : String → Option String
filled v = if v == "" then none else some v

-- `get`: a field that is there and not empty
abbrev pub field : List Entry → String → Option String
field fields k = filled (or_blank (get fields k))

abbrev pub chain : Option String → (String → Option Binding) → Option Binding
chain none f = none
chain (some v) f = f v

abbrev pub state_name : BindingState → String
state_name binding_creating = "Creating"
state_name bound = "Bound"
state_name terminating = "Terminating"
state_name deleting = "Deleting"

abbrev pub state_of : String → Option BindingState
state_of s =
    if s == "Creating"
    then some binding_creating
    else if s == "Bound"
    then some bound
    else if s == "Terminating"
    then some terminating
    else if s == "Deleting"
    then some deleting
    else none

abbrev pub is_creating_state : BindingState → Bool
is_creating_state binding_creating = true
is_creating_state _ = false

-- A record past Creating has the UID of its namespace.
abbrev pub has_uid : Binding → Bool
has_uid b = is_creating_state b.state || not (b.run_namespace_uid == "")

abbrev pub checked : Option BindingState → (BindingState → Binding) → Option Binding
checked none f = none
checked (some s) f = if has_uid (f s) then some (f s) else none

-- The fields after the schema version.
unfoldable pub decode_fields : List Entry → Option Binding
decode_fields fields = chain (field fields "sourceNamespace") λ source.
    chain (field fields "sourceNamespaceUID") λ source_uid.
      chain (field fields "runNamespace") λ run_namespace. chain (field fields "nonce") λ nonce.
        chain (field fields "state") λ state. checked (state_of state) λ s. record {
          source_namespace = source;
          source_namespace_uid = source_uid;
          run_namespace = run_namespace;
          run_namespace_uid = or_blank (get fields "runNamespaceUID");
          nonce = nonce;
          state = s;
        }

-- `decodeBinding`
unfoldable pub decode_binding : List Entry → Option Binding
unfolding decode_fields
decode_binding fields =
    chain (field fields "schemaVersion")
      λ version. if version == "1" then decode_fields fields else none

-- `encode`
unfoldable pub encode_binding : Binding → List Entry
encode_binding b =
    record { key = "schemaVersion"; value = "1" }
    ∷ record { key = "sourceNamespace"; value = b.source_namespace }
    ∷ record { key = "sourceNamespaceUID"; value = b.source_namespace_uid }
    ∷ record { key = "runNamespace"; value = b.run_namespace }
    ∷ record { key = "runNamespaceUID"; value = b.run_namespace_uid }
    ∷ record { key = "nonce"; value = b.nonce }
    ∷ record { key = "state"; value = state_name b.state }
    ∷ []

-- No field is empty, but the UID of a namespace that is not bound.
abbrev pub is_complete : Binding → Bool
is_complete b =
    not (b.source_namespace == "")
    && (not (b.source_namespace_uid == "")
        && (not (b.run_namespace == "") && (not (b.nonce == "") && has_uid b)))

filled-some : (v : String) → not (v == "") ≡ true → filled v ≡ some v
filled-some v q = ground (arith, q)

empty-filled : (v : String) → (v == "") ≡ true → filled v ≡ none
empty-filled v q = ground (arith, q)

checked-state_name :
    (s : BindingState) (f : BindingState → Binding)
    → has_uid (f s) ≡ true
    → checked (state_of (state_name s)) f ≡ some (f s)
checked-state_name binding_creating f u = rw u refl
checked-state_name bound f u = rw u refl
checked-state_name terminating f u = rw u refl
checked-state_name deleting f u = rw u refl

filled-state_name : (s : BindingState) → filled (state_name s) ≡ some (state_name s)
filled-state_name binding_creating = refl
filled-state_name bound = refl
filled-state_name terminating = refl
filled-state_name deleting = refl

-- A record without empty fields is decoded from what it is encoded to.
pub decode_binding-encode_binding :
    (b : Binding) → is_complete b ≡ true → decode_binding (encode_binding b) ≡ some b
unfolding decode_binding decode_fields encode_binding
decode_binding-encode_binding b c =
    rw
      (
        filled-some b.source_namespace (ground (arith, c)),
        filled-some b.source_namespace_uid (ground (arith, c)),
        filled-some b.run_namespace (ground (arith, c)),
        filled-some b.nonce (ground (arith, c)),
        filled-state_name b.state,
      )
      (checked-state_name b.state (λ s. record b { state = s }) (ground (arith, c)))

chain-some :
    (v : String) (f : String → Option Binding) (b : Binding)
    → chain (filled v) f ≡ some b
    → (not (v == "") ≡ true) × (f v ≡ some b)
chain-some v f b q = elim (Bool-cases (v == "")) [
  | inl e ↦ absurd (ground (arith, subst (λ o. chain o f ≡ some b) (empty-filled v e) q))
  | inr e ↦
      (ground (arith, e), subst (λ o. chain o f ≡ some b) (filled-some v (ground (arith, e))) q)
]

abbrev binding_or : Binding → Option Binding → Binding
binding_or d none = d
binding_or d (some b) = b

kept_if : (c : Bool) (x b : Binding) → (if c then some x else none) ≡ some b → (c ≡ true) × (x ≡ b)
kept_if true x b q = (refl, ap (binding_or x) q)
kept_if false x b q = absurd (ground (arith, q))

state_of-some : (t : String) (s : BindingState) → state_of t ≡ some s → t ≡ state_name s
state_of-some t binding_creating q =
    ground
      (arith, q, eq_iff t "Creating", eq_iff t "Bound", eq_iff t "Terminating", eq_iff t "Deleting")
state_of-some t bound q =
    ground
      (arith, q, eq_iff t "Creating", eq_iff t "Bound", eq_iff t "Terminating", eq_iff t "Deleting")
state_of-some t terminating q =
    ground
      (arith, q, eq_iff t "Creating", eq_iff t "Bound", eq_iff t "Terminating", eq_iff t "Deleting")
state_of-some t deleting q =
    ground
      (arith, q, eq_iff t "Creating", eq_iff t "Bound", eq_iff t "Terminating", eq_iff t "Deleting")

checked-some :
    (o : Option BindingState) (f : BindingState → Binding) (b : Binding)
    → checked o f ≡ some b
    → (s : BindingState) × (o ≡ some s) × (has_uid (f s) ≡ true) × (f s ≡ b)
checked-some none f b q = absurd (ground (arith, q))
checked-some (some s) f b q = let (u, r) = kept_if (has_uid (f s)) (f s) b q in (s, refl, u, r)

-- What is read for a key, "" where it is missing.
abbrev pub read_field : List Entry → String → String
read_field fields k = or_blank (get fields k)

-- A record that is decoded has no empty field but the UID of a namespace that is not bound, and each of
-- its fields is what the data holds.
pub decode_binding-strict :
    (fields : List Entry) (b : Binding)
    → decode_binding fields ≡ some b
    → (is_complete b ≡ true)
      × (read_field fields "schemaVersion" ≡ "1")
      × (read_field fields "sourceNamespace" ≡ b.source_namespace)
      × (read_field fields "sourceNamespaceUID" ≡ b.source_namespace_uid)
      × (read_field fields "runNamespace" ≡ b.run_namespace)
      × (read_field fields "runNamespaceUID" ≡ b.run_namespace_uid)
      × (read_field fields "nonce" ≡ b.nonce)
      × (read_field fields "state" ≡ state_name b.state)
unfolding decode_binding decode_fields
decode_binding-strict fields b q =
    let (v_, q1) = chain-some (read_field fields "schemaVersion") _ b q in
    elim (Bool-cases (read_field fields "schemaVersion" == "1")) [
      | inl e ↦
          let q2 : decode_fields fields ≡ some b =
            subst (λ c. (if c then decode_fields fields else none) ≡ some b) e q1 in
          let (n1, q3) = chain-some (read_field fields "sourceNamespace") _ b q2 in
          let (n2, q4) = chain-some (read_field fields "sourceNamespaceUID") _ b q3 in
          let (n3, q5) = chain-some (read_field fields "runNamespace") _ b q4 in
          let (n4, q6) = chain-some (read_field fields "nonce") _ b q5 in
          let (n5, q7) = chain-some (read_field fields "state") _ b q6 in
          let (s, o, u, r) = checked-some (state_of (read_field fields "state")) _ b q7 in
          (
            subst (λ x. is_complete x ≡ true) r (ground (arith, n1, n2, n3, n4, u)),
            (eq_iff (read_field fields "schemaVersion") "1").0 e,
            ap (λ x. x.source_namespace) r,
            ap (λ x. x.source_namespace_uid) r,
            ap (λ x. x.run_namespace) r,
            ap (λ x. x.run_namespace_uid) r,
            ap (λ x. x.nonce) r,
            state_of-some (read_field fields "state") s o ∙ ap (λ x. state_name x.state) r,
          )
      | inr e ↦
          absurd
            (ground (arith, subst (λ c. (if c then decode_fields fields else none) ≡ some b) e q1))
    ]
