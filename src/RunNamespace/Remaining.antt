-- ===== src/RunNamespace/Remaining.antt =====
-- What `runNamespaceStillNeeded` answers, by the Agents and what they left.
use assayd.Base.{
  ◌≡◌, refl, sym, ap, ◌∙◌, Bool, true, false, ◌&&◌, ◌||◌, Option, none, some, List, [], ◌∷◌, ◌++◌,
  String, ◌==◌, if◌then◌else◌, arith, Bool-cases, inl, inr,
}
use assayd.RunNamespace.{Binding, Namespace, found}
use assayd.RunNamespace.Needed.{
  ListedAgent, NeededReads, counts, known_agents, extended, is_known, any_known, left_over,
  needed_by, run_namespace_still_needed, lives,
}

abbrev pub any_lives : Option String → List ListedAgent → Bool
any_lives self [] = false
any_lives self (a ∷ items) = lives self a || any_lives self items

-- The label is of an Agent that counts.
abbrev pub belongs : Option String → List ListedAgent → String → Bool
belongs self [] label = false
belongs self (a ∷ items) label = counts self a && a.uid == label || belongs self items label

abbrev pub any_belongs : Option String → List ListedAgent → List String → Bool
any_belongs self agents [] = false
any_belongs self agents (label ∷ labels) =
    belongs self agents label || any_belongs self agents labels

-- The Agents that count are all being deleted, and the UIDs are theirs; or one of them is live.
abbrev IsKnown : Option String → List ListedAgent → Option (List String) → Type 0
IsKnown self agents none = any_lives self agents ≡ true
IsKnown self agents (some uids) =
    (any_lives self agents ≡ false)
    × ((label : String) → is_known uids label ≡ belongs self agents label)

extended-IsKnown :
    (self : Option String) (a : ListedAgent) (items : List ListedAgent) (o : Option (List String))
    → counts self a ≡ true
    → a.is_deleting ≡ true
    → IsKnown self items o
    → IsKnown self (a ∷ items) (extended a.uid o)
extended-IsKnown self a items none c d k = ground (arith, k)
extended-IsKnown self a items (some uids) c d k =
    (ground (arith, c, d, k.0), λ label. ground (arith, c, k.1 label))

skipped-IsKnown :
    (self : Option String) (a : ListedAgent) (items : List ListedAgent) (o : Option (List String))
    → counts self a ≡ false
    → IsKnown self items o
    → IsKnown self (a ∷ items) o
skipped-IsKnown self a items none c k = ground (arith, k)
skipped-IsKnown self a items (some uids) c k =
    (ground (arith, c, k.0), λ label. ground (arith, c, k.1 label))

branch-IsKnown :
    (self : Option String) (agents : List ListedAgent) (c : Bool) (x y : Option (List String))
    → (c ≡ true → IsKnown self agents x)
    → (c ≡ false → IsKnown self agents y)
    → IsKnown self agents (if c then x else y)
branch-IsKnown self agents true x y f g = f refl
branch-IsKnown self agents false x y f g = g refl

known_agents-IsKnown :
    (self : Option String) (agents : List ListedAgent)
    → IsKnown self agents (known_agents self agents)
unfolding known_agents
known_agents-IsKnown self [] = (refl, λ label. refl)
known_agents-IsKnown self (a ∷ items) =
    let rest = known_agents-IsKnown self items in
    let o = known_agents self items in
    branch-IsKnown self (a ∷ items) (counts self a) _ o
      (λ c.
        branch-IsKnown self (a ∷ items) a.is_deleting (extended a.uid o) none
          (λ d. extended-IsKnown self a items o c d rest) (λ d. ground (arith, c, d)))
      (λ c. skipped-IsKnown self a items o c rest)

any_known-belongs :
    (self : Option String) (agents : List ListedAgent) (uids labels : List String)
    → ((label : String) → is_known uids label ≡ belongs self agents label)
    → any_known uids labels ≡ any_belongs self agents labels
any_known-belongs self agents uids [] k = refl
any_known-belongs self agents uids (label ∷ labels) k =
    ground (arith, k label, any_known-belongs self agents uids labels k)

any_belongs-append :
    (self : Option String) (agents : List ListedAgent) (xs ys : List String)
    → any_belongs self agents (xs ++ ys)
      ≡ (any_belongs self agents xs || any_belongs self agents ys)
any_belongs-append self agents [] ys = refl
any_belongs-append self agents (x ∷ xs) ys = ground (arith, any_belongs-append self agents xs ys)

-- No Agent counts where no UID is known.
unknown-belongs :
    (self : Option String) (agents : List ListedAgent) (labels : List String)
    → ((label : String) → false ≡ belongs self agents label)
    → any_belongs self agents labels ≡ false
unknown-belongs self agents [] k = refl
unknown-belongs self agents (label ∷ labels) k =
    ground (arith, k label, unknown-belongs self agents labels k)

left_over-belongs :
    (self : Option String) (agents : List ListedAgent) (reads : NeededReads)
    (uids ds cms secrets : List String)
    → reads.deployments ≡ some ds
    → reads.config_maps ≡ some cms
    → reads.secrets ≡ some secrets
    → ((label : String) → is_known uids label ≡ belongs self agents label)
    → left_over reads uids ≡ some (any_belongs self agents (ds ++ (cms ++ secrets)))
left_over-belongs self agents reads [] ds cms secrets d c s k =
    ap some (sym (unknown-belongs self agents (ds ++ (cms ++ secrets)) k))
left_over-belongs self agents reads (u ∷ uids) ds cms secrets d c s k =
    let all = any_belongs-append self agents ds (cms ++ secrets) in
    let material = any_belongs-append self agents cms secrets in
    let in_ds = any_known-belongs self agents (u ∷ uids) ds k in
    let in_cms = any_known-belongs self agents (u ∷ uids) cms k in
    let in_secrets = any_known-belongs self agents (u ∷ uids) secrets k in
    rw (d, c, s) (ground (arith, all, material, in_ds, in_cms, in_secrets))

needed_by-belongs :
    (self : Option String) (agents : List ListedAgent) (reads : NeededReads)
    (o : Option (List String)) (ds cms secrets : List String)
    → reads.deployments ≡ some ds
    → reads.config_maps ≡ some cms
    → reads.secrets ≡ some secrets
    → IsKnown self agents o
    → needed_by reads o
      ≡ some (any_lives self agents || any_belongs self agents (ds ++ (cms ++ secrets)))
needed_by-belongs self agents reads none ds cms secrets d c s k = ground (arith, k)
needed_by-belongs self agents reads (some uids) ds cms secrets d c s k =
    left_over-belongs self agents reads uids ds cms secrets d c s k.1 ∙ ground (arith, k.0)

-- Where every list is read, a run namespace is needed just where its source namespace is still the one
-- of the record and an Agent of it that runs here and is not the one asking is live, or a workload or a
-- copy has the UID of such an Agent.
pub run_namespace_still_needed-belongs :
    (b : Binding) (self : Option String) (reads : NeededReads) (source : Namespace)
    (agents : List ListedAgent) (ds cms secrets : List String)
    → reads.source ≡ found source
    → reads.agents ≡ some agents
    → reads.deployments ≡ some ds
    → reads.config_maps ≡ some cms
    → reads.secrets ≡ some secrets
    → run_namespace_still_needed b self reads
      ≡ some (
          source.uid == b.source_namespace_uid
          && (any_lives self agents || any_belongs self agents (ds ++ (cms ++ secrets))))
unfolding run_namespace_still_needed
run_namespace_still_needed-belongs b self reads source agents ds cms secrets q a d c s =
    let all =
      needed_by-belongs self agents reads (known_agents self agents) ds cms secrets d c s
        (known_agents-IsKnown self agents) in
    elim (Bool-cases (source.uid == b.source_namespace_uid)) [
      | inl e ↦ rw (q, e, a) all
      | inr e ↦ rw (q, e) refl
    ]
