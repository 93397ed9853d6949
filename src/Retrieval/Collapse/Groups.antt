-- ===== src/Retrieval/Collapse/Groups.antt =====
-- The groups of post_retrieval.py are a partition of the hits by their document keys.
use mathlib.Core.List.{Perm, append-nil, append_assoc, perm_middle}
use mathlib.Core.List.Perm
use mathlib.Core.Path.{subst}
use agent_backend.Prelude.{
  ok_injective, ◌≡◌, refl, ap, ◌⊎◌, inl, inr, true, false, Bool-cases, List, [], ◌∷◌, ◌++◌, All,
  All-append, ok, >>=-eq-ok,
}
use agent_backend.Json.{Value}
use agent_backend.Retrieval.{SearchHit, Python, CollapseConfig}
use agent_backend.Retrieval.Collapse.{resolve_document_key, Group, add_to_group, group_hits}

abbrev pub grouped : List Group → List SearchHit
grouped [] = []
grouped (g ∷ gs) = g.hits ++ grouped gs

-- The hits of a group: each has a document key, which is the group's or equal to it in Python.
abbrev pub BelongsTo : CollapseConfig → Python → Value → SearchHit → Type 0
BelongsTo config py key hit =
    (own : Value) × (resolve_document_key config py hit ≡ ok own)
    × ((key ≡ own) ⊎ (py.equal key own ≡ true))

-- No two groups have equal keys.
abbrev pub DistinctKeys : Python → List Group → Type 0
DistinctKeys py [] = Unit
DistinctKeys py (g ∷ gs) = All (λ later. py.equal g.key later.key ≡ false) gs × DistinctKeys py gs

abbrev pub NonEmpty : Group → Type 0
NonEmpty g = (first : SearchHit) × (rest : List SearchHit) × (g.hits ≡ first ∷ rest)

module _ (config : CollapseConfig) (py : Python) where
  abbrev WellGrouped : Group → Type 0
  WellGrouped g = NonEmpty g × All (BelongsTo config py g.key) g.hits

  append-NonEmpty :
      (g : Group) (hit : SearchHit)
      → NonEmpty g
      → NonEmpty (record { key = g.key; hits = g.hits ++ (hit ∷ []) })
  append-NonEmpty g hit (first, rest, eq) =
      (first, rest ++ (hit ∷ []), ap (λ hs. hs ++ (hit ∷ [])) eq)

  add_to_group-WellGrouped :
      (key : Value) (hit : SearchHit) (groups : List Group)
      → resolve_document_key config py hit ≡ ok key
      → All WellGrouped groups
      → All WellGrouped (add_to_group py key hit groups)
  add_to_group-WellGrouped key hit [] own h = (((hit, [], refl), ((key, own, inl refl), tt)), tt)
  add_to_group-WellGrouped key hit (g ∷ gs) own ((some_hit, members), rest) =
      let more = add_to_group-WellGrouped key hit gs own rest in
      elim (Bool-cases (py.equal g.key key)) [
        | inl found ↦ rw found (
          (
            append-NonEmpty g hit some_hit,
            All-append (BelongsTo config py g.key) g.hits (hit ∷ []) members
                ((key, own, inr found), tt),
          ),
          rest,
        )
        | inr other ↦ rw other ((some_hit, members), more)
      ]

  add_to_group-apart :
      (key : Value) (hit : SearchHit) (g : Group) (groups : List Group)
      → py.equal g.key key ≡ false
      → All (λ later. py.equal g.key later.key ≡ false) groups
      → All (λ later. py.equal g.key later.key ≡ false) (add_to_group py key hit groups)
  add_to_group-apart key hit g [] differ h = (differ, tt)
  add_to_group-apart key hit g (x ∷ xs) differ (here, rest) =
      let more = add_to_group-apart key hit g xs differ rest in
      elim (Bool-cases (py.equal x.key key)) [
        | inl found ↦ rw found (here, rest)
        | inr other ↦ rw other (here, more)
      ]

  add_to_group-DistinctKeys :
      (key : Value) (hit : SearchHit) (groups : List Group)
      → DistinctKeys py groups
      → DistinctKeys py (add_to_group py key hit groups)
  add_to_group-DistinctKeys key hit [] h = (tt, tt)
  add_to_group-DistinctKeys key hit (g ∷ gs) (here, rest) =
      let more = add_to_group-DistinctKeys key hit gs rest in
      elim (Bool-cases (py.equal g.key key)) [
        | inl found ↦ rw found (here, rest)
        | inr other ↦ rw other (add_to_group-apart key hit g gs other here, more)
      ]

  add_to_group-perm :
      (key : Value) (hit : SearchHit) (groups : List Group)
      → Perm (grouped (add_to_group py key hit groups)) (hit ∷ grouped groups)
  add_to_group-perm key hit [] = Perm.rfl
  add_to_group-perm key hit (g ∷ gs) =
      let more = add_to_group-perm key hit gs in
      elim (Bool-cases (py.equal g.key key)) [
        | inl found ↦
            rw (found, append_assoc g.hits (hit ∷ []) (grouped gs))
              (perm_middle g.hits (grouped gs))
        | inr other ↦
            rw other (Perm.trans (Perm.append_left g.hits more) (perm_middle g.hits (grouped gs)))
      ]

  -- What `group_hits` keeps true of the groups that it has read.
  group_hits_keeps :
      (hits : List SearchHit) (groups : List Group) {after : List Group}
      → group_hits config py hits groups ≡ ok after
      → All WellGrouped groups
      → DistinctKeys py groups
      → All WellGrouped after
        × DistinctKeys py after
        × Perm (grouped after) (hits ++ grouped groups)
  group_hits_keeps [] groups {after} e well distinct =
      subst (λ gs. All WellGrouped gs × DistinctKeys py gs × Perm (grouped gs) (grouped groups))
        (ok_injective e) (well, distinct, Perm.rfl)
  group_hits_keeps (hit ∷ hits) groups {after} e well distinct =
      let (key, own, rest) =
        >>=-eq-ok (resolve_document_key config py hit)
          (λ key. group_hits config py hits (add_to_group py key hit groups)) e in
      let (kept, apart, perm) =
        group_hits_keeps hits (add_to_group py key hit groups) rest
          (add_to_group-WellGrouped key hit groups own well)
          (add_to_group-DistinctKeys key hit groups distinct) in
      (
        kept,
        apart,
        Perm.trans perm (
            Perm.trans (Perm.append_left hits (add_to_group-perm key hit groups))
              (perm_middle hits (grouped groups))),
      )

  -- Where every hit has a document key, the groups that `_collapse_hits` builds have different keys,
  -- none is empty, every hit of a group has the group's key or one that Python takes for equal, and
  -- the groups together hold every hit as often as it was given.
  pub group_hits-partition :
      (hits : List SearchHit) {groups : List Group}
      → group_hits config py hits [] ≡ ok groups
      → DistinctKeys py groups
        × All (λ g. NonEmpty g × All (BelongsTo config py g.key) g.hits) groups
        × Perm (grouped groups) hits
  group_hits-partition hits {groups} e =
      let (well, distinct, perm) = group_hits_keeps hits [] e tt tt in
      (distinct, well, subst (Perm (grouped groups)) (append-nil hits) perm)
