-- ===== src/Engine/Filters/Agreement.antt =====
-- `accessible_nodes` (scoped_access/engine.py) against the per-object decisions.
use django_auth_with_scoped.Base.{
  ℕ, ◌-◌, ◌≡◌, refl, ◌∙◌, sym, ap, ◌↔◌, ◌⊎◌, inl, inr, Bool, true, false, Option, none, some, Memᴰ,
  arith, String, ◌==◌, nat_eq, string_eq, option_eq, filter, get_elem?, ltb, ltb_iff, filter-congr,
  Bool-iff, Bool-cases,
}
use django_auth_with_scoped.World.{Obj}
use django_auth_with_scoped.Registry
use django_auth_with_scoped.Registry.{Level}
use django_auth_with_scoped.Registry.Ranks.{rank-level}
use django_auth_with_scoped.Models.{User, Assignment, Granted, Db, is_root_scope}
use django_auth_with_scoped.Config.{Env}
use django_auth_with_scoped.Engine.Scope.{Anchor, node, resolve_anchor, assignment_is_valid}
use django_auth_with_scoped.Engine.Scope.Coverage.{CoversAnchor, resolve_anchor_node}
use django_auth_with_scoped.Engine.Decision.{
  effective_assignments, anchor_of, has_perm, user_covers,
}
use django_auth_with_scoped.Engine.Decision.Access.{
  IsInForce, IsCovered, mem-effective_assignments, has_perm_iff,
}
use django_auth_with_scoped.Engine.Decision.Admission.{IsAdmitted, user_covers_iff}
use django_auth_with_scoped.Engine.Filters.{
  Q, nothing, everything, pk_is, at_path, either, rank_or_none, holds, lacks, add_scope,
  node_condition, assignment_loop, accessible_nodes,
}
use django_auth_with_scoped.Engine.Filters.Loop.{Takes, assignment_loop_iff, assignment_loop-total}
use django_auth_with_scoped.Engine.Filters.Paths.{IsHost, HasParents, up_path-total}
use django_auth_with_scoped.Engine.Filters.Reach.{
  Climbs, Climbs-InScope, InScope-Climbs, modeled_rank, add_scope_iff, ranked, is_node_model_lem,
  mem-queryset, typed_row,
}

-- The per-object decision that a filter stands for: with a permission, and without.
unfoldable pub allows : Env → Db → User → Option ℕ → Option String → Obj → Bool
allows env db user at permission obj = elim permission [
  | none ↦ user_covers env db user obj at
  | some perm ↦ has_perm env db user perm (some obj) at
]

module _ (env : Env) (db : Db) (host : IsHost env) where
  -- what is shown of an object with this anchor
  abbrev pub IsShown : User → Option ℕ → Option String → Anchor → Type 0
  IsShown user at permission anchor =
      (user.is_active ≡ true)
      × ((user.is_superuser ≡ true)
          ⊎ ((g : Granted) × IsInForce env db user at g
              × (lacks db permission g ≡ false)
              × CoversAnchor env g.assignment anchor))

  pub allows_iff :
      (user : User) (at : Option ℕ) (permission : Option String) (obj : Obj) (anchor : Anchor)
      → resolve_anchor env obj ≡ anchor
      → (IsAdmitted env db user at anchor → IsCovered env db user at anchor)
      → (IsCovered env db user at anchor → IsAdmitted env db user at anchor)
      → (allows env db user at permission obj ≡ true) ↔ IsShown user at permission anchor
  unfolding allows lacks anchor_of
  allows_iff user at none obj anchor resolved there back =
      let iff = user_covers_iff env db host.finite_depth user obj at in
      (
        λ h.
            let (active, who) = iff.0 h in
            (
              active,
              elim who [
                | inl s ↦ inl s
                | inr c ↦
                    let (g, inforce, cov) = there (rw resolved at c) in inr (g, inforce, refl, cov)
              ],
            ),
        λ (active, who). iff.1 (
          active,
          elim who [
            | inl s ↦ inl s
            | inr (g, inforce, _, cov) ↦ inr (rw resolved (back (g, inforce, cov)))
          ],
        ),
      )
  allows_iff user at (some perm) obj anchor resolved there back =
      let iff = has_perm_iff env db host.finite_depth user perm (some obj) at in
      (
        λ h.
            let (active, who) = iff.0 h in
            (
              active,
              elim who [
                | inl s ↦ inl s
                | inr (g, inforce, cov, has) ↦ inr (g, inforce, rw has refl, rw resolved at cov)
              ],
            ),
        λ (active, who). iff.1 (
          active,
          elim who [
            | inl s ↦ inl s
            | inr (g, inforce, has, cov) ↦ inr (g, inforce, rw resolved cov, ground (arith, has))
          ],
        ),
      )

  pub allows_node :
      (user : User) (at : Option ℕ) (permission : Option String) (n : Obj)
      → Registry.is_node_model env.world env.hierarchy n.model ≡ true
      → (allows env db user at permission n ≡ true) ↔ IsShown user at permission (node n)
  allows_node user at permission n is_node =
      allows_iff user at permission n (node n) (resolve_anchor_node env n is_node) (λ c. c) (λ c. c)

  -- What the loop of a filter takes in, where it adds what the assignments cover.
  pub shown_iff :
      (user : User) (at : Option ℕ) (permission : Option String) (anchor : Anchor) (row : Obj)
      (add : Assignment → ℕ → Q → Option Q) (P : Assignment → ℕ → Type 0)
      → ((a : Assignment) (rank : ℕ) (q q' : Q)
          → add a rank q ≡ some q'
          → (holds env q' row ≡ true) ↔ ((holds env q row ≡ true) ⊎ P a rank))
      → ((g : Granted)
          → Takes env db add permission row P g ↔ (
              (assignment_is_valid env g ≡ true)
              × (lacks db permission g ≡ false)
              × CoversAnchor env g.assignment anchor))
      → (q : Q)
      → assignment_loop env db add permission nothing (effective_assignments env db user at)
        ≡ some q
      → (holds env q row ≡ true) ↔ (
          (g : Granted) × IsInForce env db user at g
          × (lacks db permission g ≡ false)
          × CoversAnchor env g.assignment anchor)
  unfolding holds
  shown_iff user at permission anchor row add P added takes q h =
      let iff =
        assignment_loop_iff env db add permission row P added nothing q
          (effective_assignments env db user at) h in
      (
        λ m. elim (iff.0 m) [
          | inl never ↦ absurd (ground arith)
          | inr (g, mem, t) ↦
              let (valid, permitted, cov) = (takes g).0 t in
              (g, (mem-effective_assignments env db user at g).0 (mem, valid), permitted, cov)
        ],
        λ (g, inforce, permitted, cov). iff.1 (
            inr (
              g,
              ((mem-effective_assignments env db user at g).1 inforce).0,
              (takes g).1 (inforce.valid, permitted, cov),
            )),
      )

  add_scope-total :
      HasParents env.hierarchy.levels
      → (target : ℕ) (l : Level) → get_elem? env.hierarchy.levels target ≡ some l
      → (g : Granted) (rank : ℕ) (q : Q) → assignment_is_valid env g ≡ true
      → is_root_scope g.assignment ≡ false
      → rank_or_none env.hierarchy g.assignment ≡ some rank
      → (q' : Q) × (add_scope env target g.assignment rank q ≡ some q')
  unfolding add_scope
  add_scope-total parents target l at_l g rank q valid scoped r =
      elim (Bool-cases (ltb target rank)) [
        | inl low ↦ (q, rw low refl)
        | inr high ↦ elim (Bool-cases (rank == target)) [
          | inl same ↦ (either q (pk_is g.scope_id), rw (high, same) refl)
          | inr differs ↦
              let (k, at_k, modeled) = modeled_rank env g rank valid scoped r in
              let (path, climbs) =
                up_path-total env parents (target - rank) target rank k l
                  (ground (arith, ltb_iff target rank)) at_k modeled at_l in
              (either q (at_path path g.scope_id), rw (high, differs, climbs) refl)
        ]
      ]

  module _ (target : ℕ) (permission : Option String) (l : Level) (n : Obj)
      (at_l : get_elem? env.hierarchy.levels target ≡ some l)
      (model : Registry.model env.world l ≡ some n.model)
      (place : host.layers.rank_of n ≡ target) where
    Takes-iff :
        (g : Granted)
        → Takes env db (add_scope env target) permission n (Climbs env n target) g ↔ (
            (assignment_is_valid env g ≡ true)
            × (lacks db permission g ≡ false)
            × CoversAnchor env g.assignment (node n))
    Takes-iff g = (
      λ t. (
        t.valid,
        t.permitted,
        elim t.reaches [
          | inl root ↦ inl (ground (arith, root))
          | inr (scoped, rank, r, c) ↦ inr (
              Climbs-InScope env host.sound_references host.chained g n target rank l at_l model
                t.valid scoped r c)
        ],
      ),
      λ (valid, permitted, c). record {
        valid = valid;
        permitted = permitted;
        reaches = elim (Bool-cases (is_root_scope g.assignment)) [
          | inl root ↦ inl root
          | inr scoped ↦
              let (rank, r) = ranked env g valid scoped in
              inr (
                scoped,
                rank,
                r,
                InScope-Climbs env host g n rank valid scoped r place
                    (elim c [ inl root ↦ absurd (ground arith) | inr inside ↦ inside ]),
              )
        ];
      },
    )

    node_condition_iff :
        (user : User) (at : Option ℕ) (q : Q)
        → node_condition env db user target at permission ≡ some q
        → (holds env q n ≡ true) ↔ IsShown user at permission (node n)
    unfolding node_condition holds
    node_condition_iff user at q h = elim (Bool-cases user.is_active) [
      | inr e ↦
          let same : nothing ≡ q = ground arith in
          (
            λ m. absurd (ground (arith, ap (λ r. holds env r n) same)),
            λ (active, _). absurd (ground arith),
          )
      | inl e ↦ elim (Bool-cases user.is_superuser) [
        | inl s ↦
            let same : everything ≡ q = ground arith in
            (λ _. (e, inl s), λ _. sym (ap (λ r. holds env r n) same))
        | inr s ↦
            let iff =
              shown_iff user at permission (node n) n (add_scope env target) (Climbs env n target)
                (add_scope_iff env n target) Takes-iff q (simp (e, s) at h) in
            (
              λ m. (e, inr (iff.0 m)),
              λ (_, who). elim who [ inl super ↦ absurd (ground arith) | inr shown ↦ iff.1 shown ],
            )
      ]
    ]

  -- the loop of `accessible_nodes` returns
  node_condition-total :
      HasParents env.hierarchy.levels
      → (user : User) (target : ℕ) (at : Option ℕ) (permission : Option String) (l : Level)
      → get_elem? env.hierarchy.levels target ≡ some l
      → (q : Q) × (node_condition env db user target at permission ≡ some q)
  unfolding node_condition
  node_condition-total parents user target at permission l at_l = elim (Bool-cases user.is_active) [
    | inr e ↦ (nothing, rw e refl)
    | inl e ↦ elim (Bool-cases user.is_superuser) [
      | inl s ↦ (everything, rw (e, s) refl)
      | inr s ↦
          let (q, r) =
            assignment_loop-total env db (add_scope env target) permission
              (add_scope-total parents target l at_l) nothing
              (effective_assignments env db user at) in
          (q, ground (arith, r))
    ]
  ]

  -- `accessible_nodes` of a level with a model returns, and returns of the level's rows exactly
  -- those that the per-object decision allows: `has_perm` for a permission, `user_covers` without.
  -- It holds for a host that is as documented and whose nodes stand in levels (IsHost), where
  -- every level below a modelled one has an accessor (HasParents).
  pub accessible_nodes_lem :
      HasParents env.hierarchy.levels
      → (user : User) (name : ℕ) (at : Option ℕ) (permission : Option String) (l : Level)
      → Registry.level env.hierarchy name ≡ some l
      → Registry.is_root l ≡ false
      → accessible_nodes env db user name at permission
        ≡ some (filter (allows env db user at permission) (Registry.queryset env.world l))
  unfolding accessible_nodes
  accessible_nodes_lem parents user name at permission l found plain =
      let (target, r, at_l) = rank-level env.hierarchy name l found in
      let (q, condition) = node_condition-total parents user target at permission l at_l in
      let agree : (row : Obj)
          → Memᴰ row (Registry.queryset env.world l)
          → holds env q row ≡ allows env db user at permission row =
        λ row mem.
          let (m, model, is_row) = mem-queryset env l row mem in
          let model' : Registry.model env.world l ≡ some row.model =
            model ∙ ap some (sym (typed_row env host l m row model mem)) in
          Bool-iff (holds env q row) (allows env db user at permission row)
            (node_condition_iff target permission l row at_l model'
              (host.layers.placed target l row at_l mem) user at q condition)
            (allows_node user at permission row
              (is_node_model_lem env target l row.model at_l plain model')) in
      rw (accessible_nodes, found, plain, r, condition)
        (ap some (filter-congr (holds env q) (allows env db user at permission) _ agree))
