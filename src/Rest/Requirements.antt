-- ===== src/Rest/Requirements.antt =====
-- Which permissions a view requires (scoped_access/drf/mixins.py: `_required_scoped_permissions`),
-- with its cache and without.
use mathlib.Core.List.Memᴰ
use django_auth_with_scoped.Base.{
  ℕ, ◌≡◌, refl, ◌∙◌, sym, ap, ◌⊎◌, inl, inr, false, some, List, [], ◌∷◌, ◌++◌, Memᴰ, arith, String,
  contains, contains-mem, lookup, lookup-put, put, Bool-cases, Option-cases, subst, string_eq,
  nat_eq, pair_eq, ◌==◌,
}
use django_auth_with_scoped.Rest.{Failure, Answer, ok, raised, then_do}
use django_auth_with_scoped.Rest.Permissions.{PermsMap, Required}
use django_auth_with_scoped.Rest.Discovery.{
  Gate, View, State, view_permissions, leaves, without_repeats, required_by_leaves,
  required_by_gates, required_permissions,
}

pub Answer-cases {ℓ} :
    {A : Type ℓ} (r : Answer A) → ((a : A) × (r ≡ ok a)) ⊎ ((e : Failure) × (r ≡ raised e))
Answer-cases (ok a) = inl (a, refl)
Answer-cases (raised e) = inr (e, refl)

-- A block that returned is a part that returned, and the rest of it.
pub then_do-ok {ℓ κ} :
    {A : Type ℓ} {B : Type κ} (r : Answer A) (f : A → Answer B) {b : B}
    → then_do r f ≡ ok b
    → (a : A) × (r ≡ ok a) × (f a ≡ ok b)
then_do-ok (ok a) f h = (a, refl, h)
then_do-ok (raised e) f h = absurd (ground arith)

pub mem-++ {ℓ} :
    {A : Type ℓ} {x : A} (xs ys : List A)
    → (Memᴰ x xs → Memᴰ x (xs ++ ys)) × (Memᴰ x ys → Memᴰ x (xs ++ ys))
mem-++ [] ys = (λ m. elim m [ ], λ m. m)
mem-++ (z ∷ zs) ys = (
  λ m. elim (Memᴰ.cases_cons m) [ inl e ↦ Memᴰ.head e | inr k ↦ Memᴰ.tail ((mem-++ zs ys).0 k) ],
  λ m. Memᴰ.tail ((mem-++ zs ys).1 m),
)

-- `dict.fromkeys` keeps every name.
pub without_repeats-mem :
    (seen ps : List String) (p : String)
    → Memᴰ p ps
    → Memᴰ p seen ⊎ Memᴰ p (without_repeats seen ps)
unfolding without_repeats
without_repeats-mem seen [] p m = elim m [ ]
without_repeats-mem seen (q ∷ qs) p m = elim (Bool-cases (contains q seen)) [
  | inl old ↦ elim (Memᴰ.cases_cons m) [
    | inl here ↦ inl (subst (λ k. Memᴰ k seen) (sym here) (contains-mem q seen old))
    | inr later ↦ elim (without_repeats-mem seen qs p later) [
      | inl k ↦ inl k
      | inr k ↦ inr (rw (without_repeats, old) k)
    ]
  ]
  | inr fresh ↦ elim (Memᴰ.cases_cons m) [
    | inl here ↦ inr (rw (without_repeats, fresh) (Memᴰ.head here))
    | inr later ↦ elim (without_repeats-mem (q ∷ seen) qs p later) [
      | inr k ↦ inr (rw (without_repeats, fresh) (Memᴰ.tail k))
      | inl k ↦ elim (Memᴰ.cases_cons k) [
        | inl here ↦ inr (rw (without_repeats, fresh) (Memᴰ.head here))
        | inr old ↦ inl old
      ]
    ]
  ]
]

module _ (required : Required) (method : String) (model : ℕ) where
  required_by_leaves-leaf :
      (ls : List PermsMap) (ps : List String) (perms : PermsMap)
      → required_by_leaves required method model ls ≡ ok ps
      → Memᴰ perms ls
      → (qs : List String) × (required perms method model ≡ ok qs)
        × ((p : String) → Memᴰ p qs → Memᴰ p ps)
  unfolding required_by_leaves
  required_by_leaves-leaf [] ps perms h m = elim m [ ]
  required_by_leaves-leaf (l ∷ ls) ps perms h m =
      let (qs, first, then_rest) =
        then_do-ok (required l method model)
          (λ qs. then_do (required_by_leaves required method model ls) (λ rs. ok (qs ++ rs))) h in
      let (rs, rest, same) =
        then_do-ok (required_by_leaves required method model ls) (λ rs. ok (qs ++ rs)) then_rest in
      let shape : qs ++ rs ≡ ps = ground arith in
      elim (Memᴰ.cases_cons m) [
        | inl here ↦ (
          qs,
          ap (λ k. required k method model) here ∙ first,
          λ p k. subst (Memᴰ p) shape ((mem-++ qs rs).0 k),
        )
        | inr later ↦
            let (ts, of_leaf, inside) = required_by_leaves-leaf ls rs perms rest later in
            (ts, of_leaf, λ p k. subst (Memᴰ p) shape ((mem-++ qs rs).1 (inside p k)))
      ]

  -- What a view requires has what every leaf of its permissions requires.
  pub required_by_gates-leaf :
      (gs : List Gate) (ps : List String) (g : Gate)
      → required_by_gates required method model gs ≡ ok ps
      → Memᴰ g gs
      → (ls : List PermsMap) × (leaves g ≡ ok ls)
        × ((perms : PermsMap)
            → Memᴰ perms ls
            → (qs : List String) × (required perms method model ≡ ok qs)
              × ((p : String) → Memᴰ p qs → Memᴰ p ps))
  unfolding required_by_gates
  required_by_gates-leaf [] ps g h m = elim m [ ]
  required_by_gates-leaf (k ∷ gs) ps g h m =
      let (ls, of_gate, then_leaves) = then_do-ok (leaves k) (λ ls. _) h in
      let (qs, of_leaves, then_gates) =
        then_do-ok (required_by_leaves required method model ls) (λ qs. _) then_leaves in
      let (rs, of_gates, same) =
        then_do-ok (required_by_gates required method model gs) (λ rs. ok (qs ++ rs)) then_gates in
      let shape : qs ++ rs ≡ ps = ground arith in
      elim (Memᴰ.cases_cons m) [
        | inl here ↦ (
          ls,
          ap leaves here ∙ of_gate,
          λ perms leaf.
              let (ts, of_leaf, inside) = required_by_leaves-leaf ls qs perms of_leaves leaf in
              (ts, of_leaf, λ p i. subst (Memᴰ p) shape ((mem-++ qs rs).0 (inside p i))),
        )
        | inr later ↦
            let (ks, of_g, all_of_g) = required_by_gates-leaf gs rs g of_gates later in
            (
              ks,
              of_g,
              λ perms leaf.
                  let (ts, of_leaf, inside) = all_of_g perms leaf in
                  (ts, of_leaf, λ p i. subst (Memᴰ p) shape ((mem-++ qs rs).1 (inside p i))),
            )
      ]

-- what a view requires, worked out anew
abbrev pub fresh : Required → View → State → String → ℕ → Answer (List String)
fresh required view s method model =
    then_do (then_do (view_permissions view s) (required_by_gates required method model))
      (λ ps. ok (without_repeats [] ps))

-- The cache of a view holds what would be worked out anew.
abbrev pub IsCoherent : Required → View → State → Type 0
IsCoherent required view s =
    (method : String) (model : ℕ) (ps : List String)
    → lookup (method, model) s.cache ≡ some ps
    → fresh required view s method model ≡ ok ps

-- Discovery reads neither the cache nor the warnings.
pub fresh_reads :
    (required : Required) (view : View) (s t : State) (method : String) (model : ℕ)
    → s.discovering ≡ t.discovering
    → fresh required view s method model ≡ fresh required view t method model
unfolding view_permissions
fresh_reads required view s t method model same = rw same refl

-- How a view comes to the permissions that it requires: from the cache, from an exception, or anew.
required_permissions-cases :
    (required : Required) (view : View) (method : String) (model : ℕ) (s : State)
    → s.discovering ≡ false
    → ((ps : List String) × (lookup (method, model) s.cache ≡ some ps)
        × (required_permissions required view (some method) model s ≡ (ok ps, s)))
      ⊎ (((e : Failure) × (fresh required view s method model ≡ raised e)
            × (required_permissions required view (some method) model s ≡ (raised e, s)))
          ⊎ ((ps : List String) × (fresh required view s method model ≡ ok ps)
              × (required_permissions required view (some method) model s
                  ≡ (ok ps, record s { cache = put (method, model) ps s.cache }))))
unfolding required_permissions
required_permissions-cases required view method model s active =
    elim (Option-cases (lookup (method, model) s.cache)) [
      | inr (ps, cached) ↦ inl (ps, cached, ground (arith, active, cached))
      | inl missing ↦
          elim (Answer-cases
            (then_do (view_permissions view s) (required_by_gates required method model))) [
              | inr (e, failed) ↦
                  inr (inl (e, ground (arith, failed), ground (arith, active, missing, failed)))
              | inl (ps, found) ↦ inr (
                  inr (
                    without_repeats [] ps,
                    ground (arith, found),
                    ground (arith, active, missing, found),
                  ))
            ]
    ]

-- what is left of a view whose cache is asked, and what it answers
abbrev pub IsFresh : Required → View → State → String → ℕ → Answer (List String) × State → Type 0
IsFresh required view s method model (answer, after) =
    (answer ≡ fresh required view s method model)
    × IsCoherent required view after
    × (after.discovering ≡ false)
    × (after.warnings ≡ s.warnings)

-- The cache of required permissions is transparent: outside discovery, with a cache that holds what
-- would be worked out anew (as the empty one does), the answer is what is worked out anew, be it a
-- list or an exception, and the cache is so again; only the cache has changed.
pub required_permissions-IsFresh :
    (required : Required) (view : View) (method : String) (model : ℕ) (s : State)
    → s.discovering ≡ false
    → IsCoherent required view s
    → IsFresh required view s method model
        (required_permissions required view (some method) model s)
required_permissions-IsFresh required view method model s active coherent =
    elim (required_permissions-cases required view method model s active) [
      | inl (ps, cached, is) ↦
          subst (IsFresh required view s method model) (sym is)
            (sym (coherent method model ps cached), coherent, active, refl)
      | inr (inl (e, failed, is)) ↦
          subst (IsFresh required view s method model) (sym is) (sym failed, coherent, active, refl)
      | inr (inr (ps, found, is)) ↦
          subst (IsFresh required view s method model) (sym is)
            (sym found, with_answer ps found, active, refl)
    ]
  where
    by_key :
        (k j : String × ℕ) (ps qs : List String)
        → fresh required view s k.0 k.1 ≡ ok ps
        → (lookup j s.cache ≡ some qs → fresh required view s j.0 j.1 ≡ ok qs)
        → lookup j (put k ps s.cache) ≡ some qs
        → fresh required view s j.0 j.1 ≡ ok qs
    by_key k j ps qs found old cached = elim (Bool-cases (k == j)) [
      | inl same ↦
          let key : k ≡ j = ((pair_eq {A = String} {B = ℕ}).same_iff k j).0 same in
          let value : ps ≡ qs = ground (arith, same, cached, lookup-put k j ps s.cache) in
          ap (λ (i : String × ℕ). fresh required view s i.0 i.1) (sym key) ∙ found ∙ ap ok value
      | inr differs ↦ old (ground (arith, differs, cached, lookup-put k j ps s.cache))
    ]

    with_answer :
        (ps : List String)
        → fresh required view s method model ≡ ok ps
        → IsCoherent required view (record s { cache = put (method, model) ps s.cache })
    with_answer ps found other_method other_model qs cached =
        fresh_reads required view (record s { cache = put (method, model) ps s.cache }) s
          other_method other_model refl
        ∙ by_key (method, model) (other_method, other_model) ps qs found
            (λ cached'. coherent other_method other_model qs cached') cached
