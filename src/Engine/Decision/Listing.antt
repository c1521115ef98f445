-- ===== src/Engine/Decision/Listing.antt =====
-- `access_summary` (scoped_access/engine.py): what `GET /me/access/` lists is what decides.
use mathlib.Core.List.{◌++◌, append-nil, append_assoc}
use django_auth_with_scoped.Base.{
  ◌≡◌, refl, ◌∙◌, sym, ap, inl, inr, ◌||◌, Option, none, ℕ, List, [], ◌∷◌, map, String, arith,
  if◌then◌else◌, ◌==◌, string_eq, any, filter, contains, union, contains-union, Bool-cases,
}
use django_auth_with_scoped.Models.{User, Granted, Db, role_perms}
use django_auth_with_scoped.Config.{Env}
use django_auth_with_scoped.Engine.Scope.{global, assignment_is_valid, covers_anchor}
use django_auth_with_scoped.Engine.Decision.{
  effective_assignments, insert_sorted, sorted, Entry, entry, summarise, access_summary, anchor_of,
  is_unregistered, user_permissions,
}
use django_auth_with_scoped.Engine.Decision.Access.{grants, contains-collect}

contains-insert_sorted :
    (p s : String) (ts : List String) → contains p (insert_sorted s ts) ≡ (s == p || contains p ts)
unfolding contains insert_sorted
contains-insert_sorted p s [] = refl
contains-insert_sorted p s (t ∷ ts) = ground (arith, contains-insert_sorted p s ts)

contains-sorted : (p : String) (ss : List String) → contains p (sorted ss) ≡ contains p ss
unfolding contains sorted
contains-sorted p [] = refl
contains-sorted p (s ∷ ss) =
    contains-insert_sorted p s (sorted ss) ∙ ap (λ b. s == p || b) (contains-sorted p ss)

module _ (env : Env) (db : Db) where
  contains-summarise :
      (p : String) (perms : List String) (entries : List Entry) (gs : List Granted)
      → contains p (summarise env db perms entries gs).0
        ≡ (contains p perms || any (grants env db global p) gs)
  unfolding summarise any grants covers_anchor
  contains-summarise p perms entries [] = ground arith
  contains-summarise p perms entries (g ∷ gs) = elim (Bool-cases (assignment_is_valid env g)) [
    | inr e ↦ rw (e, summarise) (contains-summarise p perms entries gs)
    | inl e ↦
        rw (e, summarise)
          (ground (
            arith,
            contains-summarise p (union perms (sorted (role_perms db g.role)))
                (entries ++ entry env db g ∷ []) gs,
            contains-union p perms (sorted (role_perms db g.role)),
            contains-sorted p (role_perms db g.role),
          ))
  ]

  entries-summarise :
      (perms : List String) (entries : List Entry) (gs : List Granted)
      → (summarise env db perms entries gs).1
        ≡ entries ++ map (entry env db) (filter (assignment_is_valid env) gs)
  unfolding summarise filter
  entries-summarise perms entries [] = sym (append-nil entries)
  entries-summarise perms entries (g ∷ gs) = elim (Bool-cases (assignment_is_valid env g)) [
    | inr e ↦ rw (e, summarise) (entries-summarise perms entries gs)
    | inl e ↦
        rw (e, summarise)
          (entries-summarise (union perms (sorted (role_perms db g.role)))
              (entries ++ entry env db g ∷ []) gs
            ∙ append_assoc entries (entry env db g ∷ []) _)
  ]

  permissions_agree :
      (user : User) (at : Option ℕ) (p : String)
      → contains p
          (summarise env db [] []
            (if user.is_active then effective_assignments env db user at else [])).0
        ≡ contains p (user_permissions env db user none at)
  unfolding user_permissions anchor_of is_unregistered summarise
  permissions_agree user at p = elim (Bool-cases user.is_active) [
    | inr e ↦ rw e
    | inl e ↦ simp e (
        contains-summarise p [] [] (effective_assignments env db user at)
        ∙ sym (contains-collect env db global p [] (effective_assignments env db user at)))
  ]

  -- For an active user the summary lists the permissions that `user_permissions` gives without an
  -- object, and one entry for each effective assignment that is valid; for an inactive user both
  -- lists are empty.
  pub access_summary_lem :
      (user : User) (at : Option ℕ)
      → ((p : String)
          → contains p (access_summary env db user at).permissions
            ≡ contains p (user_permissions env db user none at))
        × ((access_summary env db user at).assignments
            ≡ map (entry env db) (
                filter
                  (assignment_is_valid env)
                  (if user.is_active then effective_assignments env db user at else [])))
  unfolding access_summary
  access_summary_lem user at =
      (λ p. contains-sorted p _ ∙ permissions_agree user at p, entries-summarise [] [] _)
