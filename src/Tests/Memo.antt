-- ===== src/Tests/Memo.antt =====
-- The memo of validity (scoped_access/engine.py: `_assignment_is_valid`) in a request of the small
-- deployment.
use django_auth_with_scoped.Base.{
  ◌≡◌, ◌∙◌, sym, refl, false, some, none, List, [], ◌∷◌, Memᴰ, arith, lookup, option_eq, nat_eq,
}
use django_auth_with_scoped.Models.{Granted}
use django_auth_with_scoped.Config.{Env}
use django_auth_with_scoped.Cache.{
  Cache, empty, enter_request, cached_assignment_is_valid, invalidate_user, invalidate_all,
}
use django_auth_with_scoped.Cache.Validity.{
  AnswersFresh, HasFreshMemo, HasDistinctRows, cached_assignment_is_valid_lem,
}
use django_auth_with_scoped.Tests.{env, managed}

abbrev rows : List Granted
rows = managed ∷ []

abbrev opened : Cache
opened = record { store = some empty; dirty = false }

is_managed : (g : Granted) → Memᴰ g rows → g ≡ managed
is_managed g (Memᴰ.head e) = e
is_managed g (Memᴰ.tail m) = elim m [ ]

one_row : HasDistinctRows env rows
one_row g k mem_g mem_k same = is_managed g mem_g ∙ sym (is_managed k mem_k)

nothing_remembered : HasFreshMemo env rows opened
unfolding lookup
nothing_remembered clean s is g valid mem found = absurd (ground arith)

cached_assignment_is_valid_lem_example :
    HasFreshMemo env rows (enter_request (record { store = none; dirty = false }))
    × AnswersFresh env rows managed (cached_assignment_is_valid env false managed opened)
    × HasFreshMemo env rows (invalidate_user false 1 opened)
    × ((other : Env) (changed : List Granted)
      → HasFreshMemo other changed (invalidate_all false opened))
cached_assignment_is_valid_lem_example =
    cached_assignment_is_valid_lem env rows false managed opened 1 one_row (Memᴰ.head refl)
      nothing_remembered
