-- ===== src/World.antt =====
-- What the package uses of the host project and of Django: the Python objects of the host's
-- models, attribute access, content types, querysets of rows. They are parameters, with the
-- documented behaviour that the code relies on as named hypotheses.
use django_auth_with_scoped.Base.{ℕ, ◌≡◌, refl, ◌⊎◌, inl, inr, Bool, Option, some, List, Memᴰ}

-- An instance of a host model: its class, its primary key (`None` until it is saved), and which
-- object in memory it is. Identifiers are only compared, so they are numbers.
pub record Obj : Type 0 where
  pub model : ℕ
  pub pk : Option ℕ
  pub handle : ℕ

-- A path `"encounter__facility"` is the list of its parts; the empty string is the empty list.
abbrev pub Accessor : Type 0
Accessor = List ℕ

-- What reading a `GenericForeignKey` does: it gives an object or `None`, or it raises
-- `ObjectDoesNotExist`, `TypeError` or `ValueError`.
pub data Fetched : Type 0 where
  found : Obj → Fetched
  absent raised : Fetched

-- What `model._meta.get_field(part)` gives: it raises `FieldDoesNotExist`, or gives a field whose
-- `related_model` is `None`, or one that leads to a model.
pub data Field : Type 0 where
  missing plain : Field
  leads_to : ℕ → Field

pub record World : Type 0 where
  pub getattr : Obj → ℕ → Option Obj  -- `getattr(obj, part, None)`
  pub get_field : ℕ → ℕ → Field  -- `model._meta.get_field(part)`
  pub get_model : ℕ → ℕ  -- `apps.get_model(label)`
  pub content_type : ℕ → ℕ  -- `ContentType.objects.get_for_model(model).pk`
  pub all_rows : ℕ → List Obj  -- `model._default_manager.all()`
  pub satisfies : List (ℕ × ℕ) → Obj → Bool  -- the row test of `filter(**kwargs)`
  pub generic_get : Option ℕ → Option ℕ → Fetched  -- `GenericForeignKey(ct, id)`
  pub depth : Obj → ℕ  -- a bound on the parent links above an object

-- Two models have different content types.
abbrev pub HasDistinctContentTypes : World → Type 0
HasDistinctContentTypes w = (m n : ℕ) → w.content_type m ≡ w.content_type n → m ≡ n

-- A generic reference that is found gives an object of that content type and key.
abbrev pub HasSoundReferences : World → Type 0
HasSoundReferences w =
    (ct id : Option ℕ) (o : Obj)
    → w.generic_get ct id ≡ Fetched.found o
    → (some (w.content_type o.model) ≡ ct) × (o.pk ≡ id)

-- The rows of a model's manager are instances of that model.
abbrev pub HasTypedRows : World → Type 0
HasTypedRows w = (m : ℕ) (row : Obj) → Memᴰ row (w.all_rows m) → row.model ≡ m

-- A row of a model is the only one with its key.
abbrev pub HasUniqueKeys : World → Type 0
HasUniqueKeys w =
    (m : ℕ) (row other : Obj)
    → Memᴰ row (w.all_rows m)
    → Memᴰ other (w.all_rows m)
    → row.pk ≡ other.pk
    → row ≡ other

-- what a field says of an instance that its attribute reads
abbrev pub IsReadThrough : Field → Obj → Type 0
IsReadThrough Field.missing next = Unit {0}
IsReadThrough Field.plain next = ⊥
IsReadThrough (Field.leads_to m) next = next.model ≡ m

-- What an attribute reads through a relation is an instance of the related model, and a field
-- that is no relation holds no instance.
abbrev pub HasTypedRelations : World → Type 0
HasTypedRelations w =
    (o next : Obj) (part : ℕ)
    → w.getattr o part ≡ some next
    → IsReadThrough (w.get_field o.model part) next

pub Field-cases :
    (f : Field) → (f ≡ Field.missing) ⊎ ((f ≡ Field.plain) ⊎ ((m : ℕ) × (f ≡ Field.leads_to m)))
Field-cases Field.missing = inl refl
Field-cases Field.plain = inr (inl refl)
Field-cases (Field.leads_to m) = inr (inr (m, refl))
