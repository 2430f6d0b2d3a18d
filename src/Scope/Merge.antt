-- ===== src/Scope/Merge.antt =====
-- Merging a scope into metadata or a filter (protoprompt/scope.py).
use protoprompt.Prelude.{
  ◌≡◌, refl, ◌↔◌, inl, inr, ◌⊎◌, Bool, false, not, Option, none, some, List, [], ◌∷◌, Text, text_eq,
  text_eqb, text_eqb_iff, All, ok, err, value_error, String, Bool-cases, arith, select,
}
use protoprompt.PyText.{is_empty}
use protoprompt.Dict
use protoprompt.Dict.{Dict, Unique}
use protoprompt.Dict.Laws.{get-put, get-put_self}
use protoprompt.Value.{Value, null, str, int, bool, texts, one_of, Metadata, value_eqb-str_iff}
use protoprompt.Scope.{
  MemoryScope, scope_fields, to_metadata, conflicts, merge_fields, merge_metadata, merge_where,
}

-- Each field stands in the metadata with its value.
abbrev pub Pinned : List (Text × Text) → Metadata → Type 0
Pinned fields m = All (λ kv. Dict.get kv.0 m ≡ some (str kv.1)) fields

merge_fields-other :
    (message : String) (fields : List (Text × Text)) (m m' : Metadata) (j : Text)
    → merge_fields message fields m ≡ ok m'
    → Dict.get j fields ≡ none
    → Dict.get j m' ≡ Dict.get j m
unfolding merge_fields Dict.get
merge_fields-other message [] m m' j h absent = ground arith
merge_fields-other message ((k, v) ∷ fields) m m' j h absent = ground (
  arith,
  merge_fields-other message fields (Dict.put k (str v) m) m' j,
  get-put k j (str v) m,
  text_eqb_iff k j,
)

merge_fields-Pinned :
    (message : String) (fields : List (Text × Text)) (m m' : Metadata)
    → Unique fields
    → merge_fields message fields m ≡ ok m'
    → Pinned fields m'
unfolding merge_fields
merge_fields-Pinned message [] m m' u h = tt
merge_fields-Pinned message ((k, v) ∷ fields) m m' u h = ground (
  arith,
  merge_fields-Pinned message fields (Dict.put k (str v) m) m' u.1,
  merge_fields-other message fields (Dict.put k (str v) m) m' k,
  get-put_self k (str v) m,
)

-- A value that may become the given text: there is none, or `None`, or that text already.
abbrev pub Agrees : Option Value → Text → Type 0
Agrees found value = (found ≡ none) ⊎ ((found ≡ some null) ⊎ (found ≡ some (str value)))

conflicts_iff : (found : Option Value) (t : Text) → (conflicts found t ≡ false) ↔ Agrees found t
unfolding conflicts
conflicts_iff none t = ((λ h. inl refl), (λ a. refl))
conflicts_iff (some null) t = ((λ h. inr (inl refl)), (λ a. refl))
conflicts_iff (some (str s)) t = ground (arith, value_eqb-str_iff (str s) t)
conflicts_iff (some (int n)) t = ground (arith, value_eqb-str_iff (int n) t)
conflicts_iff (some (bool b)) t = ground (arith, value_eqb-str_iff (bool b) t)
conflicts_iff (some (texts ts)) t = ground (arith, value_eqb-str_iff (texts ts) t)
conflicts_iff (some (one_of ts)) t = ground (arith, value_eqb-str_iff (one_of ts) t)

-- No field of the scope stands in the metadata with another value.
abbrev pub Compatible : List (Text × Text) → Metadata → Type 0
Compatible fields m = All (λ kv. Agrees (Dict.get kv.0 m) kv.1) fields

Compatible-put :
    (k v : Text) (fields : List (Text × Text)) (m : Metadata)
    → Dict.get k fields ≡ none
    → Compatible fields m ↔ Compatible fields (Dict.put k (str v) m)
unfolding Dict.get
Compatible-put k v [] m h = ((λ c. tt), (λ c. tt))
Compatible-put k v ((j, w) ∷ fields) m h =
    ground (
      arith,
      Compatible-put k v fields m,
      get-put k j (str v) m,
      text_eqb_iff j k,
      text_eqb_iff k j,
    )

-- A merge fails on a conflict, with the given message, and returns metadata otherwise.
merge_fields-total :
    (message : String) (fields : List (Text × Text)) (m : Metadata)
    → Unique fields
    → ((m' : Metadata) × (merge_fields message fields m ≡ ok m') × Compatible fields m)
      ⊎ ((merge_fields message fields m ≡ err (value_error message)) × (¬ Compatible fields m))
unfolding merge_fields
merge_fields-total message [] m u = inl (m, refl, tt)
merge_fields-total message ((k, v) ∷ fields) m u = elim (Bool-cases (conflicts (Dict.get k m) v)) [
  | inl clash ↦ inr (rw clash, λ c. let no = (conflicts_iff (Dict.get k m) v).1 c.0 in cc)
  | inr fine ↦ elim (merge_fields-total message fields (Dict.put k (str v) m) u.1) [
    | inl (m', returned, c) ↦ inl (
      m',
      rw (fine, returned),
      ((conflicts_iff (Dict.get k m) v).0 fine, (Compatible-put k v fields m u.0).1 c),
    )
    | inr (raised, c) ↦
        inr (rw (fine, raised), λ all. c ((Compatible-put k v fields m u.0).0 all.1))
  ]
]

scope_fields-Unique : (s : MemoryScope) → Unique (scope_fields s)
unfolding Dict.get text_eqb
scope_fields-Unique s = (refl, (refl, (refl, (refl, tt))))

pub get-select :
    (p : Text × Text → Bool) (k : Text) (fields : List (Text × Text))
    → Dict.get k fields ≡ none
    → Dict.get k (select p fields) ≡ none
unfolding Dict.get
get-select p k [] h = refl
get-select p k (x ∷ fields) h = ground (arith, get-select p k fields)

select-Unique :
    (p : Text × Text → Bool) (fields : List (Text × Text))
    → Unique fields
    → Unique (select p fields)
select-Unique p [] u = tt
select-Unique p ((k, v) ∷ fields) u = ground (arith, select-Unique p fields, get-select p k fields)

pub to_metadata-Unique : (s : MemoryScope) → Unique (to_metadata s)
unfolding to_metadata
to_metadata-Unique s =
    select-Unique (λ kv. not (is_empty kv.1)) (scope_fields s) (scope_fields-Unique s)

-- A filter that `merge_where` returns holds every non-empty field of the scope, and has any other
-- key exactly as the caller gave it.
pub merge_where-pins :
    (s : MemoryScope) (w w' : Metadata)
    → merge_where s w ≡ ok w'
    → Pinned (to_metadata s) w'
      × ((j : Text) → Dict.get j (to_metadata s) ≡ none → Dict.get j w' ≡ Dict.get j w)
unfolding merge_where
merge_where-pins s w w' h = (
  merge_fields-Pinned _ (to_metadata s) w w' (to_metadata-Unique s) h,
  λ j. merge_fields-other _ (to_metadata s) w w' j h,
)

-- So does the metadata that `merge_metadata` returns.
pub merge_metadata-pins :
    (s : MemoryScope) (m m' : Metadata)
    → merge_metadata s m ≡ ok m'
    → Pinned (to_metadata s) m'
      × ((j : Text) → Dict.get j (to_metadata s) ≡ none → Dict.get j m' ≡ Dict.get j m)
unfolding merge_metadata
merge_metadata-pins s m m' h = (
  merge_fields-Pinned _ (to_metadata s) m m' (to_metadata-Unique s) h,
  λ j. merge_fields-other _ (to_metadata s) m m' j h,
)

-- `merge_where` returns exactly where no non-empty field of the scope stands in the filter with
-- another value, and raises `ValueError` otherwise.
pub merge_where-total :
    (s : MemoryScope) (w : Metadata)
    → ((w' : Metadata) × (merge_where s w ≡ ok w') × Compatible (to_metadata s) w)
      ⊎ ((merge_where s w ≡ err (value_error "where field conflicts with the host MemoryScope"))
          × (¬ Compatible (to_metadata s) w))
unfolding merge_where
merge_where-total s w = merge_fields-total _ (to_metadata s) w (to_metadata-Unique s)

-- So with `merge_metadata` and metadata.
pub merge_metadata-total :
    (s : MemoryScope) (m : Metadata)
    → ((m' : Metadata) × (merge_metadata s m ≡ ok m') × Compatible (to_metadata s) m)
      ⊎ ((merge_metadata s m
            ≡ err (value_error "metadata field conflicts with the host MemoryScope"))
          × (¬ Compatible (to_metadata s) m))
unfolding merge_metadata
merge_metadata-total s m = merge_fields-total _ (to_metadata s) m (to_metadata-Unique s)
