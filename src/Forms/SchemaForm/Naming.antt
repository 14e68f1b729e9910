-- ===== src/Forms/SchemaForm/Naming.antt =====
-- Which field the server means by a key: `serverErrorIndex` against the names of the fields.
use enterprise_platform.Common.{
  String, Bool, true, some, List, [], ◌∷◌, map, ◌≡◌, ◌⊎◌, refl, arith, if◌then◌else◌, Bool-cases,
  inl, inr, includes, Dict, lookup, insert, lookup-insert, lower, ap, ◌∙◌,
}
use enterprise_platform.Forms.Schema.{SchemaField, index_aliases, server_error_index}

-- A key means a field when it is the field's key or one of its aliases, but for the case.
abbrev pub means : String → SchemaField → Bool
means api_key f = includes (lower api_key) (map lower (f.key ∷ f.server_error_keys))

abbrev pub HasField : SchemaField → List SchemaField → Type 0
HasField f [] = ⊥
HasField f (g ∷ gs) = (g ≡ f) ⊎ HasField f gs

-- No field with another key is meant.
abbrev pub MeansOnly : String → String → List SchemaField → Type 0
MeansOnly api_key key [] = Unit
MeansOnly api_key key (g ∷ gs) = (means api_key g ≡ true → g.key ≡ key) × MeansOnly api_key key gs

lookup-index_aliases :
    (k key : String) (alts : List String) (out : Dict String)
    → lookup k (index_aliases key alts out)
      ≡ (if includes k (map lower alts) then some key else lookup k out)
unfolding index_aliases
lookup-index_aliases k key [] out = refl
lookup-index_aliases k key (alt ∷ alts) out = ground (
  arith,
  lookup-index_aliases k key alts (insert (lower alt) key out),
  lookup-insert (lower alt) k key out,
)

-- The part of the index that one field writes.
lookup-field_index :
    (api_key : String) (g : SchemaField) (out : Dict String)
    → lookup
        (lower api_key)
        (index_aliases g.key g.server_error_keys (insert (lower g.key) g.key out))
      ≡ (if means api_key g then some g.key else lookup (lower api_key) out)
lookup-field_index api_key g out = ground (
  arith,
  lookup-index_aliases (lower api_key) g.key g.server_error_keys (insert (lower g.key) g.key out),
  lookup-insert (lower g.key) (lower api_key) g.key out,
)

-- A field that is meant, among fields of which no other is, is the one in the index, and so is one
-- that is there before them.
index_keeps :
    (api_key key : String) (fs : List SchemaField) (out : Dict String)
    → MeansOnly api_key key fs
    → lookup (lower api_key) out ≡ some key
    → lookup (lower api_key) (server_error_index fs out) ≡ some key
unfolding server_error_index
index_keeps api_key key [] out only h = h
index_keeps api_key key (g ∷ gs) out (same, only) h =
    index_keeps api_key key gs
      (index_aliases g.key g.server_error_keys (insert (lower g.key) g.key out)) only
      (elim (Bool-cases (means api_key g)) [
        | inl e ↦ lookup-field_index api_key g out ∙ rw e (ap some (same e))
        | inr e ↦ lookup-field_index api_key g out ∙ rw e h
      ])

pub index_finds :
    (api_key : String) (f : SchemaField) (fs : List SchemaField) (out : Dict String)
    → HasField f fs
    → means api_key f ≡ true
    → MeansOnly api_key f.key fs
    → lookup (lower api_key) (server_error_index fs out) ≡ some f.key
unfolding server_error_index
index_finds api_key f [] out has meant only = absurd has
index_finds api_key f (g ∷ gs) out (inl e) meant (same, only) =
    let here : means api_key g ≡ true = ap (means api_key) e ∙ meant in
    index_keeps api_key f.key gs
      (index_aliases g.key g.server_error_keys (insert (lower g.key) g.key out)) only
      (lookup-field_index api_key g out ∙ rw here (ap some (same here)))
index_finds api_key f (g ∷ gs) out (inr has) meant (same, only) =
    index_finds api_key f gs
      (index_aliases g.key g.server_error_keys (insert (lower g.key) g.key out)) has meant only
