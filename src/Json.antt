-- ===== src/Json.antt =====
-- JSON values, as pydantic's `model_dump(mode="json")` and the payload dictionaries build them.
use illusiontion.Prelude.{ℕ, String, Bool, List, [], ◌∷◌, if◌then◌else◌, same}

mutual
  pub data Json : Type 0 where
    null : Json
    bool : Bool → Json
    num : ℕ → Json
    str : String → Json
    arr : Items → Json
    obj : Fields → Json

  pub data Items : Type 0 where
    nil : Items
    item : Json → Items → Items

  pub data Fields : Type 0 where
    end : Fields
    field : String → Json → Fields → Fields

abbrev pub dict_fields : List (String × Json) → Fields
dict_fields [] = end
dict_fields ((k, v) ∷ kvs) = field k v (dict_fields kvs)

-- A dictionary literal.
abbrev pub dict : List (String × Json) → Json
dict kvs = obj (dict_fields kvs)

abbrev pub list_items : List Json → Items
list_items [] = nil
list_items (j ∷ js) = item j (list_items js)

abbrev pub list : List Json → Json
list js = arr (list_items js)

-- A key that is left out where its text is empty: `if not row.get(key): row.pop(key)`.
abbrev pub unless_empty : String → String → List (String × Json)
unless_empty key value = if same value "" then [] else (key, str value) ∷ []
