-- ===== src/Serialization/Normal.antt =====
-- What comes back of a value that was written and read: the same value, with the entries of each
-- dictionary in the order of their keys.
use seigr_toolset_transmissi.Common.{List, [], ◌∷◌}
use seigr_toolset_transmissi.Serialization.{
  Text, Value, null, bool, int, float, bytes, str, list, dict, Items, nil, cons, Fields, end, field,
  put_field,
}
use seigr_toolset_transmissi.Serialization.Encode.{sort_entries}

-- `result[key] = value` for each entry.
unfoldable pub collect : Fields → List (Text × Value) → Fields
collect result [] = result
collect result ((k, v) ∷ es) = collect (put_field k v result) es

unfoldable mutual
  pub normal : Value → Value
  normal null = null
  normal (bool b) = bool b
  normal (int z) = int z
  normal (float x) = float x
  normal (bytes bs) = bytes bs
  normal (str s) = str s
  normal (list vs) = list (normal_items vs)
  normal (dict fs) = dict (collect end (sort_entries (normal_fields fs)))

  pub normal_items : Items → Items
  normal_items nil = nil
  normal_items (cons v vs) = cons (normal v) (normal_items vs)

  pub normal_fields : Fields → List (Text × Value)
  normal_fields end = []
  normal_fields (field k v fs) = (k, normal v) ∷ normal_fields fs
