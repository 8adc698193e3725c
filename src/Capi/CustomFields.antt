-- ===== src/Capi/CustomFields.antt =====
-- `evalCustomFields` of internal/capi/clusters.go
use capo_shell_mcp.Prelude.{
  String, ◌⊕◌, join, Option, none, some, List, [], ◌∷◌, map, Map, lookup, insert, keys, sort_names,
  Result, ok, err, message, ◌>>=◌, ◌==◌, if◌then◌else◌,
}
use capo_shell_mcp.Config.Value.{
  Value, object, array, Values, nil, cons, Fields, end, field, as_text, as_object, as_array,
}
use capo_shell_mcp.Capi.Clients.{Item, Jq}

abbrev values_of : List Item → Values
values_of [] = nil
values_of (item ∷ items) = cons (object item.object) (values_of items)

abbrev expression_at : Map String → String → String
expression_at fields k = elim (lookup k fields) [ none ↦ "" | some e ↦ e ]

-- if s, ok := fv.(string); ok && s != ""
abbrev insert_value : String → Option String → Map String → Map String
insert_value k none m = m
insert_value k (some s) m = if s == "" then m else insert k s m

unfoldable pub field_values : Fields → Map String
field_values end = []
field_values (field k v fs) = insert_value k (as_text v) (field_values fs)

abbrev object_values : Option Fields → Map String
object_values none = []
object_values (some fs) = field_values fs

unfoldable pub result_values : Values → List (Map String)
unfolding field_values
result_values nil = []
result_values (cons raw rest) = object_values (as_object raw) ∷ result_values rest

module _ {Query Code : Type 0} (jq : Jq Query Code) where
  abbrev query_part : Map String → String → String
  query_part fields k = jq.quote k ⊕ (": (" ⊕ (expression_at fields k ⊕ ")"))

  unfoldable pub custom_fields_query : Map String → String
  custom_fields_query fields =
      "[.items[] | {" ⊕ (join ", " (map (query_part fields) (sort_names (keys fields))) ⊕ "}]")

  abbrev first_array : Option (Result Value) → Result Values
  first_array none = err (message "jq: produced no output")
  first_array (some (err e)) = err e
  first_array (some (ok v)) = elim (as_array v) [
    | none ↦ err (message "jq: expected an array result")
    | some values ↦ ok values
  ]

  unfoldable pub eval_custom_fields : List Item → Map String → Result (List (Map String))
  unfolding custom_fields_query result_values
  eval_custom_fields items fields = do
    query ← jq.parse (custom_fields_query fields)
    code ← jq.compile query
    raw ← first_array (jq.run code (object (field "items" (array (values_of items)) end)))
    ok (result_values raw)
