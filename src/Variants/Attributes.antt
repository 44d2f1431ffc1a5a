-- ===== src/Variants/Attributes.antt =====
-- src/modules/attributes/attributes.service.js: create, update and delete of definitions.
use backend_pluseops.Base.{
  ℕ, Bool, true, false, not, ◌&&◌, ◌+◌, Option, none, some, Result, ok, nat_eq, ◌==◌, get_or,
  attribute_not_found, attribute_code_exists, attribute_in_use,
}
use backend_pluseops.Base.Checks.{◌>>=◌, ◌>>◌, require, fail_if}
use backend_pluseops.Base.Lists.{any, filter}
use backend_pluseops.Base.Tables.{upsert}
use backend_pluseops.Variants.{
  DataType, text, number, boolean, option, AttributeDefinition, VariantAttribute, Range,
  find_definition,
}

abbrev pub same_type : DataType → DataType → Bool
same_type text text = true
same_type number number = true
same_type boolean boolean = true
same_type option option = true
same_type _ _ = false

abbrev pub has_code : ℕ → ℕ → ℕ × AttributeDefinition → Bool
has_code code tenant row = row.1.code == code && row.1.tenant_id == tenant

abbrev pub has_code_else : ℕ → ℕ → ℕ → ℕ × AttributeDefinition → Bool
has_code_else code tenant excluded row = has_code code tenant row && not (row.0 == excluded)

-- `_count.variantAttributes > 0`
unfoldable pub is_used : ℕ → Range → Bool
is_used id s = any (λ (a : VariantAttribute). a.definition_id == id) s.attributes

abbrev pub with_definition : ℕ → AttributeDefinition → Range → Range
with_definition id d s = record s { definitions = upsert id d s.definitions }

-- `create`
unfoldable pub create_definition : ℕ → ℕ → DataType → Range → Result Range
create_definition tenant code kind s = do
  fail_if (any (has_code code tenant) s.definitions) attribute_code_exists
  let d : AttributeDefinition = record { tenant_id = tenant; code = code; data_type = kind }
  ok (with_definition s.next_id d (record s { next_id = s.next_id + 1 }))

-- `data.code`, with another definition that has it
unfoldable pub is_code_taken : Option ℕ → ℕ → ℕ → Range → Bool
is_code_taken none id tenant s = false
is_code_taken (some code) id tenant s = any (has_code_else code tenant id) s.definitions

-- `data.dataType`, where it changes the type of a definition in use
unfoldable pub is_locked : Option DataType → AttributeDefinition → ℕ → Range → Bool
is_locked none d id s = false
is_locked (some kind) d id s = not (same_type d.data_type kind) && is_used id s

-- `update`
unfoldable pub update_definition : ℕ → ℕ → Option ℕ → Option DataType → Range → Result Range
update_definition id tenant code kind s = do
  d ← require (find_definition id tenant s) attribute_not_found
  fail_if (is_code_taken code id tenant s) attribute_code_exists
  fail_if (is_locked kind d id s) attribute_in_use
  ok (
      with_definition id
        (record d { code = get_or code d.code; data_type = get_or kind d.data_type }) s)

-- `delete`
unfoldable pub delete_definition : ℕ → ℕ → Range → Result Range
delete_definition id tenant s = do
  d ← require (find_definition id tenant s) attribute_not_found
  fail_if (is_used id s) attribute_in_use
  ok (record s { definitions = filter (λ r. not (r.0 == id)) s.definitions })
