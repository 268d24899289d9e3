-- ===== src/Validation/Config.antt =====
-- pkg/validation/validation.go: the checks on the configuration that a provider is given, a tree of
-- values. A typed slice, array, map or pointer is walked like the untyped one.
use hospitus.Shared.{not, List, [], ◌∷◌, ◌++◌, Option, none, some, ltb, length, Text, codes}
use hospitus.Validation.{
  ◌<|>◌, refuse, contains_any, has_byte, command_injection_chars, is_empty, valid_utf8,
}
use hospitus.Validation.Names.{validate_jail_parameter_value}

-- A key that is no string is `none`; `scalar` is a value with nothing to check.
mutual
  pub data ConfigValue : Type 0 where
    text : Text → ConfigValue
    items : ConfigValues → ConfigValue
    entries : ConfigEntries → ConfigValue
    pointer : ConfigValue → ConfigValue
    scalar : ConfigValue

  pub data ConfigValues : Type 0 where
    empty : ConfigValues
    item : ConfigValue → ConfigValues → ConfigValues

  pub data ConfigEntries : Type 0 where
    end : ConfigEntries
    entry : Option Text → ConfigValue → ConfigEntries → ConfigEntries

unfoldable pub validate_config_key : Text → Option Text
validate_config_key k =
    refuse (has_byte 0 k) (codes "provider config holds a key containing a null byte")
    <|> refuse (not (valid_utf8 k)) (codes "provider config holds a key that is not valid UTF-8")

abbrev pub validate_any_key : Option Text → Option Text
validate_any_key none = none
validate_any_key (some k) = validate_config_key k

abbrev pub validate_nested_text : Text → Option Text
validate_nested_text v =
    refuse (has_byte 0 v) (codes "provider config value contains a null byte")
    <|> refuse (not (valid_utf8 v)) (codes "provider config value is not valid UTF-8")

abbrev mutual
  pub validate_nested : ConfigValue → Option Text
  validate_nested (text v) = validate_nested_text v
  validate_nested (items vs) = validate_items vs
  validate_nested (entries es) = validate_entries es
  validate_nested (pointer v) = validate_nested v
  validate_nested scalar = none

  pub validate_items : ConfigValues → Option Text
  validate_items empty = none
  validate_items (item v vs) = validate_nested v <|> validate_items vs

  pub validate_entries : ConfigEntries → Option Text
  validate_entries end = none
  validate_entries (entry k v es) = validate_any_key k <|> validate_nested v <|> validate_entries es

unfoldable pub validate_config_value : ConfigValue → Option Text
validate_config_value (text v) = validate_jail_parameter_value v
validate_config_value (items vs) = validate_items vs
validate_config_value (entries es) = validate_entries es
validate_config_value (pointer v) = validate_nested v
validate_config_value scalar = none

unfoldable pub validate_provider_config_entry : Text → ConfigValue → Option Text
validate_provider_config_entry key value =
    refuse (is_empty key) (codes "provider config key cannot be empty")
    <|> refuse (not (valid_utf8 key)) (codes "provider config key must be valid UTF-8")
    <|> refuse (contains_any key (command_injection_chars ++ codes "/"))
        (codes "provider config key contains invalid characters")
    <|> refuse (ltb 128 (length key)) (codes "provider config key too long (max 128 characters)")
    <|> validate_config_value value

-- The texts of a tree, keys and values, from the outside in.
abbrev mutual
  pub texts_of : ConfigValue → List Text
  texts_of (text v) = v ∷ []
  texts_of (items vs) = item_texts vs
  texts_of (entries es) = entry_texts es
  texts_of (pointer v) = texts_of v
  texts_of scalar = []

  pub item_texts : ConfigValues → List Text
  item_texts empty = []
  item_texts (item v vs) = texts_of v ++ item_texts vs

  pub entry_texts : ConfigEntries → List Text
  entry_texts end = []
  entry_texts (entry none v es) = texts_of v ++ entry_texts es
  entry_texts (entry (some k) v es) = k ∷ texts_of v ++ entry_texts es
