-- ===== src/Validation/Nested.antt =====
-- pkg/validation/validation.go: how deep the checks on a provider's configuration reach.
use hospitus.Shared.{
  ◌≡◌, ◌↔◌, refl, Bool, true, not, ◌&&◌, List, [], ◌∷◌, ◌++◌, none, some, arith, every, Text,
}
use hospitus.Validation.{contains_any, has_byte, command_injection_chars, valid_utf8}
use hospitus.Validation.Names.{validate_jail_parameter_value}
use hospitus.Validation.Config.{
  ConfigValue, ConfigValues, ConfigEntries, text, items, entries, pointer, scalar, empty, item, end,
  entry, validate_config_key, validate_nested, validate_items, validate_entries,
  validate_config_value, texts_of, item_texts, entry_texts,
}

-- No null byte, and UTF-8.
abbrev pub is_whole : Text → Bool
is_whole t = not (has_byte 0 t) && valid_utf8 t

every-append :
    (p : Text → Bool) (xs ys : List Text) → every p (xs ++ ys) ≡ (every p xs && every p ys)
every-append p [] ys = refl
every-append p (x ∷ xs) ys = ground (arith, every-append p xs ys)

validate_any_key-whole : (k : Text) → (validate_config_key k ≡ none) ↔ (is_whole k ≡ true)
unfolding validate_config_key
validate_any_key-whole k = ground arith

mutual
  validate_nested-whole :
      (v : ConfigValue) → (validate_nested v ≡ none) ↔ (every is_whole (texts_of v) ≡ true)
  validate_nested-whole (text v) = ground arith
  validate_nested-whole (items vs) = validate_items-whole vs
  validate_nested-whole (entries es) = validate_entries-whole es
  validate_nested-whole (pointer v) = validate_nested-whole v
  validate_nested-whole scalar = ground arith

  validate_items-whole :
      (vs : ConfigValues) → (validate_items vs ≡ none) ↔ (every is_whole (item_texts vs) ≡ true)
  validate_items-whole empty = ground arith
  validate_items-whole (item v vs) = ground (
    arith,
    every-append is_whole (texts_of v) (item_texts vs),
    validate_nested-whole v,
    validate_items-whole vs,
  )

  validate_entries-whole :
      (es : ConfigEntries) → (validate_entries es ≡ none) ↔ (every is_whole (entry_texts es) ≡ true)
  validate_entries-whole end = ground arith
  validate_entries-whole (entry none v es) = ground (
    arith,
    every-append is_whole (texts_of v) (entry_texts es),
    validate_nested-whole v,
    validate_entries-whole es,
  )
  validate_entries-whole (entry (some k) v es) = ground (
    arith,
    every-append is_whole (texts_of v) (entry_texts es),
    validate_nested-whole v,
    validate_entries-whole es,
    validate_any_key-whole k,
  )

-- What a whole value may be: a text that is held to the character set of jail parameters, or a
-- tree of whole texts.
abbrev pub is_acceptable : ConfigValue → Bool
is_acceptable (text v) = not (contains_any v command_injection_chars)
is_acceptable (items vs) = every is_whole (item_texts vs)
is_acceptable (entries es) = every is_whole (entry_texts es)
is_acceptable (pointer v) = every is_whole (texts_of v)
is_acceptable scalar = true

-- A configuration value is accepted exactly if it is a text without characters of the
-- command-injection set, or holds, at whatever depth and in keys and values, no text that has a null
-- byte or is not UTF-8.
pub validate_config_value_lem :
    (v : ConfigValue) → (validate_config_value v ≡ none) ↔ (is_acceptable v ≡ true)
unfolding validate_config_value validate_jail_parameter_value
validate_config_value_lem (text v) = ground arith
validate_config_value_lem (items vs) = validate_items-whole vs
validate_config_value_lem (entries es) = validate_entries-whole es
validate_config_value_lem (pointer v) = validate_nested-whole v
validate_config_value_lem scalar = ground arith
