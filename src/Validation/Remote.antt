-- ===== src/Validation/Remote.antt =====
-- pkg/validation/validation.go: the destination of a transfer over SSH, `[user@]host:pool/dataset`.
use hospitus.Shared.{not, ◌||◌, [], ◌∷◌, Option, none, some, ◌==◌, if◌then◌else◌, Text}
use hospitus.Validation.{is_empty}
use hospitus.Validation.Regex.{Regex, one, seq, star, optional, matches}
use hospitus.Validation.Names.{alphanumeric, name_class}

abbrev pub host_part : Regex
host_part = seq (one alphanumeric) (star (one ((46, 46) ∷ name_class)))

abbrev pub ssh_host : Regex
ssh_host = seq (optional (seq host_part (one ((64, 64) ∷ [])))) host_part

abbrev pub zfs_dataset : Regex
zfs_dataset = seq (one alphanumeric) (star (one ((46, 46) ∷ (47, 47) ∷ name_class)))

-- `strings.SplitN(dest, ":", 2)`: none where there is no colon.
abbrev pub split_colon : Text → Option (Text × Text)
split_colon [] = none
split_colon (x ∷ xs) =
    let rest = split_colon xs in
    if x == 58
    then some ([], xs)
    else elim rest [ none ↦ none | some parts ↦ some (x ∷ parts.0, parts.1) ]

-- The host and the dataset, or none where the code returns an error.
unfoldable pub validate_ssh_destination : Text → Option (Text × Text)
validate_ssh_destination dest = elim (split_colon dest) [
  | none ↦ none
  | some parts ↦
      if is_empty parts.0 || is_empty parts.1
      then none
      else if not (matches ssh_host parts.0)
      then none
      else if not (matches zfs_dataset parts.1)
      then none
      else some parts
]
