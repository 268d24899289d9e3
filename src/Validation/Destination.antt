-- ===== src/Validation/Destination.antt =====
-- pkg/validation/validation.go: what an accepted SSH destination can be.
use hospitus.Shared.{
  ℕ, ◌≡◌, ap, ◌∙◌, inl, inr, Bool, true, false, [], ◌∷◌, ◌++◌, some, arith, Text, Option-cases,
  Bool-cases,
}
use hospitus.Validation.{contains_any, command_injection_chars, is_empty}
use hospitus.Validation.Regex.{
  IsWithin, IsDead, matches-IsDead, after, matches-All, matches, in_class,
}
use hospitus.Validation.Names.{alphanumeric, name_class}
use hospitus.Validation.Safety.{All-avoids, avoids}
use hospitus.Validation.Remote.{
  host_part, ssh_host, zfs_dataset, split_colon, validate_ssh_destination,
}

split_colon-join :
    (dest : Text) (parts : Text × Text)
    → split_colon dest ≡ some parts
    → dest ≡ parts.0 ++ 58 ∷ parts.1
split_colon-join [] parts h = cc
split_colon-join (x ∷ xs) parts h = elim (Option-cases (split_colon xs)) [
  | inl e ↦ ground (arith, e)
  | inr (rest, e) ↦ ground (arith, e, split_colon-join xs rest e)
]

-- What a shell reads, a colon and a slash.
abbrev pub host_chars : Text
host_chars = 58 ∷ 47 ∷ command_injection_chars

unfoldable pub starts_plain : Text → Bool
starts_plain [] = false
starts_plain (x ∷ xs) = in_class alphanumeric x

pub record IsDestination (dest : Text) (parts : Text × Text) : Type 0 where
  pub joined : dest ≡ parts.0 ++ 58 ∷ parts.1
  pub host_start : starts_plain parts.0 ≡ true
  pub path_start : starts_plain parts.1 ≡ true
  pub host_clean : contains_any parts.0 host_chars ≡ false
  pub path_clean : contains_any parts.1 command_injection_chars ≡ false

host_class-avoids : (x : ℕ) → in_class ((46, 46) ∷ name_class) x ≡ true → avoids host_chars x ≡ true
host_class-avoids x h = ground arith

alphanumeric-avoids_host : (x : ℕ) → in_class alphanumeric x ≡ true → avoids host_chars x ≡ true
alphanumeric-avoids_host x h = ground arith

path_class-avoids :
    (x : ℕ)
    → in_class ((46, 46) ∷ (47, 47) ∷ name_class) x ≡ true
    → avoids command_injection_chars x ≡ true
path_class-avoids x h = ground arith

alphanumeric-avoids_path :
    (x : ℕ) → in_class alphanumeric x ≡ true → avoids command_injection_chars x ≡ true
alphanumeric-avoids_path x h = ground arith

at-avoids : (x : ℕ) → in_class ((64, 64) ∷ []) x ≡ true → avoids host_chars x ≡ true
at-avoids x h = ground arith

host-IsDead : (x : ℕ) → in_class alphanumeric x ≡ false → IsDead (after x ssh_host)
host-IsDead x e = rw e ((tt, tt), tt)

path-IsDead : (x : ℕ) → in_class alphanumeric x ≡ false → IsDead (after x zfs_dataset)
path-IsDead x e = rw e tt

host-starts : (s : Text) → is_empty s ≡ false → matches ssh_host s ≡ true → starts_plain s ≡ true
unfolding matches starts_plain
host-starts [] n m = cc
host-starts (x ∷ xs) n m = elim (Bool-cases (in_class alphanumeric x)) [
  | inl e ↦ e
  | inr e ↦ absurd (ground (arith, m, matches-IsDead xs (after x ssh_host) (host-IsDead x e)))
]

path-starts : (s : Text) → is_empty s ≡ false → matches zfs_dataset s ≡ true → starts_plain s ≡ true
unfolding matches starts_plain
path-starts [] n m = cc
path-starts (x ∷ xs) n m = elim (Bool-cases (in_class alphanumeric x)) [
  | inl e ↦ e
  | inr e ↦ absurd (ground (arith, m, matches-IsDead xs (after x zfs_dataset) (path-IsDead x e)))
]

host_part-IsWithin : IsWithin (avoids host_chars) host_part
host_part-IsWithin = (alphanumeric-avoids_host, host_class-avoids)

ssh_host-IsWithin : IsWithin (avoids host_chars) ssh_host
ssh_host-IsWithin = ((tt, (host_part-IsWithin, at-avoids)), host_part-IsWithin)

zfs_dataset-IsWithin : IsWithin (avoids command_injection_chars) zfs_dataset
zfs_dataset-IsWithin = (alphanumeric-avoids_path, path_class-avoids)

checked-IsDestination :
    (dest : Text) (parts : Text × Text)
    → split_colon dest ≡ some parts
    → is_empty parts.0 ≡ false
    → is_empty parts.1 ≡ false
    → matches ssh_host parts.0 ≡ true
    → matches zfs_dataset parts.1 ≡ true
    → IsDestination dest parts
checked-IsDestination dest parts e host path m p = record {
  joined = split_colon-join dest parts e;
  host_start = host-starts parts.0 host m;
  path_start = path-starts parts.1 path p;
  host_clean =
      All-avoids host_chars parts.0
        (matches-All (avoids host_chars) parts.0 ssh_host ssh_host-IsWithin m);
  path_clean =
      All-avoids command_injection_chars parts.1
        (matches-All (avoids command_injection_chars) parts.1 zfs_dataset zfs_dataset-IsWithin p);
}

-- An accepted destination is its host, a colon and its dataset. Both begin with a letter or a digit,
-- so that neither can be read as an option; neither has a character of the command-injection set,
-- and the host no colon or slash.
pub validate_ssh_destination-IsDestination :
    (dest : Text) (parts : Text × Text)
    → validate_ssh_destination dest ≡ some parts
    → IsDestination dest parts
unfolding validate_ssh_destination
validate_ssh_destination-IsDestination dest parts h = elim (Option-cases (split_colon dest)) [
  | inl e ↦ absurd (ground (arith, e))
  | inr (found, e) ↦
      let same_parts : found ≡ parts = ground (arith, e) in
      checked-IsDestination dest parts (e ∙ ap some same_parts) (ground (arith, e))
        (ground (arith, e)) (ground (arith, e)) (ground (arith, e))
]
