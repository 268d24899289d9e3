-- ===== src/Middleware/Routes.antt =====
-- internal/api/middleware.go: requiredPermission. The name of an instance has no say in it.
use hospitus.Shared.{
  ℕ, ◌≡◌, refl, sym, ap, ◌∙◌, Bool, true, false, ◌&&◌, List, [], ◌∷◌, ◌++◌, ◌==◌, if◌then◌else◌,
  Text, codes, has_separator,
}
use mathlib.Core.List.{append-nil}
use hospitus.Middleware.{
  is_empty, split_all, trim_left, trim_right, segments, permission_of, required_permission,
}
use hospitus.Middleware.Splitting.{
  split_all-append, split_all-plain, trim_right-append, trim_right-name,
}

-- What may stand behind a name: nothing, or a slash and more.
abbrev pub IsRest : Text → Type 0
IsRest [] = Unit
IsRest (x ∷ t) = x ≡ 47

trim_right-IsRest : (t : Text) → IsRest t → IsRest (trim_right t)
unfolding trim_right
trim_right-IsRest [] r = tt
trim_right-IsRest (x ∷ t) r = kept (x == 47 && is_empty (trim_right t))
  where
    kept : (b : Bool) → IsRest (if b then [] else x ∷ trim_right t)
    kept true = tt
    kept false = r

abbrev tail_of : Text → List Text
tail_of [] = []
tail_of (x ∷ t) = split_all 47 t

split_all-name :
    (id t : Text) → has_separator 47 id ≡ false → IsRest t → split_all 47 (id ++ t) ≡ id ∷ tail_of t
split_all-name id [] e r = ap (split_all 47) (append-nil id) ∙ split_all-plain 47 id e
split_all-name id (x ∷ t) e r =
    ap (λ y. split_all 47 (id ++ y ∷ t)) r
    ∙ split_all-append 47 id t
    ∙ ap (λ parts. parts ++ split_all 47 t) (split_all-plain 47 id e)

prefix-parts :
    split_all 47 (codes "api/v1/instances") ≡ codes "api" ∷ codes "v1" ∷ codes "instances" ∷ []
unfolding split_all
prefix-parts = refl

segments-instance :
    (x : ℕ) (id rest : Text)
    → has_separator 47 (x ∷ id) ≡ false
    → IsRest rest
    → segments (codes "/api/v1/instances/" ++ x ∷ id ++ rest)
      ≡ codes "api" ∷ codes "v1" ∷ codes "instances" ∷ (x ∷ id) ∷ tail_of (trim_right rest)
unfolding segments trim_left
segments-instance x id rest e r =
    let t : Text = trim_right rest in
    let trimmed : trim_right (x ∷ id ++ rest) ≡ x ∷ id ++ t = trim_right-name (x ∷ id) rest e in
    ap (split_all 47) (
      trim_right-append (codes "api/v1/instances/") (x ∷ id ++ rest) (ap is_empty trimmed)
      ∙ ap (λ u. codes "api/v1/instances/" ++ u) trimmed)
    ∙ split_all-append 47 (codes "api/v1/instances") (x ∷ id ++ t)
    ∙ ap (λ parts. split_all 47 (codes "api/v1/instances") ++ parts)
        (split_all-name (x ∷ id) t e (trim_right-IsRest rest r))
    ∙ ap (λ parts. parts ++ (x ∷ id) ∷ tail_of t) prefix-parts

permission_of-name :
    (method id other : Text) (more : List Text)
    → permission_of method (codes "api" ∷ codes "v1" ∷ codes "instances" ∷ id ∷ more)
      ≡ permission_of method (codes "api" ∷ codes "v1" ∷ codes "instances" ∷ other ∷ more)
unfolding permission_of
permission_of-name method id other [] = refl
permission_of-name method id other (op ∷ more) = refl

-- Two requests with one method that differ only in the name of the instance, which is not empty and
-- has no slash, need the same permission, whatever the names and the rest of the paths.
pub required_permission-any_name :
    (method id other rest : Text) (x y : ℕ)
    → has_separator 47 (x ∷ id) ≡ false
    → has_separator 47 (y ∷ other) ≡ false
    → IsRest rest
    → required_permission method (codes "/api/v1/instances/" ++ x ∷ id ++ rest)
      ≡ required_permission method (codes "/api/v1/instances/" ++ y ∷ other ++ rest)
unfolding required_permission
required_permission-any_name method id other rest x y e e' r =
    ap (permission_of method) (segments-instance x id rest e r)
    ∙ permission_of-name method (x ∷ id) (y ∷ other) (tail_of (trim_right rest))
    ∙ sym (ap (permission_of method) (segments-instance y other rest e' r))
