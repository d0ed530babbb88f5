-- ===== src/Config/Policy.antt =====
-- config/config.go: the surfaces that are locked, and the checks of FromEnv.
use xensus.Base.{
  Bool, true, false, not, ◌&&◌, ◌||◌, inl, inr, ◌≡◌, List, [], ◌∷◌, Text, codes, text_eq,
  text_eq_sound, subst, is_empty, arith, Bool-cases,
}
use xensus.Config.{
  Access, Config, has_colon, access_surfaces, contains, parse_fields, parse_access, from_env,
  surface_name, set_true, split_commas,
}

-- One of the fields names the surface `s`.
unfoldable pub names : (Text → Text) → List Text → Text → Bool
names to_lower [] s = false
names to_lower (field ∷ fields) s =
    (not (is_empty (surface_name to_lower field)) && text_eq (surface_name to_lower field) s)
    || names to_lower fields s

module _ (to_lower : Text → Text) where
  -- The loop adds the surfaces named, all of which are known.
  parse_fields-names :
      (fields : List Text) (a a' : Access)
      → parse_fields to_lower fields a ≡ inr a'
      → (s : Text)
      → (a'.steward_only s ≡ (a.steward_only s || names to_lower fields s))
        × (names to_lower fields s ≡ true → contains access_surfaces s ≡ true)
  unfolding parse_fields names
  parse_fields-names [] a a' e s =
      let same : a ≡ a' = cc in (rw (← same) (ground arith), λ h. absurd (cc))
  parse_fields-names (field ∷ fields) a a' e s =
      let name = surface_name to_lower field in
      elim (Bool-cases (is_empty name)) [
        | inl blank ↦
            let h = parse_fields-names fields a a' (rw blank at e) s in
            (rw blank (h.0), rw blank (h.1))
        | inr named ↦ elim (Bool-cases (contains access_surfaces name)) [
          | inl known ↦
              let h = parse_fields-names fields (set_true name a) a' (rw (named, known) at e) s in
              (
                rw (named, h.0) (ground arith),
                λ hyp. elim (Bool-cases (text_eq name s)) [
                  | inl same ↦
                      subst (λ t. contains access_surfaces t ≡ true) (text_eq_sound name s same)
                        known
                  | inr other ↦ h.1 (rw (named, other) at hyp)
                ],
              )
          | inr unknown ↦ absurd (let e' = (rw (named, unknown) at e) in cc)
        ]
      ]

  -- When the list of surfaces is read without an error, reads of a surface require a steward exactly
  -- if a field of the list, trimmed and in lower case, names it, and every surface named is known.
  pub parse_access-Locks :
      (raw : Text) (a : Access)
      → parse_access to_lower raw ≡ inr a
      → (s : Text)
      → (a.steward_only s ≡ names to_lower (split_commas raw) s)
        × (names to_lower (split_commas raw) s ≡ true → contains access_surfaces s ≡ true)
  parse_access-Locks raw a e s = parse_fields-names (split_commas raw) _ a e s

-- A configuration read without an error has a data directory, a listen address with a colon, and the
-- access policy that XENSUS_STEWARD_ONLY lists.
pub from_env-IsChecked :
    (to_lower getenv : Text → Text) (c : Config)
    → from_env to_lower getenv ≡ inr c
    → (is_empty c.data_dir ≡ false)
      × (has_colon c.listen ≡ true)
      × (parse_access to_lower (getenv (codes "XENSUS_STEWARD_ONLY")) ≡ inr c.access)
unfolding from_env
from_env-IsChecked to_lower getenv c e = ground (arith, e)
