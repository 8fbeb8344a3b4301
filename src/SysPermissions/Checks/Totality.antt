-- ===== src/SysPermissions/Checks/Totality.antt =====
-- The whole validation returns its errors and never raises.
use drf_enterprise_informati.Prelude.{
  String, ◌≡◌, refl, List, [], ◌∷◌, arith, inl, inr, is_empty, Bool-cases, cons_ne, append_inv,
  is_empty_inv, ok,
}
use drf_enterprise_informati.SysPermissions.Catalog.{Catalog, generate_default_catalog}
use drf_enterprise_informati.SysPermissions.Registry.{
  CatalogFile, absent, malformed, parsed, AppConfig, is_domain_app, discover_domain_apps,
  effective_catalog, build_each, build_effective_catalogs, joined,
}
use drf_enterprise_informati.SysPermissions.Checks.{
  SchemaCheck, file_errors, files_errors, validate_all, rules_errors, validate_uniqueness,
}

module _ (iter_errors : SchemaCheck) where
  readable :
      (app_label : String) (defaults : Catalog) (file : CatalogFile)
      → file_errors iter_errors app_label file ≡ []
      → (catalog : Catalog) × (effective_catalog defaults file ≡ ok catalog)
  unfolding file_errors
  readable app_label defaults absent h = (defaults, refl)
  readable app_label defaults (malformed message) h = absurd (cons_ne _ [] h)
  readable app_label defaults (parsed explicit) h = (_, refl)

  built :
      (apps : List AppConfig)
      → files_errors iter_errors apps ≡ []
      → (effective : List (String × Catalog)) × (build_each (discover_domain_apps apps)
          ≡ ok effective)
  unfolding files_errors discover_domain_apps build_each
  built [] h = ([], refl)
  built (app ∷ apps) h =
      let (here, rest) =
        append_inv (file_errors iter_errors app.label app.file) (files_errors iter_errors apps) h in
      let (effective, e) = built apps rest in
      let (catalog, c) = readable app.label (generate_default_catalog app.label) app.file here in
      elim (Bool-cases (is_domain_app app)) [
        | inl domain ↦ ((app.label, catalog) ∷ effective, ground (arith, e, c))
        | inr other ↦ (effective, ground (arith, e))
      ]

  -- The validation of all catalogs returns a list of errors whatever the files hold: when it builds
  -- the effective catalogs, every file has been read without a JSON error.
  pub validate_all_returns :
      (apps : List AppConfig) → (errors : List String) × (validate_all iter_errors apps ≡ ok errors)
  unfolding validate_all build_effective_catalogs
  validate_all_returns apps = elim (Bool-cases (is_empty (files_errors iter_errors apps))) [
    | inl e ↦
        let (effective, b) = built apps (is_empty_inv (files_errors iter_errors apps) e) in
        (joined (rules_errors effective) (validate_uniqueness effective), ground (arith, e, b))
    | inr e ↦ (files_errors iter_errors apps, ground (arith, e))
  ]
