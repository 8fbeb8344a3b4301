-- ===== src/SysPermissions/Checks/Uniqueness.antt =====
-- The check of uniqueness reports nothing exactly if no codename is defined twice.
use drf_enterprise_informati.Prelude.{
  String, ◌≡◌, ◌≢◌, ◌↔◌, refl, ◌||◌, none, [], ◌∷◌, List, ◌++◌, arith, ◌==◌, eq_iff, eq_refl, inl,
  inr, Option-cases, Dict, get, has_key, IsDict, get-put, Apart, Apart-head, Apart-sym, get-append,
  IsDict-append, append-IsDict,
}
use drf_enterprise_informati.SysPermissions.Catalog.{Action, Catalog}
use drf_enterprise_informati.SysPermissions.Registry.{permissions_of, all_permissions}
use drf_enterprise_informati.SysPermissions.Checks.{
  Seen, duplicate_message, note_one, note_all, note_catalogs, validate_uniqueness,
}

append_one_ne : (l : List String) (x : String) → l ++ (x ∷ []) ≢ []
append_one_ne [] x h = cc
append_one_ne (y ∷ l) x h = cc

module _ (app_label c : String) (s : Seen) where
  has_key-note_one :
      (k : String) → has_key k (note_one app_label c s).seen ≡ (c == k || has_key k s.seen)
  unfolding note_one
  has_key-note_one k = elim (Option-cases (get c s.seen)) [
    | inl e ↦ ground (arith, get-put k c app_label s.seen)
    | inr (first, e) ↦ ground (arith, eq_iff c k)
  ]

  note_one-clean : s.errors ≡ [] → get c s.seen ≡ none → (note_one app_label c s).errors ≡ []
  unfolding note_one
  note_one-clean h e = ground arith

  note_one_inv : (note_one app_label c s).errors ≡ [] → (s.errors ≡ []) × (get c s.seen ≡ none)
  unfolding note_one
  note_one_inv h = elim (Option-cases (get c s.seen)) [
    | inl e ↦ (ground arith, e)
    | inr (first, e) ↦
        absurd (append_one_ne s.errors (duplicate_message app_label c first) (ground arith))
  ]

-- Keys that are new to a dict stay so when another key is added.
still_fresh :
    (app_label c : String) (ps : Dict Action) (s : Seen)
    → Apart ps (note_one app_label c s).seen
    → get c ps ≡ none
still_fresh app_label c ps s apart =
    Apart-sym ps (note_one app_label c s).seen apart c
      (ground (arith, has_key-note_one app_label c s c, eq_refl c))

still-Apart :
    (app_label c : String) (action : Action) (ps : Dict Action) (s : Seen)
    → get c ps ≡ none
    → Apart {W = String} ((c, action) ∷ ps) s.seen
    → Apart ps (note_one app_label c s).seen
still-Apart app_label c action ps s fresh apart k m =
    ground (arith, apart k, has_key-note_one app_label c s k, eq_iff c k)

has_key-note_all :
    (k app_label : String) (ps : Dict Action) (s : Seen)
    → has_key k (note_all app_label ps s).seen ≡ (has_key k ps || has_key k s.seen)
unfolding note_all
has_key-note_all k app_label [] s = refl
has_key-note_all k app_label ((c, action) ∷ ps) s = ground (
  arith,
  has_key-note_all k app_label ps (note_one app_label c s),
  has_key-note_one app_label c s k,
)

clean_note_all :
    (app_label : String) (ps : Dict Action) (s : Seen)
    → s.errors ≡ []
    → IsDict ps
    → Apart ps s.seen
    → (note_all app_label ps s).errors ≡ []
unfolding note_all
clean_note_all app_label [] s h d apart = h
clean_note_all app_label ((c, action) ∷ ps) s h (fresh, d) apart =
    clean_note_all app_label ps (note_one app_label c s)
      (note_one-clean app_label c s h (Apart-head c action ps s.seen apart)) d
      (still-Apart app_label c action ps s fresh apart)

note_all_inv :
    (app_label : String) (ps : Dict Action) (s : Seen)
    → (note_all app_label ps s).errors ≡ []
    → (s.errors ≡ []) × (IsDict ps × Apart ps s.seen)
unfolding note_all
note_all_inv app_label [] s h = (h, (tt, λ k m. cc))
note_all_inv app_label ((c, action) ∷ ps) s h =
    let (clean, (d, apart)) = note_all_inv app_label ps (note_one app_label c s) h in
    let (before, fresh) = note_one_inv app_label c s clean in
    (
      before,
      (
        (still_fresh app_label c ps s apart, d),
        λ k m. ground (arith, apart k, has_key-note_one app_label c s k, eq_iff c k),
      ),
    )

-- The catalogs, one after the other.
has_key-all_permissions :
    (k : String) (catalogs : List (String × Catalog)) (s : Seen)
    → has_key k (note_catalogs catalogs s).seen
      ≡ (has_key k (all_permissions catalogs) || has_key k s.seen)
unfolding note_catalogs all_permissions
has_key-all_permissions k [] s = refl
has_key-all_permissions k ((app_label, catalog) ∷ rest) s =
    let ps = permissions_of app_label catalog in
    ground (
      arith,
      has_key-all_permissions k rest (note_all app_label ps s),
      has_key-note_all k app_label ps s,
      get-append k ps (all_permissions rest),
    )

clean_catalogs :
    (catalogs : List (String × Catalog)) (s : Seen)
    → s.errors ≡ []
    → IsDict (all_permissions catalogs)
    → Apart (all_permissions catalogs) s.seen
    → (note_catalogs catalogs s).errors ≡ []
unfolding note_catalogs all_permissions
clean_catalogs [] s h d apart = h
clean_catalogs ((app_label, catalog) ∷ rest) s h d apart =
    let ps = permissions_of app_label catalog in
    let (here, (later, between)) = append-IsDict ps (all_permissions rest) d in
    let clean =
      clean_note_all app_label ps s h here
        (λ k m. apart k (ground (arith, get-append k ps (all_permissions rest)))) in
    clean_catalogs rest (note_all app_label ps s) clean later (λ k m. ground (
      arith,
      has_key-note_all k app_label ps s,
      get-append k ps (all_permissions rest),
      apart k,
      between k,
    ))

note_catalogs_inv :
    (catalogs : List (String × Catalog)) (s : Seen)
    → (note_catalogs catalogs s).errors ≡ []
    → (s.errors ≡ [])
      × (IsDict (all_permissions catalogs) × Apart (all_permissions catalogs) s.seen)
unfolding note_catalogs all_permissions
note_catalogs_inv [] s h = (h, (tt, λ k m. cc))
note_catalogs_inv ((app_label, catalog) ∷ rest) s h =
    let ps = permissions_of app_label catalog in
    let (clean, (later, apart)) = note_catalogs_inv rest (note_all app_label ps s) h in
    let (before, (here, fresh)) = note_all_inv app_label ps s clean in
    let between : Apart ps (all_permissions rest) = λ k m.
      Apart-sym (all_permissions rest) (note_all app_label ps s).seen apart k
        (ground (arith, has_key-note_all k app_label ps s)) in
    (
      before,
      (
        IsDict-append ps (all_permissions rest) here later between,
        λ k m. ground (
          arith,
          has_key-note_all k app_label ps s,
          get-append k ps (all_permissions rest),
          apart k,
          fresh k,
        ),
      ),
    )

-- The check of uniqueness reports no error exactly if no two permissions of the effective catalogs,
-- of one app or of several, have the same codename.
pub validate_uniqueness_iff :
    (catalogs : List (String × Catalog))
    → (validate_uniqueness catalogs ≡ []) ↔ IsDict (all_permissions catalogs)
unfolding validate_uniqueness
validate_uniqueness_iff catalogs =
    let start : Seen = record { seen = []; errors = [] } in
    (
      λ h. (note_catalogs_inv catalogs start h).1.0,
      λ d. clean_catalogs catalogs start refl d (λ k m. refl),
    )
