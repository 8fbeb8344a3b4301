-- ===== src/IamOauth/Model/Rows.antt =====
-- What a query finds after a row has been saved.
use drf_enterprise_informati.Prelude.{
  find_first, ap, some, eq_refl, String, ◌≡◌, ◌≢◌, refl, List, [], ◌∷◌, arith, ◌==◌, eq_iff, ok,
  All, Bool-cases, inl, inr,
}
use drf_enterprise_informati.IamOauth.Model.{
  AuthorizationCode, RefreshToken, filter_by, the_only, save_row, get_code, get_token, save_code,
  save_token,
}

module _ {A : Type 0} (pk column : A → String) where
  -- No row has this primary key.
  abbrev pub Lacks : String → List A → Type 0
  Lacks k rows = All (λ r. pk r ≢ k) rows

  -- No two rows have one primary key.
  abbrev pub Distinct : List A → Type 0
  Distinct [] = Unit
  Distinct (r ∷ rows) = Lacks (pk r) rows × Distinct rows

  save_absent : (row : A) (rows : List A) → Lacks (pk row) rows → save_row pk row rows ≡ rows
  unfolding save_row
  save_absent row [] h = refl
  save_absent row (r ∷ rows) (h, hs) =
      ground (arith, eq_iff (pk r) (pk row), save_absent row rows hs)

  found_value :
      (value : String) (old : A) (rows : List A)
      → filter_by column value rows ≡ old ∷ []
      → column old ≡ value
  unfolding filter_by
  found_value value old [] h = cc
  found_value value old (r ∷ rows) h = elim (Bool-cases (column r == value)) [
    | inl e ↦ (let same : r ≡ old = ground arith in rw (← same) ((eq_iff (column r) value).0 e))
    | inr e ↦ found_value value old rows (ground arith)
  ]

  found_pk :
      (value k : String) (old : A) (rows : List A)
      → filter_by column value rows ≡ old ∷ []
      → Lacks k rows
      → pk old ≢ k
  unfolding filter_by
  found_pk value k old [] h l = cc
  found_pk value k old (r ∷ rows) h (l, ls) = elim (Bool-cases (column r == value)) [
    | inl e ↦ (let same : r ≡ old = ground arith in rw same at l)
    | inr e ↦ found_pk value k old rows (ground arith) ls
  ]

  module _ (value : String) (old new : A) (samepk : pk new ≡ pk old)
      (valued : column new ≡ value) where
    filter-save :
        (rows : List A)
        → Distinct rows
        → filter_by column value rows ≡ old ∷ []
        → filter_by column value (save_row pk new rows) ≡ new ∷ []
    unfolding filter_by save_row
    filter-save [] d h = cc
    filter-save (r ∷ rows) (d, ds) h = elim (Bool-cases (column r == value)) [
      | inl e ↦
          (let same : r ≡ old = ground arith in
            let rest : filter_by column value rows ≡ [] = ground arith in
            let kept : save_row pk new rows ≡ rows =
              save_absent new rows (rw samepk (rw same at d)) in
            ground (arith, eq_iff (pk r) (pk new), eq_iff (column new) value))
      | inr e ↦
          (let found : filter_by column value rows ≡ old ∷ [] = ground arith in
            ground (
              arith,
              eq_iff (pk r) (pk new),
              found_pk value (pk r) old rows found d,
              filter-save rows ds found,
            ))
    ]

    filter-save_ne :
        (other : String) (rows : List A)
        → other ≢ value
        → Distinct rows
        → filter_by column value rows ≡ old ∷ []
        → filter_by column other (save_row pk new rows) ≡ filter_by column other rows
    unfolding filter_by save_row
    filter-save_ne other [] apart d h = refl
    filter-save_ne other (r ∷ rows) apart (d, ds) h = elim (Bool-cases (column r == value)) [
      | inl e ↦
          (let same : r ≡ old = ground arith in
            let kept : save_row pk new rows ≡ rows =
              save_absent new rows (rw samepk (rw same at d)) in
            ground (
              arith,
              eq_iff (pk r) (pk new),
              eq_iff (column new) other,
              eq_iff (column r) value,
              eq_iff (column r) other,
            ))
      | inr e ↦
          (let found : filter_by column value rows ≡ old ∷ [] = ground arith in
            ground (
              arith,
              eq_iff (pk r) (pk new),
              found_pk value (pk r) old rows found d,
              filter-save_ne other rows apart ds found,
            ))
    ]

the_only-ok : {A : Type 0} (rows : List A) (r : A) → the_only rows ≡ ok r → rows ≡ r ∷ []
unfolding the_only
the_only-ok [] r h = cc
the_only-ok (x ∷ []) r h = cc
the_only-ok (x ∷ y ∷ rows) r h = cc

no_match :
    {A : Type 0} (column : A → String) (value : String) (rows : List A)
    → All (λ r. column r ≢ value) rows
    → filter_by column value rows ≡ []
unfolding filter_by
no_match column value [] h = refl
no_match column value (r ∷ rows) (h, hs) =
    ground (arith, eq_iff (column r) value, no_match column value rows hs)

found_there :
    {A : Type 0} (pk column : A → String) (value : String) (row : A) (rows : List A)
    → filter_by column value rows ≡ row ∷ []
    → (old : A) × (find_first (λ r. pk r == pk row) rows ≡ some old)
unfolding filter_by
found_there pk column value row [] h = cc
found_there pk column value row (r ∷ rows) h = elim (Bool-cases (pk r == pk row)) [
  | inl e ↦ (r, rw (e, find_first) refl)
  | inr e ↦ elim (Bool-cases (column r == value)) [
    | inl c ↦
        (let same : r ≡ row = ground arith in
          absurd (ground (arith, ap pk same, eq_iff (pk r) (pk row))))
    | inr c ↦
        (let (old, found) = found_there pk column value row rows (ground arith) in
          (old, rw (e, find_first) found))
  ]
]

abbrev pub DistinctCodes : List AuthorizationCode → Type 0
DistinctCodes rows = Distinct (λ r. r.pk) (λ r. r.code) rows

abbrev pub DistinctTokens : List RefreshToken → Type 0
DistinctTokens rows = Distinct (λ r. r.pk) (λ r. r.token) rows

pub get_code-value :
    (code : String) (row : AuthorizationCode) (rows : List AuthorizationCode)
    → get_code code rows ≡ ok row
    → row.code ≡ code
unfolding get_code
get_code-value code row rows h =
    found_value (λ r. r.pk) (λ r. r.code) code row rows
      (the_only-ok (filter_by (λ r. r.code) code rows) row h)

pub get_token-value :
    (token : String) (row : RefreshToken) (rows : List RefreshToken)
    → get_token token rows ≡ ok row
    → row.token ≡ token
unfolding get_token
get_token-value token row rows h =
    found_value (λ r. r.pk) (λ r. r.token) token row rows
      (the_only-ok (filter_by (λ r. r.token) token rows) row h)

pub get_token-lacks :
    (token value : String) (row : RefreshToken) (rows : List RefreshToken)
    → get_token token rows ≡ ok row
    → All (λ r. r.token ≢ value) rows
    → row.token ≢ value
unfolding get_token
get_token-lacks token value row rows h l =
    found_pk (λ r. r.token) (λ r. r.token) token value row rows
      (the_only-ok (filter_by (λ r. r.token) token rows) row h) l

-- A row with another token does not disturb the query.
pub get_token-cons :
    (token : String) (next : RefreshToken) (rows : List RefreshToken)
    → next.token ≢ token
    → get_token token (next ∷ rows) ≡ get_token token rows
unfolding get_token filter_by
get_token-cons token next rows apart = ground (arith, eq_iff next.token token)

module _ (code : String) (old new : AuthorizationCode) (rows : List AuthorizationCode)
    (d : DistinctCodes rows) (samepk : new.pk ≡ old.pk) (coded : new.code ≡ code)
    (found : get_code code rows ≡ ok old) where
  -- The saved row is found in place of the old one.
  pub get_code-save : get_code code (save_code new rows) ≡ ok new
  unfolding get_code save_code
  get_code-save = rw (
      filter-save (λ r. r.pk) (λ r. r.code) code old new samepk coded rows d
        (the_only-ok (filter_by (λ r. r.code) code rows) old found))

  pub get_code-save_ne :
      (other : String) → other ≢ code → get_code other (save_code new rows) ≡ get_code other rows
  unfolding get_code save_code
  get_code-save_ne other apart = rw (
      filter-save_ne (λ r. r.pk) (λ r. r.code) code old new samepk coded other rows apart d
        (the_only-ok (filter_by (λ r. r.code) code rows) old found))

module _ (token : String) (old new : RefreshToken) (rows : List RefreshToken)
    (d : DistinctTokens rows) (samepk : new.pk ≡ old.pk) (valued : new.token ≡ token)
    (found : get_token token rows ≡ ok old) where
  pub get_token-save : get_token token (save_token new rows) ≡ ok new
  unfolding get_token save_token
  get_token-save = rw (
      filter-save (λ r. r.pk) (λ r. r.token) token old new samepk valued rows d
        (the_only-ok (filter_by (λ r. r.token) token rows) old found))

  pub get_token-save_ne :
      (other : String)
      → other ≢ token
      → get_token other (save_token new rows) ≡ get_token other rows
  unfolding get_token save_token
  get_token-save_ne other apart = rw (
      filter-save_ne (λ r. r.pk) (λ r. r.token) token old new samepk valued other rows apart d
        (the_only-ok (filter_by (λ r. r.token) token rows) old found))

-- A value that no row has but the newest finds the newest.
pub get_code-fresh :
    (row : AuthorizationCode) (rows : List AuthorizationCode)
    → All (λ r. r.code ≢ row.code) rows
    → get_code row.code (row ∷ rows) ≡ ok row
unfolding get_code filter_by the_only
get_code-fresh row rows h = rw (eq_refl row.code) (rw (no_match (λ r. r.code) row.code rows h) refl)

-- The row that a query finds is one of the table's.
pub get_token-Lacks :
    (token k : String) (row : RefreshToken) (rows : List RefreshToken)
    → get_token token rows ≡ ok row
    → All (λ r. r.pk ≢ k) rows
    → row.pk ≢ k
unfolding get_token
get_token-Lacks token k row rows h l =
    found_pk (λ r. r.pk) (λ r. r.token) token k row rows
      (the_only-ok (filter_by (λ r. r.token) token rows) row h) l

pub get_token-by_pk :
    (token : String) (row : RefreshToken) (rows : List RefreshToken)
    → get_token token rows ≡ ok row
    → (old : RefreshToken) × (find_first (λ r. r.pk == row.pk) rows ≡ some old)
unfolding get_token
get_token-by_pk token row rows h =
    found_there (λ r. r.pk) (λ r. r.token) token row rows
      (the_only-ok (filter_by (λ r. r.token) token rows) row h)

-- A saved row keeps the primary keys apart.
module _ {A : Type 0} (pk column : A → String) where
  Lacks-save :
      (k : String) (row : A) (rows : List A)
      → Lacks pk column k rows
      → Lacks pk column k (save_row pk row rows)
  unfolding save_row
  Lacks-save k row [] h = tt
  Lacks-save k row (r ∷ rows) (h, hs) =
      (ground (arith, eq_iff (pk r) (pk row)), Lacks-save k row rows hs)

  Distinct-save :
      (row : A) (rows : List A)
      → Distinct pk column rows
      → Distinct pk column (save_row pk row rows)
  unfolding save_row
  Distinct-save row [] d = tt
  Distinct-save row (r ∷ rows) (d, ds) = (
    ground (arith, eq_iff (pk r) (pk row), Lacks-save (pk r) row rows d),
    Distinct-save row rows ds,
  )

pub DistinctCodes-save :
    (row : AuthorizationCode) (rows : List AuthorizationCode)
    → DistinctCodes rows
    → DistinctCodes (save_code row rows)
unfolding save_code
DistinctCodes-save row rows d = Distinct-save (λ r. r.pk) (λ r. r.code) row rows d

pub DistinctTokens-save :
    (row : RefreshToken) (rows : List RefreshToken)
    → DistinctTokens rows
    → DistinctTokens (save_token row rows)
unfolding save_token
DistinctTokens-save row rows d = Distinct-save (λ r. r.pk) (λ r. r.token) row rows d
