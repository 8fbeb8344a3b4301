-- ===== src/DmsMetadata/Rules/Accepting.antt =====
-- `validate_rules` decides whether a value meets the rules: dates, choices and schemes, and then the
-- rules of every type.
use mathlib.Core.Path.{subst}
use drf_enterprise_informati.Prelude.{
  String, ◌≡◌, ◌≢◌, ◌↔◌, ◌⊎◌, refl, sym, ◌∙◌, ap, Bool, true, false, Option, none, some, arith,
  ◌==◌, eq_iff, eq_refl, some_injective, or_default, Bool-cases, inl, inr, if◌then◌else◌, ok, Dict,
  get,
}
use drf_enterprise_informati.DmsMetadata.Values.{
  MetadataType, string_type, text_type, integer_type, decimal_type, boolean_type, date_type,
  datetime_type, time_type, uuid_type, email_type, url_type, json_type, enum_type, Value, null,
  boolean, integer, float, str, array, object, Items, nil, cons, Library, Checked, with_rule,
  unless, text_below, starts_before, starts_after, item_in, in_items, in_choices, choices_of,
  in_schemes, is_true, before_colon,
}
use drf_enterprise_informati.DmsMetadata.Validators.{length_rules, date_rules, validate_rules}
use drf_enterprise_informati.DmsMetadata.Types.{HasType, whole, floating, written}
use drf_enterprise_informati.DmsMetadata.Rules.{
  IsListed, listed_first, listed_later, LengthsMet, DatesMet, SchemeMet, MeetsRules,
}
use drf_enterprise_informati.DmsMetadata.Rules.Deciding.{
  IsOk, rule_iff, seq_iff, unless_iff, str_injective, lengths_iff, numbers_iff,
}

TextWith : (String → Bool) → Value → Type 0
TextWith b r = (bound : String) × (r ≡ str bound) × (b bound ≡ false)

-- A test of a rule that has to be a text.
text_rule_iff :
    (r : Value) (label : String) (test : Value → Option Bool) (b : String → Bool)
    → ((bound : String) → test (str bound) ≡ some (b bound))
    → ((v : Value) → test v ≢ none → (bound : String) × (v ≡ str bound))
    → IsOk (unless (test r) label) ↔ TextWith b r
unfolding TextWith
text_rule_iff r label test b on_str only = (
  λ h.
      let passed : test r ≡ some false = (unless_iff (test r) label).0 h in
      let (bound, e) = only r (λ n. cc) in
      let at_bound : test (str bound) ≡ some false = ap test (sym e) ∙ passed in
      (bound, e, some_injective (b bound) false (sym (on_str bound) ∙ at_bound)),
  λ (m : TextWith b r).
      let (bound, e, h) = m in (unless_iff (test r) label).1 (ap test e ∙ on_str bound ∙ ap some h),
)

starts_before-str :
    (s : String) (v : Value) → starts_before s v ≢ none → (bound : String) × (v ≡ str bound)
starts_before-str s (str bound) h = (bound, refl)
starts_before-str s null h = absurd (h refl)
starts_before-str s (boolean b) h = absurd (h refl)
starts_before-str s (integer z) h = absurd (h refl)
starts_before-str s (float t) h = absurd (h refl)
starts_before-str s (array items) h = absurd (h refl)
starts_before-str s object h = absurd (h refl)

starts_after-str :
    (s : String) (v : Value) → starts_after s v ≢ none → (bound : String) × (v ≡ str bound)
starts_after-str s (str bound) h = (bound, refl)
starts_after-str s null h = absurd (h refl)
starts_after-str s (boolean b) h = absurd (h refl)
starts_after-str s (integer z) h = absurd (h refl)
starts_after-str s (float t) h = absurd (h refl)
starts_after-str s (array items) h = absurd (h refl)
starts_after-str s object h = absurd (h refl)

item_in-IsListed : (s : String) (items : Items) → item_in s items ≡ true → IsListed s items
item_in-IsListed s nil h = absurd cc
item_in-IsListed s (cons (str t) rest) h = elim (Bool-cases (t == s)) [
  | inl e ↦ rw ((eq_iff t s).0 e) listed_first
  | inr e ↦ listed_later (item_in-IsListed s rest (rw e at h))
]
item_in-IsListed s (cons null rest) h = listed_later (item_in-IsListed s rest h)
item_in-IsListed s (cons (boolean b) rest) h = listed_later (item_in-IsListed s rest h)
item_in-IsListed s (cons (integer z) rest) h = listed_later (item_in-IsListed s rest h)
item_in-IsListed s (cons (float t) rest) h = listed_later (item_in-IsListed s rest h)
item_in-IsListed s (cons (array items) rest) h = listed_later (item_in-IsListed s rest h)
item_in-IsListed s (cons object rest) h = listed_later (item_in-IsListed s rest h)

item_in_later :
    (s : String) (v : Value) (rest : Items) → item_in s rest ≡ true → item_in s (cons v rest) ≡ true
item_in_later s (str t) rest h = ground (arith, h)
item_in_later s null rest h = h
item_in_later s (boolean b) rest h = h
item_in_later s (integer z) rest h = h
item_in_later s (float t) rest h = h
item_in_later s (array items) rest h = h
item_in_later s object rest h = h

IsListed-item_in : (s : String) (items : Items) → IsListed s items → item_in s items ≡ true
IsListed-item_in s nil m = elim m [ ]
IsListed-item_in s (cons v rest) listed_first = rw (eq_refl s) refl
IsListed-item_in s (cons v rest) (listed_later m) =
    item_in_later s v rest (IsListed-item_in s rest m)

in_items_iff :
    (s : String) (items : Items) (label : String)
    → IsOk (in_items (item_in s items) items label) ↔ IsListed s items
in_items_iff s items label = (
  λ h. elim (Bool-cases (item_in s items)) [
    | inl e ↦ item_in-IsListed s items e
    | inr e ↦ absurd (ground arith)
  ],
  λ m. rw (IsListed-item_in s items m) refl,
)

module _ (rules : Dict Value) (s label : String) where
  dates_iff : (lib : Library) → IsOk (date_rules lib rules s label) ↔ DatesMet lib rules s
  unfolding date_rules TextWith
  dates_iff lib =
      let least = rule_iff (get "min" rules) _ (TextWith (text_below s)) (λ r.
        text_rule_iff r label (starts_before s) (text_below s) (λ bound. refl)
          (starts_before-str s)) in
      let most = rule_iff (get "max" rules) _ (TextWith (λ bound. text_below bound s)) (λ r.
        text_rule_iff r label (starts_after s) (λ bound. text_below bound s) (λ bound. refl)
          (starts_after-str s)) in
      (
        λ h. let (a, b) = (seq_iff _ _).0 h in (least.0 a, most.0 b),
        λ (m : DatesMet lib rules s). (seq_iff _ _).1 (least.1 m.0, most.1 m.1),
      )

  abbrev ChoiceMet : Option Value → Type 0
  ChoiceMet o = (items : Items) × (o ≡ some (array items)) × IsListed s items

  choices_sound : (o : Option Value) → IsOk (in_choices s (choices_of o) label) → ChoiceMet o
  choices_sound (some (array items)) h = (items, refl, (in_items_iff s items label).0 h)
  choices_sound none h = absurd cc
  choices_sound (some null) h = absurd cc
  choices_sound (some (boolean b)) h = absurd cc
  choices_sound (some (integer z)) h = absurd cc
  choices_sound (some (float t)) h = absurd cc
  choices_sound (some (str t)) h = absurd cc
  choices_sound (some object) h = absurd cc

  choices_complete : (o : Option Value) → ChoiceMet o → IsOk (in_choices s (choices_of o) label)
  choices_complete o (items, e, m) = rw e ((in_items_iff s items label).1 m)

  abbrev scheme : String
  scheme = or_default (before_colon s) ""

  schemes_sound :
      (r : Value)
      → IsOk (in_schemes s r label)
      → (items : Items) × (r ≡ array items) × IsListed scheme items
  schemes_sound (array items) h = (items, refl, (in_items_iff scheme items label).0 h)
  schemes_sound null h = absurd cc
  schemes_sound (boolean b) h = absurd cc
  schemes_sound (integer z) h = absurd cc
  schemes_sound (float t) h = absurd cc
  schemes_sound (str t) h = absurd cc
  schemes_sound object h = absurd cc

  abbrev SchemeOf : Value → Type 0
  SchemeOf r = (is_true r ≡ false) ⊎ ((items : Items) × (r ≡ array items) × IsListed scheme items)

  scheme_iff : (r : Value) → IsOk (if is_true r then in_schemes s r label else ok tt) ↔ SchemeOf r
  scheme_iff r = elim (Bool-cases (is_true r)) [
    | inr e ↦ (λ h. inl e, λ m. rw e refl)
    | inl e ↦ (
      λ h. inr (schemes_sound r (rw e at h)),
      λ (m : SchemeOf r). elim m [
        | inl none_given ↦ rw none_given refl
        | inr (items, same, m) ↦ rw (e) (
            subst (λ x. IsOk (in_schemes s x label)) (sym same)
              ((in_items_iff scheme items label).1 m))
      ],
    )
  ]

  schemes_iff :
      (lib : Library)
      → IsOk (
          with_rule
            (get "allowed_schemes" rules)
            (λ rule. if is_true rule then in_schemes s rule label else ok tt))
        ↔ SchemeMet lib rules s
  schemes_iff lib = rule_iff (get "allowed_schemes" rules) _ SchemeOf scheme_iff

-- What holds of a text holds of every text that it equals.
of_text :
    (c : Checked) (P : String → Type 0) (s : String)
    → IsOk c ↔ P s
    → IsOk c ↔ ((t : String) → str s ≡ str t → P t)
of_text c P s decided =
    (λ h t e. subst P (str_injective s t e) (decided.0 h), λ h. decided.1 (h s refl))

module _ (lib : Library) (rules : Dict Value) (label : String) where
  abbrev Decided : MetadataType → Value → Type 0
  Decided kind value =
      IsOk (validate_rules lib kind rules value label) ↔ MeetsRules lib kind rules value

  lengths_decided :
      (s : String)
      → IsOk (length_rules lib rules s label)
        ↔ ((t : String) → str s ≡ str t → LengthsMet lib rules t)
  lengths_decided s = of_text _ (LengthsMet lib rules) s (lengths_iff lib rules s label)

  dates_decided :
      (s : String)
      → IsOk (date_rules lib rules s label) ↔ ((t : String) → str s ≡ str t → DatesMet lib rules t)
  dates_decided s = of_text _ (DatesMet lib rules) s (dates_iff rules s label lib)

  decimals-Decided : (value : Value) → HasType lib decimal_type value → Decided decimal_type value
  unfolding validate_rules
  decimals-Decided value (text, whole z e t, _) =
      rw e (numbers_iff lib rules true (integer z) label (lib.str_int z) (whole z refl refl))
  decimals-Decided value (text, floating e, _) =
      rw e (numbers_iff lib rules true (float text) label text (floating refl))
  decimals-Decided value (text, written e, _) =
      rw e (numbers_iff lib rules true (str text) label text (written refl))

  -- A value of the type passes `validate_rules` exactly if it meets the rules.
  pub validate_rules_iff :
      (kind : MetadataType) (value : Value) → HasType lib kind value → Decided kind value
  unfolding validate_rules
  validate_rules_iff string_type value (s, e) = rw e (lengths_decided s)
  validate_rules_iff text_type value (s, e) = rw e (lengths_decided s)
  validate_rules_iff integer_type value (z, e) =
      rw e (numbers_iff lib rules false (integer z) label (lib.str_int z) (whole z refl refl))
  validate_rules_iff decimal_type value h = decimals-Decided value h
  validate_rules_iff date_type value (s, e, _) = rw e (dates_decided s)
  validate_rules_iff datetime_type value (s, e, _) = rw e (dates_decided s)
  validate_rules_iff enum_type value (s, e) = rw e (
      of_text _
        (λ t. (items : Items) × (get "choices" rules ≡ some (array items)) × IsListed t items) s
        (
          choices_sound rules s label (get "choices" rules),
          choices_complete rules s label (get "choices" rules),
        ))
  validate_rules_iff url_type value (s, e, _) =
      rw e (of_text _ (SchemeMet lib rules) s (schemes_iff rules s label lib))
  validate_rules_iff boolean_type value (b, e) = rw e (λ h. tt, λ h. refl)
  validate_rules_iff time_type value (s, e, _) = rw e (λ h. tt, λ h. refl)
  validate_rules_iff uuid_type value (s, e, _) = rw e (λ h. tt, λ h. refl)
  validate_rules_iff email_type value (s, e, _) = rw e (λ h. tt, λ h. refl)
  validate_rules_iff json_type value e = rw e (λ h. tt, λ h. refl)
