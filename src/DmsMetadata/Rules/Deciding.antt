-- ===== src/DmsMetadata/Rules/Deciding.antt =====
-- `validate_rules` decides whether a value meets the rules: lengths, patterns and numbers.
use mathlib.Core.Path.{subst}
use drf_enterprise_informati.Prelude.{
  String, ◌≡◌, ◌↔◌, refl, sym, ◌∙◌, ap, Bool, true, false, not, Option, none, some, arith, is_some,
  some_injective, if◌then◌else◌, raise_if, ok, err, ◌>>◌, Dict, get, length,
}
use drf_enterprise_informati.Core.PyText.{ℤ, pos, negsuc, codes}
use drf_enterprise_informati.DmsMetadata.Values.{
  Value, null, boolean, integer, float, str, array, object, Library, crash, Checked, with_rule,
  unless, int_of, length_below, length_above, ℤ_ltb, negated, is_match,
}
use drf_enterprise_informati.DmsMetadata.Validators.{
  decimal_of, both_decimals, too_precise, exponent_of, pattern_broken, length_rules, number_rules,
}
use drf_enterprise_informati.DmsMetadata.Types.{IsNumeral, whole, floating, written}
use drf_enterprise_informati.DmsMetadata.Rules.{
  AtMost, IsInt, number, yes_one, no_zero, IsBound, numeral, true_text, false_text, Holds,
  AtLeastLong, AtMostLong, Matches, LengthsMet, AboveBound, BelowBound, IsPrecise, NumbersMet,
}

abbrev pub IsOk : Checked → Type 0
IsOk c = c ≡ ok tt

pub rule_iff :
    (o : Option Value) (check : Value → Checked) (P : Value → Type 0)
    → ((r : Value) → IsOk (check r) ↔ P r)
    → IsOk (with_rule o check) ↔ ((r : Value) → o ≡ some r → P r)
rule_iff none check P each = (λ h r e. absurd cc, λ h. refl)
rule_iff (some r) check P each =
    (λ h x e. subst P (some_injective r x e) ((each r).0 h), λ h. (each r).1 (h r refl))

pub seq_iff : (m k : Checked) → IsOk (m >> k) ↔ (IsOk m × IsOk k)
seq_iff (err e) k = (λ h. absurd cc, λ p. absurd (cc))
seq_iff (ok u) k = (λ h. (refl, h), λ (p : IsOk (ok u) × IsOk k). p.1)

pub unless_iff : (o : Option Bool) (label : String) → IsOk (unless o label) ↔ (o ≡ some false)
unless_iff none label = (λ h. absurd cc, λ h. absurd cc)
unless_iff (some true) label = (λ h. absurd cc, λ h. absurd cc)
unless_iff (some false) label = (λ h. refl, λ h. refl)

ltb_iff : (a b : ℤ) → (ℤ_ltb a b ≡ false) ↔ AtMost b a
ltb_iff (pos a) (pos b) = (λ h. ground arith, λ h. ground arith)
ltb_iff (pos a) (negsuc b) = (λ h. tt, λ h. refl)
ltb_iff (negsuc a) (pos b) = (λ h. absurd cc, λ h. absurd (h tt))
ltb_iff (negsuc a) (negsuc b) = (λ h. ground arith, λ h. ground arith)

int_of-IsInt : (rule : Value) (z : ℤ) → int_of rule ≡ some z → IsInt rule z
int_of-IsInt (integer x) z h = number z (ap integer (some_injective x z h))
int_of-IsInt (boolean true) z h = subst (IsInt (boolean true)) (some_injective _ z h) (yes_one refl)
int_of-IsInt (boolean false) z h =
    subst (IsInt (boolean false)) (some_injective _ z h) (no_zero refl)
int_of-IsInt null z h = absurd cc
int_of-IsInt (float t) z h = absurd cc
int_of-IsInt (str s) z h = absurd cc
int_of-IsInt (array items) z h = absurd cc
int_of-IsInt object z h = absurd cc

IsInt-int_of : (rule : Value) (z : ℤ) → IsInt rule z → int_of rule ≡ some z
IsInt-int_of rule z (number x e) = rw e refl
IsInt-int_of rule z (yes_one e) = rw e refl
IsInt-int_of rule z (no_zero e) = rw e refl

int_rule_iff :
    (r : Value) (label : String) (test : Option ℤ → Option Bool) (b : ℤ → Bool) (P : ℤ → Type 0)
    → test none ≡ none
    → ((z : ℤ) → test (some z) ≡ some (b z))
    → ((z : ℤ) → (b z ≡ false) ↔ P z)
    → IsOk (unless (test (int_of r)) label) ↔ ((z : ℤ) × IsInt r z × P z)
int_rule_iff r label test b P on_none on_some each = (
  λ h. forward (int_of r) refl ((unless_iff (test (int_of r)) label).0 h),
  λ (m : (z : ℤ) × IsInt r z × P z).
      let (z, i, p) = m in
      (unless_iff (test (int_of r)) label).1
        (ap test (IsInt-int_of r z i) ∙ on_some z ∙ ap some ((each z).1 p)),
)
  where
    forward : (o : Option ℤ) → int_of r ≡ o → test o ≡ some false → (z : ℤ) × IsInt r z × P z
    forward none e h = absurd (cc)
    forward (some z) e h =
        (z, int_of-IsInt r z e, (each z).0 (some_injective (b z) false (sym (on_some z) ∙ h)))

pub str_injective : (s t : String) → str s ≡ str t → s ≡ t
str_injective s t h = cc

module _ (lib : Library) where
  pattern_iff :
      (s : String) (r : Value) (label : String)
      → IsOk (unless (pattern_broken lib s r) label) ↔ Matches lib s r
  pattern_iff s r label = (
    λ h. forward r ((unless_iff (pattern_broken lib s r) label).0 h),
    λ (m : Matches lib s r).
        let (p, e, found) = m in
        (unless_iff (pattern_broken lib s r) label).1 (rw (e) (rw (found) refl)),
  )
    where
      matched : (o : Option Bool) → is_match o ≡ some false → o ≡ some true
      matched none h = absurd cc
      matched (some true) h = refl
      matched (some false) h = absurd cc

      forward : (r : Value) → pattern_broken lib s r ≡ some false → Matches lib s r
      forward (str p) h = (p, refl, matched (lib.matches p s) h)
      forward null h = absurd cc
      forward (boolean b) h = absurd cc
      forward (integer z) h = absurd cc
      forward (float t) h = absurd cc
      forward (array items) h = absurd cc
      forward object h = absurd cc

  pub lengths_iff :
      (rules : Dict Value) (s label : String)
      → IsOk (length_rules lib rules s label) ↔ LengthsMet lib rules s
  unfolding length_rules
  lengths_iff rules s label =
      let least = rule_iff (get "min_length" rules) _ (AtLeastLong lib s) (λ r.
        int_rule_iff r label (length_below (length (codes s))) (ℤ_ltb (pos (length (codes s))))
          (λ z. AtMost z (pos (length (codes s)))) refl (λ z. refl)
          (ltb_iff (pos (length (codes s))))) in
      let most = rule_iff (get "max_length" rules) _ (AtMostLong lib s) (λ r.
        int_rule_iff r label (length_above (length (codes s)))
          (λ z. ℤ_ltb z (pos (length (codes s)))) (AtMost (pos (length (codes s)))) refl (λ z. refl)
          (λ z. ltb_iff z (pos (length (codes s))))) in
      let pattern = rule_iff (get "pattern" rules) _ (Matches lib s) (λ r. pattern_iff s r label) in
      (
        λ h.
            let (a, rest) = (seq_iff _ _).0 h in
            let (b, c) = (seq_iff _ _).0 rest in (least.0 a, most.0 b, pattern.0 c),
        λ (m : LengthsMet lib rules s).
            (seq_iff _ _).1 (least.1 m.0, (seq_iff _ _).1 (most.1 m.1, pattern.1 m.2)),
      )

  numeral_decimal :
      (value : Value) (text : String)
      → IsNumeral lib value text
      → decimal_of lib value ≡ lib.decimal text
  numeral_decimal value text (whole z e t) = rw (e, t) refl
  numeral_decimal value text (floating e) = rw e refl
  numeral_decimal value text (written e) = rw e refl

  bound_decimal :
      (r : Value) (text : String) → IsBound lib r text → decimal_of lib r ≡ lib.decimal text
  bound_decimal r text (numeral n) = numeral_decimal r text n
  bound_decimal r text (true_text e t) = rw (e, t) refl
  bound_decimal r text (false_text e t) = rw (e, t) refl

  decimal_of-IsBound :
      (r : Value) (bound : lib.Decimal)
      → decimal_of lib r ≡ some bound
      → (text : String) × IsBound lib r text × (lib.decimal text ≡ some bound)
  decimal_of-IsBound (integer z) bound h = (lib.str_int z, numeral (whole z refl refl), h)
  decimal_of-IsBound (float t) bound h = (t, numeral (floating refl), h)
  decimal_of-IsBound (str t) bound h = (t, numeral (written refl), h)
  decimal_of-IsBound (boolean true) bound h = ("True", true_text refl refl, h)
  decimal_of-IsBound (boolean false) bound h = ("False", false_text refl refl, h)
  decimal_of-IsBound null bound h = absurd cc
  decimal_of-IsBound (array items) bound h = absurd cc
  decimal_of-IsBound object bound h = absurd cc

  abbrev BoundMet : (lib.Decimal → Option Bool) → Value → Type 0
  BoundMet b r =
      (text : String) × IsBound lib r text
      × (bound : lib.Decimal) × (lib.decimal text ≡ some bound)
      × (b bound ≡ some false)

  bound_iff :
      (r : Value) (label : String) (test : Option lib.Decimal → Option Bool)
      (b : lib.Decimal → Option Bool)
      → test none ≡ none
      → ((d : lib.Decimal) → test (some d) ≡ b d)
      → IsOk (unless (test (decimal_of lib r)) label) ↔ BoundMet b r
  bound_iff r label test b on_none on_some = (
    λ h. forward (decimal_of lib r) refl ((unless_iff (test (decimal_of lib r)) label).0 h),
    λ (m : BoundMet b r).
        let (text, i, bound, e, less) = m in
        (unless_iff (test (decimal_of lib r)) label).1
          (ap test (bound_decimal r text i ∙ e) ∙ on_some bound ∙ less),
  )
    where
      forward : (o : Option lib.Decimal) → decimal_of lib r ≡ o → test o ≡ some false → BoundMet b r
      forward none e h = absurd (cc)
      forward (some d) e h =
          let (text, i, same) = decimal_of-IsBound r d e in (text, i, d, same, sym (on_some d) ∙ h)

  too_precise_iff :
      (d : lib.Decimal) (r : Value) (label : String)
      → IsOk (unless (too_precise lib (lib.exponent d) (int_of r)) label) ↔ IsPrecise lib d r
  too_precise_iff d r label = (
    λ h. forward (lib.exponent d) refl h,
    λ (m : IsPrecise lib d r). let (x, places, e, i, p) = m in rw (e) ((on x).1 (places, i, p)),
  )
    where
      on :
          (x : ℤ)
          → IsOk (unless (too_precise lib (some x) (int_of r)) label)
            ↔ ((places : ℤ) × IsInt r places × AtMost (negated places) x)
      on x =
          int_rule_iff r label (too_precise lib (some x)) (λ z. ℤ_ltb x (negated z))
            (λ z. AtMost (negated z) x) refl (λ z. refl) (λ z. ltb_iff x (negated z))

      forward :
          (o : Option ℤ)
          → lib.exponent d ≡ o
          → IsOk (unless (too_precise lib o (int_of r)) label)
          → IsPrecise lib d r
      forward none e h = absurd cc
      forward (some x) e h = let (places, i, p) = (on x).0 h in (x, places, e, i, p)

  -- `number_rules`, given the number.
  abbrev checks : Dict Value → Bool → Option lib.Decimal → String → Checked
  checks rules precise numeric label =
      raise_if (not (is_some numeric)) crash
      >> (with_rule (get "min" rules)
            (λ rule. unless (both_decimals lib lib.less numeric (decimal_of lib rule)) label)
          >> (with_rule (get "max" rules)
                (λ rule. unless (both_decimals lib lib.less (decimal_of lib rule) numeric) label)
              >> (if precise
                  then with_rule (get "precision" rules) (λ rule.
                    unless (too_precise lib (exponent_of lib numeric) (int_of rule)) label)
                  else ok tt)))

  abbrev pub More : Dict Value → Bool → lib.Decimal → Type 0
  More rules true d = Holds rules "precision" (IsPrecise lib d)
  More rules false d = Unit {0}

  precision_iff :
      (rules : Dict Value) (precise : Bool) (d : lib.Decimal) (label : String)
      → IsOk (
          if precise
          then with_rule
              (get "precision" rules)
              (λ rule. unless (too_precise lib (exponent_of lib (some d)) (int_of rule)) label)
          else ok tt)
        ↔ More rules precise d
  precision_iff rules true d label =
      rule_iff (get "precision" rules) _ (IsPrecise lib d) (λ r. too_precise_iff d r label)
  precision_iff rules false d label = (λ h. tt, λ h. refl)

  checks_iff :
      (rules : Dict Value) (precise : Bool) (d : lib.Decimal) (label : String)
      → IsOk (checks rules precise (some d) label) ↔ (
          Holds rules "min" (AboveBound lib d)
          × Holds rules "max" (BelowBound lib d)
          × More rules precise d)
  checks_iff rules precise d label =
      let least = rule_iff (get "min" rules) _ (AboveBound lib d) (λ r.
        bound_iff r label (both_decimals lib lib.less (some d)) (lib.less d) refl (λ x. refl)) in
      let most = rule_iff (get "max" rules) _ (BelowBound lib d) (λ r.
        bound_iff r label (λ o. both_decimals lib lib.less o (some d)) (λ x. lib.less x d) refl
          (λ x. refl)) in
      let more = precision_iff rules precise d label in
      (
        λ h.
            let (a, rest) = (seq_iff _ _).0 h in
            let (b, c) = (seq_iff _ _).0 rest in (least.0 a, most.0 b, more.0 c),
        λ (m : Holds rules "min" (AboveBound lib d)
              × Holds rules "max" (BelowBound lib d)
              × More rules precise d).
            (seq_iff _ _).1 (least.1 m.0, (seq_iff _ _).1 (most.1 m.1, more.1 m.2)),
      )

  pub numbers_iff :
      (rules : Dict Value) (precise : Bool) (value : Value) (label text : String)
      → IsNumeral lib value text
      → IsOk (number_rules lib rules precise value label)
        ↔ NumbersMet lib rules value (More rules precise)
  unfolding number_rules
  numbers_iff rules precise value label text n = (
    λ h. forward (decimal_of lib value) refl h,
    λ (m : NumbersMet lib rules value (More rules precise)).
        let (t, i, d, e, least, most, more) = m in
        subst (λ o. IsOk (checks rules precise o label)) (sym (numeral_decimal value t i ∙ e))
          ((checks_iff rules precise d label).1 (least, most, more)),
  )
    where
      forward :
          (o : Option lib.Decimal)
          → decimal_of lib value ≡ o
          → IsOk (checks rules precise o label)
          → NumbersMet lib rules value (More rules precise)
      forward none e h = absurd cc
      forward (some d) e h = (
        text,
        n,
        d,
        sym (numeral_decimal value text n) ∙ e,
        ((checks_iff rules precise d label).0 h).0,
        ((checks_iff rules precise d label).0 h).1,
        ((checks_iff rules precise d label).0 h).2,
      )
