-- ===== src/Notif/Forms.antt =====
-- What the forms for a rule and a channel send.
use marshal_pm.Base.{
  ◌≡◌, inl, inr, refl, arith, Bool, true, false, not, ◌&&◌, Option, none, some, List, [], ◌∷◌, ◌++◌,
  Text, codes, text_eq, text_eq_iff, Bool-cases, has, select, if◌then◌else◌,
}
use mathlib.Core.Path.{subst}
use marshal_pm.Api.Http.{nullish}
use marshal_pm.Notif.{config_fields, secret_fields}
use marshal_pm.Notif.Channels.{field_value, config_of, is_secret, secrets_of, secret_entry}
use marshal_pm.Notif.Rules.{toggle}

has-select :
    (list : List Text) (v w : Text)
    → has w (select (λ x. not (text_eq x v)) list) ≡ (has w list && not (text_eq w v))
unfolding has
has-select [] v w = refl
has-select (x ∷ list) v w =
    ground (
      arith,
      has-select list v w,
      text_eq_iff x v,
      text_eq_iff w v,
      text_eq_iff x w,
      text_eq_iff w x,
    )

has-append :
    (list : List Text) (v w : Text)
    → has w (list ++ (v ∷ [])) ≡ (if has w list then true else text_eq v w)
unfolding has
has-append [] v w = ground (arith, text_eq_iff v w, text_eq_iff w v)
has-append (x ∷ list) v w = ground (arith, has-append list v w)

abbrev or_none : Option Text → Option Text → Option Text
or_none none d = d
or_none (some v) d = some v

-- A click on a check box changes whether its own value is in the list, and no other.
pub has-toggle :
    (list : List Text) (v w : Text)
    → has w (toggle list v) ≡ (if text_eq w v then not (has v list) else has w list)
unfolding toggle
has-toggle list v w =
    ground (arith, has-select list v w, has-append list v w, text_eq_iff w v, text_eq_iff v w)

field_value-config_of :
    (fields : List (Text × Text)) (f : Text) (fs : List Text)
    → field_value f (config_of fields fs)
      ≡ (if has f fs then some (nullish (field_value f fields) []) else none)
unfolding field_value config_of has
field_value-config_of fields f [] = refl
field_value-config_of fields f (g ∷ fs) =
    ground (arith, field_value-config_of fields f fs, text_eq_iff g f, text_eq_iff f g)

abbrev pub typed : Option Text → Option Text
typed none = none
typed (some []) = none
typed (some (c ∷ v)) = some (c ∷ v)

or_none_same : (o : Option Text) (b : Bool) → or_none o (if b then o else none) ≡ o
or_none_same none true = refl
or_none_same none false = refl
or_none_same (some v) b = refl

field_value-entry :
    (f g : Text) (o : Option Text) (rest : List (Text × Text))
    → field_value f (secret_entry g o ++ rest)
      ≡ (if text_eq g f then or_none (typed o) (field_value f rest) else field_value f rest)
unfolding field_value
field_value-entry f g none rest = ground arith
field_value-entry f g (some []) rest = ground arith
field_value-entry f g (some (c ∷ v)) rest = ground arith

field_value-secrets_of :
    (fields : List (Text × Text)) (f : Text) (fs : List Text)
    → field_value f (secrets_of fields fs)
      ≡ (if has f fs then typed (field_value f fields) else none)
unfolding field_value secrets_of has
field_value-secrets_of fields f [] = refl
field_value-secrets_of fields f (g ∷ fs) = ground (
  arith,
  field_value-entry f g (field_value g fields) (secrets_of fields fs),
  field_value-secrets_of fields f fs,
  text_eq_iff g f,
  or_none_same (typed (field_value f fields)) (has f fs),
)

other_field :
    (f secret : Text) (fs : List Text)
    → has secret fs ≡ false
    → has f (secret ∷ []) ≡ true
    → has f fs ≡ false
unfolding has
other_field f secret fs h k = subst (λ u. has u fs ≡ false) (ground (arith, text_eq_iff secret f)) h

fields_disjoint :
    (type f : Text) → has f (secret_fields type) ≡ true → has f (config_fields type) ≡ false
unfolding config_fields secret_fields has
fields_disjoint type f = elim (Bool-cases (text_eq type (codes "webhook"))) [
  | inl w ↦ rw w (other_field f (codes "hmac") (config_fields (codes "webhook")) refl)
  | inr w ↦ elim (Bool-cases (text_eq type (codes "telegram"))) [
    | inl t ↦ rw (w, t) (other_field f (codes "bot_token") (config_fields (codes "telegram")) refl)
    | inr t ↦ elim (Bool-cases (text_eq type (codes "email"))) [
      | inl e ↦ elim (Bool-cases (text_eq type (codes "slack"))) [
        | inl s ↦
            rw (w, t, e, s)
              (other_field f (codes "webhook_url") (config_fields (codes "email")) refl)
        | inr s ↦
            rw (w, t, e, s) (other_field f (codes "password") (config_fields (codes "email")) refl)
      ]
      | inr e ↦ rw (w, t, e) (λ h. refl)
    ]
  ]
]

-- Of what a saved channel sends, a secret field is in the secrets, if it was typed in, and never
-- in the configuration, and a configuration field is in the configuration, empty if nothing was
-- typed in, and never in the secrets.
pub field_value-submitted :
    (fields : List (Text × Text)) (type f : Text)
    → (is_secret type f ≡ true
        → (field_value f (config_of fields (config_fields type)) ≡ none)
          × (field_value f (secrets_of fields (secret_fields type)) ≡ typed (field_value f fields)))
      × (has f (config_fields type) ≡ true
          → (field_value f (config_of fields (config_fields type))
              ≡ some (nullish (field_value f fields) []))
            × (field_value f (secrets_of fields (secret_fields type)) ≡ none))
unfolding is_secret
field_value-submitted fields type f =
    let config = field_value-config_of fields f (config_fields type) in
    let secrets = field_value-secrets_of fields f (secret_fields type) in
    let apart = fields_disjoint type f in
    (
      (λ s. (ground (arith, config, apart s), ground (arith, secrets))),
      λ c. (ground (arith, config), ground (arith, secrets, apart)),
    )
