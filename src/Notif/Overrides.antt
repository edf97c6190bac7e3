-- ===== src/Notif/Overrides.antt =====
-- The overrides that the settings' form is opened with are those that it sends back.
use marshal_pm.Base.{
  ◌≡◌, ap, refl, arith, Bool, true, false, Option, none, some, List, [], ◌∷◌, ◌++◌, Text, is_blank,
  text_eq, text_eq_iff, Floats, has, not, All,
}
use marshal_pm.Api.Types.{NotifSettings}
use marshal_pm.Api.Http.{nullish}
use marshal_pm.Notif.{event_types}
use marshal_pm.Notif.Channels.{field_value}
use marshal_pm.Notif.Settings.{
  override_value, override_text, init_overrides, sent_override, sent_overrides, init_settings,
  settings_of,
}

not-not : (b : Bool) → not (not b) ≡ b
not-not true = refl
not-not false = refl

module _ (F : Floats) (show_num : F.Num → Text) where
  open F use {Num, parse}

  -- `Number(String(v))` is `v` again, and `String(v)` is not empty.
  abbrev pub Reads : Type 0
  Reads = (v : Num) → (parse (show_num v) ≡ v) × (is_blank (show_num v) ≡ false)

  abbrev kept : Text → Option Num → List (Text × Num)
  kept ev none = []
  kept ev (some v) = (ev, v) ∷ []

  sent_text :
      (ev : Text) (s : Text) (v : Num)
      → parse s ≡ v
      → is_blank s ≡ false
      → sent_override F show_num ev s ≡ (ev, v) ∷ []
  sent_text ev [] v p b = cc
  sent_text ev (c ∷ s) v p b = ap (λ n. (ev, n) ∷ []) p

  sent_override-text :
      (ev : Text) (o : Option Num)
      → Reads
      → sent_override F show_num ev (override_text F show_num o) ≡ kept ev o
  sent_override-text ev none h = refl
  sent_override-text ev (some v) h = let (p, b) = h v in sent_text ev (show_num v) v p b

  -- The overrides of these events, in their order.
  abbrev pub overrides_of : List Text → List (Text × Num) → List (Text × Num)
  overrides_of [] given = []
  overrides_of (ev ∷ evs) given = kept ev (override_value ev given) ++ overrides_of evs given

  field_value-init_overrides :
      (ev : Text) (evs : List Text) (given : List (Text × Num))
      → has ev evs ≡ true
      → field_value ev (init_overrides F show_num evs given)
        ≡ some (override_text F show_num (override_value ev given))
  unfolding field_value init_overrides has
  field_value-init_overrides ev [] given h = cc
  field_value-init_overrides ev (x ∷ evs) given h =
      ground (arith, field_value-init_overrides ev evs given, text_eq_iff x ev)

  sent_overrides-kept :
      (evs : List Text) (texts : List (Text × Text)) (given : List (Text × Num))
      → Reads
      → All
          (λ ev. field_value ev texts ≡ some (override_text F show_num (override_value ev given)))
          evs
      → sent_overrides F show_num evs texts ≡ overrides_of evs given
  unfolding sent_overrides
  sent_overrides-kept [] texts given r h = refl
  sent_overrides-kept (ev ∷ evs) texts given r h =
      rw (h.0, sent_override-text ev (override_value ev given) r)
        (ap (kept ev (override_value ev given) ++◌) (sent_overrides-kept evs texts given r h.1))

  -- Settings that are opened and saved without a change keep the overrides of all known events, in
  -- the order of the events, their cooldown, whether recoveries are reported, and their window, 10
  -- where none was given; it is assumed that numbers are read as they are shown.
  pub settings_of-init_settings :
      (s : NotifSettings Num)
      → Reads
      → ((settings_of F show_num (init_settings F show_num s)).cooldown_overrides
          ≡ some (overrides_of event_types (nullish s.cooldown_overrides [])))
        × ((settings_of F show_num (init_settings F show_num s)).cooldown_seconds
            ≡ s.cooldown_seconds)
        × ((settings_of F show_num (init_settings F show_num s)).suppress_recovery
            ≡ some (nullish s.suppress_recovery false))
        × ((settings_of F show_num (init_settings F show_num s)).coalesce_window_seconds
            ≡ some (nullish s.coalesce_window_seconds (F.of_nat 10)))
  unfolding settings_of init_settings has text_eq
  settings_of-init_settings s r =
      let given = nullish s.cooldown_overrides [] in
      let text : (ev : Text)
          → has ev event_types ≡ true
          → field_value ev (init_overrides F show_num event_types given)
            ≡ some (override_text F show_num (override_value ev given)) =
        λ ev h. field_value-init_overrides ev event_types given h in
      (
        ap some (
            sent_overrides-kept event_types _ given r (
              text _ refl,
              (text _ refl, (text _ refl, (text _ refl, (text _ refl, (text _ refl, tt))))),
            )),
        refl,
        ap some (not-not (nullish s.suppress_recovery false)),
        refl,
      )
