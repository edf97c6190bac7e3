-- ===== src/AddApp/Shown.antt =====
-- What is sent is what the form shows.
use marshal_pm.Base.{
  ◌≡◌, refl, ap, sym, Bool, true, false, Option, none, some, List, [], ◌∷◌, Text, Bool-cases, inl,
  inr, Floats, if◌then◌else◌, ℕ, zero, suc, ◌∙◌,
}
use marshal_pm.Api.Types.{Agent, Source, command, git, from_command, from_git}
use marshal_pm.AddApp.{AddApp, EnvRow, source_of, git_source, command_source, source_for}
use marshal_pm.Ui.Controls.{segment_view}
use marshal_pm.Ui.Controls.{segment_view}
use marshal_pm.AddApp.View.{
  Control, hint_line, chosen, segments, typed, FormField, same_source, repo_fields, cwd_fields,
  limit_fields, subdir_fields, form_view, basic_fields, advanced_fields, Advanced,
}

abbrev value_of : Control → Text
value_of (hint_line t) = t
value_of (chosen v cs) = v
value_of (segments cs) = []
value_of (typed v p n) = v

abbrev value_at : ℕ → List FormField → Text
value_at n [] = []
value_at zero (f ∷ fs) = value_of f.1
value_at (suc n) (f ∷ fs) = value_at n fs

abbrev above_of : Option Advanced → List FormField
above_of none = []
above_of (some a) = a.above

abbrev below_of : Option Advanced → List FormField
below_of none = []
below_of (some a) = a.below

abbrev env_of : Option Advanced → List EnvRow
env_of none = []
env_of (some a) = a.env

abbrev pressed_at : ℕ → List (Option Text × Text × Bool) → Bool
pressed_at n [] = false
pressed_at zero (i ∷ is) = i.2
pressed_at (suc n) (i ∷ is) = pressed_at n is

abbrev items_of : Control → List (Option Text × Text × Bool)
items_of (hint_line t) = []
items_of (chosen v cs) = []
items_of (segments is) = is
items_of (typed v p n) = []

abbrev items_at : ℕ → List FormField → List (Option Text × Text × Bool)
items_at n [] = []
items_at zero (f ∷ fs) = items_of f.1
items_at (suc n) (f ∷ fs) = items_at n fs

same_source-injective : (a b : Source) → same_source command a ≡ same_source command b → a ≡ b
same_source-injective command command h = refl
same_source-injective command git h = cc
same_source-injective git command h = cc
same_source-injective git git h = refl

opens : (b : Bool) (a : Advanced) → b ≡ true → (if b then some a else none) ≡ some a
opens true a h = refl
opens false a h = cc

shuts : (b : Bool) (a : Advanced) → b ≡ false → (if b then some a else none) ≡ none
shuts true a h = cc
shuts false a h = refl

advanced_or : Advanced → Option Advanced → Advanced
advanced_or d none = d
advanced_or d (some a) = a

module _ (F : Floats) where
  open F use {Num}

  command_shown :
      {N : Type 0} (agents : List (Agent N)) (s t : AddApp)
      → s.source_type ≡ command
      → t.source_type ≡ command
      → basic_fields agents s ≡ basic_fields agents t
      → advanced_fields s ≡ advanced_fields t
      → command_source F s ≡ command_source F t
  unfolding basic_fields advanced_fields command_source cwd_fields repo_fields limit_fields
  command_shown agents s t hs ht e a =
      let basic = λ (n : ℕ). ap (value_at n) e in
      let below = λ (n : ℕ). ap (λ v. value_at n v.below) a in
      let e_name : s.name ≡ t.name = basic 2 in
      let e_cmd : s.cmd ≡ t.cmd = rw (hs, ht) at (basic 3) in
      let e_args : s.args ≡ t.args = rw (hs, ht) at (basic 4) in
      let e_cwd : s.cwd ≡ t.cwd = rw (hs, ht) at (basic 5) in
      let e_instances : s.instances ≡ t.instances = rw (hs, ht) at (basic 6) in
      let e_env : s.env ≡ t.env = ap (λ v. v.env) a in
      let e_restart : s.restart ≡ t.restart = below 0 in
      let e_max : s.max_restarts ≡ t.max_restarts = rw (hs, ht) at (below 1) in
      let e_kill : s.kill_timeout ≡ t.kill_timeout = rw (hs, ht) at (below 2) in
      let e_memory : s.max_memory_restart ≡ t.max_memory_restart = rw (hs, ht) at (below 3) in
      rw (e_name, e_cmd, e_args, e_cwd, e_instances, e_env, e_restart, e_max, e_kill, e_memory) refl

  git_shown :
      {N : Type 0} (agents : List (Agent N)) (s t : AddApp)
      → s.source_type ≡ git
      → t.source_type ≡ git
      → basic_fields agents s ≡ basic_fields agents t
      → advanced_fields s ≡ advanced_fields t
      → git_source F s ≡ git_source F t
  unfolding basic_fields advanced_fields git_source cwd_fields repo_fields limit_fields
      subdir_fields
  git_shown agents s t hs ht e a =
      let basic = λ (n : ℕ). ap (value_at n) e in
      let below = λ (n : ℕ). ap (λ v. value_at n v.below) a in
      let e_name : s.name ≡ t.name = basic 2 in
      let e_repo : s.repo ≡ t.repo = rw (hs, ht) at (basic 3) in
      let e_ref : s.git_ref ≡ t.git_ref = rw (hs, ht) at (basic 4) in
      let e_build : s.build ≡ t.build = rw (hs, ht) at (basic 5) in
      let e_cred : s.credential ≡ t.credential = rw (hs, ht) at (basic 6) in
      let e_cmd : s.cmd ≡ t.cmd = rw (hs, ht) at (basic 7) in
      let e_args : s.args ≡ t.args = rw (hs, ht) at (basic 8) in
      let e_instances : s.instances ≡ t.instances = rw (hs, ht) at (basic 9) in
      let e_subdir : s.subdir ≡ t.subdir = rw (hs, ht) at (ap (λ v. value_at 0 v.above) a) in
      let e_env : s.env ≡ t.env = ap (λ v. v.env) a in
      let e_restart : s.restart ≡ t.restart = below 0 in
      let e_memory : s.max_memory_restart ≡ t.max_memory_restart = rw (hs, ht) at (below 1) in
      rw
        (
          e_name, e_repo, e_ref, e_build, e_cred, e_cmd, e_args, e_instances, e_subdir, e_env,
          e_restart, e_memory,
        )
        refl

  source_shown :
      {N : Type 0} (agents : List (Agent N)) (a : Source) (s t : AddApp)
      → s.source_type ≡ a
      → t.source_type ≡ a
      → basic_fields agents s ≡ basic_fields agents t
      → advanced_fields s ≡ advanced_fields t
      → source_of F s ≡ source_of F t
  unfolding source_of source_for
  source_shown agents command s t hs ht e k =
      rw (hs, ht) (ap from_command (command_shown agents s t hs ht e k))
  source_shown agents git s t hs ht e k = rw (hs, ht) (ap from_git (git_shown agents s t hs ht e k))

  -- Two forms whose advanced fields are open and that look the same send the same source: what is
  -- sent depends on no value that the form does not show for the chosen source type.
  pub source_of-form_view :
      {N : Type 0} (agents : List (Agent N)) (s t : AddApp)
      → s.show_adv ≡ true
      → form_view agents s ≡ form_view agents t
      → source_of F s ≡ source_of F t
  unfolding form_view advanced_or basic_fields segment_view
  source_of-form_view agents s t open_s e =
      let adv : some (advanced_fields s) ≡ (form_view agents t).advanced =
        sym (opens s.show_adv (advanced_fields s) open_s) ∙ ap (λ v. v.advanced) e in
      let basic : basic_fields agents s ≡ basic_fields agents t = ap (λ v. v.fields) e in
      let pressed : same_source command s.source_type ≡ same_source command t.source_type =
        ap (λ fs. pressed_at 0 (items_at 1 fs)) basic in
      let same : s.source_type ≡ t.source_type =
        same_source-injective s.source_type t.source_type pressed in
      elim (Bool-cases t.show_adv) [
        | inl open_t ↦
            let k : some (advanced_fields s) ≡ some (advanced_fields t) =
              adv ∙ opens t.show_adv (advanced_fields t) open_t in
            source_shown agents t.source_type s t same refl basic
              (ap (advanced_or (advanced_fields s)) k)
        | inr shut ↦
            let k : some (advanced_fields s) ≡ none =
              adv ∙ shuts t.show_adv (advanced_fields t) shut in
            absurd cc
      ]
