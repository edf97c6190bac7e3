-- ===== src/Errors/View.antt =====
-- What web/src/Errors.tsx shows: its figures, the button for all errors, and its rows. The ages are
-- taken at one time, in whole milliseconds.
use marshal_pm.Base.{
  ℕ, suc, ◌≡◌, refl, ap, sym, ◌∙◌, arith, Bool, true, false, not, inl, inr, Bool-cases, Option,
  none, some, List, [], ◌∷◌, ◌++◌, Text, codes, decimal, pad_start, length, map, select, ltb, ◌==◌,
  if◌then◌else◌,
}
use marshal_pm.Api.Types.{ErrSignature, ErrorsResponse}
use marshal_pm.Api.Http.{Fetch, nullish}
use marshal_pm.Api.Errors.{ack_error}
use marshal_pm.Errors.{
  Errors, range_value, range_label, unacked, all_disabled, last_sub, on_ack_all, ack_calls,
  signatures_of,
}
use marshal_pm.Format.{dash, relative_time}
use marshal_pm.Ui.Ledger.{Cell, filled_in}

abbrev figure_of : (ErrorsResponse → Text) → Option ErrorsResponse → Text
figure_of f none = dash
figure_of f (some d) = f d

abbrev unacked_sub : Option ErrorsResponse → Text
unacked_sub none = codes "error signatures"
unacked_sub (some d) = codes "of " ++ (decimal d.cluster.signatures ++ codes " signatures")

abbrev sub_of : Option ErrorsResponse → Text → Option Text
sub_of none sub = none
sub_of (some d) sub = some sub

-- The four figures.
unfoldable pub error_cells : ℕ → Errors → List Cell
unfolding decimal relative_time range_value range_label last_sub
error_cells now_ms s =
    (record {
      label = codes "Errors " ++ range_value s.range;
      value = figure_of (λ d. decimal d.cluster.errors) s.response;
      unit = none;
      sub = some (range_label s.range);
      color = some (codes "rose");
    })
    ∷ (record {
      label = codes "Unacked";
      value = figure_of (λ d. decimal d.cluster.unacknowledged) s.response;
      unit = none;
      sub = some (unacked_sub s.response);
      color = some (codes "amber");
    })
    ∷ (record {
      label = codes "Affected procs";
      value = figure_of (λ d. decimal d.cluster.affected_procs) s.response;
      unit = none;
      sub = some (codes "processes");
      color = none;
    })
    ∷ (record {
      label = codes "Last error";
      value = figure_of (λ d. relative_time d.cluster.last_error_unix now_ms) s.response;
      unit = none;
      sub = sub_of s.response (last_sub s);
      color = some (codes "sky");
    })
    ∷ []

-- The button that acknowledges all: its text, the number on it, and whether it is disabled.
pub record AckAll : Type 0 where
  pub text : Text
  pub number : Option ℕ
  pub disabled : Bool

abbrev ack_number : ℕ → Option ℕ
ack_number n = if ltb 0 n then some n else none

abbrev ack_text : Option ℕ → Text
ack_text none = codes "ack all"
ack_text (some n) = codes "ack all · " ++ decimal n

unfoldable pub ack_all_view : Errors → AckAll
unfolding unacked decimal
ack_all_view s =
    let number = if s.acking then none else ack_number (length (unacked s)) in
    record {
      text = if s.acking then codes "acking…" else ack_text number;
      number = number;
      disabled = all_disabled s;
    }

pub record ErrorRow : Type 0 where
  pub key : Text
  pub dim : Bool
  pub index : Text
  pub sample : Text
  pub source : Text
  pub place : Text
  pub bars : List ℕ
  pub count : Text
  pub last : Text
  pub button_class : Text
  pub button_title : Text
  pub button_text : Text

abbrev affected_text : ℕ → Text
affected_text n = if ltb 1 n then codes " · " ++ (decimal n ++ codes " procs") else []

unfoldable pub error_row : ℕ → ℕ → ErrSignature → ErrorRow
unfolding decimal pad_start relative_time
error_row now_ms i sig = record {
  key = sig.id;
  dim = sig.acknowledged;
  index = pad_start 2 (decimal (suc i));
  sample = sig.sample;
  source = nullish sig.source dash;
  place = sig.agent ++ (codes " / " ++ (sig.proc ++ affected_text (length sig.affected)));
  bars = sig.buckets;
  count = decimal sig.count;
  last = relative_time sig.last_unix now_ms;
  button_class = codes "ackbtn" ++ (if sig.acknowledged then codes " on" else []);
  button_title =
      if sig.acknowledged
      then codes "Un-acknowledge"
      else codes "Acknowledge — stops this error from nagging";
  button_text = if sig.acknowledged then codes "acked" else codes "ack";
}

unfoldable pub error_rows : ℕ → ℕ → List ErrSignature → List ErrorRow
unfolding error_row
error_rows now_ms i [] = []
error_rows now_ms i (sig ∷ sigs) = error_row now_ms i sig ∷ error_rows now_ms (suc i) sigs

-- The lines above and in the place of the rows.
abbrev response_note : Option ErrorsResponse → List Text
response_note none = []
response_note (some d) =
    (if d.truncated then codes "Showing a partial window — scan cap reached." ∷ [] else [])
    ++ (if length d.signatures == 0 then codes "No errors in this window." ∷ [] else [])

abbrev load_note : Option Text → Option ErrorsResponse → List Text
load_note (some e) response = (codes "Failed to load: " ++ e) ∷ []
load_note none none = codes "Loading…" ∷ []
load_note none (some d) = []

unfoldable pub notes : Errors → List Text
notes s = load_note (filled_in s.err) s.response ++ response_note s.response

-- The rows that are not dimmed.
abbrev pub bright : ℕ → Errors → List ErrorRow
bright now_ms s = select (λ r. not r.dim) (error_rows now_ms 0 (signatures_of s.response))

-- The rows that are not dimmed are those of the signatures that are not acknowledged.
map-bright :
    {B : Type 0} (f : Text → B) (now_ms i : ℕ) (sigs : List ErrSignature)
    → map (λ r. f r.key) (select (λ r. not r.dim) (error_rows now_ms i sigs))
      ≡ map (λ sig. f sig.id) (select (λ sig. not sig.acknowledged) sigs)
unfolding error_rows error_row
map-bright f now_ms i [] = refl
map-bright f now_ms i (sig ∷ sigs) = elim (Bool-cases sig.acknowledged) [
  | inl acked ↦ rw acked (map-bright f now_ms (suc i) sigs)
  | inr fresh ↦ rw fresh (ap (f sig.id ∷◌) (map-bright f now_ms (suc i) sigs))
]

length-map : {A B : Type 0} (f : A → B) (xs : List A) → length (map f xs) ≡ length xs
length-map f [] = refl
length-map f (x ∷ xs) = ap suc (length-map f xs)

length-zero : {A : Type 0} (xs : List A) → (length xs == 0) ≡ true → xs ≡ []
length-zero [] h = refl
length-zero (x ∷ xs) h = absurd (ground arith)

-- A click makes a call for each signature that is not acknowledged, also where there is none and
-- the button is disabled.
on_ack_all-calls :
    {N : Type 0} (fetch : Fetch N (Unit {0})) (s : Errors)
    → s.acking ≡ false
    → (on_ack_all fetch s).1 ≡ ack_calls fetch (unacked s)
unfolding on_ack_all
on_ack_all-calls fetch s idle = elim (Bool-cases (length (unacked s) == 0)) [
  | inl done ↦
      let skipped : (on_ack_all fetch s).1 ≡ [] = ground (arith, idle, done) in
      skipped ∙ ap (ack_calls fetch) (sym (length-zero (unacked s) done))
  | inr some_left ↦ ground (arith, idle, some_left)
]

-- While no errors are being acknowledged: the rows that are not dimmed are as many as the button
-- for all errors says, it is disabled exactly if there is none, and a click on it acknowledges the
-- errors of these rows, by one call for each in the order of the rows, and makes no other call.
pub ack_all_view_lem :
    {N : Type 0} (fetch : Fetch N (Unit {0})) (now_ms : ℕ) (s : Errors)
    → s.acking ≡ false
    → ((ack_all_view s).number ≡ ack_number (length (bright now_ms s)))
      × ((ack_all_view s).disabled ≡ (length (bright now_ms s) == 0))
      × ((on_ack_all fetch s).1 ≡ map (λ r. ack_error fetch r.key true) (bright now_ms s))
unfolding ack_all_view on_ack_all unacked ack_calls
ack_all_view_lem fetch now_ms s idle =
    let sigs = signatures_of s.response in
    let open_sigs = select (λ sig. not sig.acknowledged) sigs in
    let id_of : ErrSignature → Text = λ sig. sig.id in
    let key_of : ErrorRow → Text = λ r. r.key in
    let keys = map-bright (λ k. k) now_ms 0 sigs in
    let e : length (bright now_ms s) ≡ length open_sigs =
      sym (length-map key_of (bright now_ms s)) ∙ ap length keys ∙ length-map id_of open_sigs in
    let calls : (on_ack_all fetch s).1 ≡ map (λ sig. ack_error fetch sig.id true) open_sigs =
      on_ack_all-calls fetch s idle in
    (
      rw (idle, e) refl,
      rw (idle, e) refl,
      calls ∙ sym (map-bright (λ k. ack_error fetch k true) now_ms 0 sigs),
    )
