-- ===== src/Charts.antt =====
-- web/src/Sparkline.tsx, web/src/components/BarSparkline.tsx and web/src/MetricChart.tsx: the points
-- that the charts draw, and the bucket under the pointer.
use marshal_pm.Base.{
  ℕ, suc, ◌-◌, Option, none, some, List, [], ◌∷◌, ◌++◌, Text, codes, map, length, join, Floats, ltb,
  if◌then◌else◌,
}
use marshal_pm.Api.Types.{Bucket}

pub data Metric : Type 0 where
  cpu mem : Metric

module _ (F : Floats) where
  open F use {Num, of_nat, add, sub, mul, div, lt, eq, truthy, min, max, round, to_fixed}

  -- `Math.min` and `Math.max` of some numbers after a first one.
  abbrev pub min_from : Num → List Num → Num
  min_from m [] = m
  min_from m (x ∷ xs) = min_from (min m x) xs

  abbrev pub max_from : Num → List Num → Num
  max_from m [] = m
  max_from m (x ∷ xs) = max_from (max m x) xs

  -- `x || 1`.
  abbrev or_one : Num → Num
  or_one x = if truthy x then x else of_nat 1

  -- A point of a polyline.
  unfoldable pub point : Num → Num → Text
  point x y = to_fixed 1 x ++ (codes "," ++ to_fixed 1 y)

  -- Some values, each with its index.
  unfoldable pub points_from : (ℕ → Num) → (Num → Num) → ℕ → List Num → List Text
  unfolding point
  points_from x y i [] = []
  points_from x y i (v ∷ vs) = point (x i) (y v) ∷ points_from x y (suc i) vs

  -- `Sparkline`: the points of its line, or nothing where there is no data.
  unfoldable pub sparkline : (width height : ℕ) → List Num → Option Text
  unfolding points_from join
  sparkline width height [] = none
  sparkline width height (p ∷ ps) =
      let low = min_from p ps in
      let span = or_one (sub (max_from p ps) low) in
      let step =
        if ltb 1 (length (p ∷ ps))
        then div (of_nat width) (of_nat (length (p ∷ ps) - 1))
        else of_nat 0 in
      some (
        join (codes " ") (
          points_from (λ i. mul (of_nat i) step)
            (λ v. sub (of_nat height) (mul (div (sub v low) span) (of_nat height))) 0 (p ∷ ps)))

  -- `BarSparkline`.
  pub record Bar : Type 0 where
    pub x : Num
    pub y : Num
    pub width : Num
    pub height : Num

  unfoldable pub bars_from : (step bar_w max_val : Num) → ℕ → List Num → List Bar
  bars_from step bar_w max_val i [] = []
  bars_from step bar_w max_val i (v ∷ vs) =
      let bar_h = round (mul (div v max_val) (of_nat 22)) in
      (record { x = mul (of_nat i) step; y = sub (of_nat 22) bar_h; width = bar_w; height = bar_h })
      ∷ bars_from step bar_w max_val (suc i) vs

  unfoldable pub bar_sparkline : List Num → Option (List Bar)
  unfolding bars_from
  bar_sparkline [] = none
  bar_sparkline (p ∷ ps) =
      let max_val = max_from p ps in
      let step = div (of_nat 120) (of_nat (length (p ∷ ps))) in
      if eq max_val (of_nat 0)
      then none
      else some (bars_from step (max (of_nat 1) (sub step (of_nat 1))) max_val 0 (p ∷ ps))

  -- `MetricChart`.
  abbrev pub avg_of : Metric → Bucket Num → Num
  avg_of cpu b = b.cpu_avg
  avg_of mem b = b.mem_avg

  abbrev pub max_of : Metric → Bucket Num → Num
  max_of cpu b = b.cpu_max
  max_of mem b = b.mem_max

  abbrev suffixed : Metric → ℕ → Num → Text
  suffixed cpu d v = to_fixed d v ++ codes "%"
  suffixed mem d v = to_fixed d (div v (of_nat 1048576)) ++ codes " MB"

  unfoldable pub fmt : Metric → Num → Text
  fmt metric v = suffixed metric 0 v

  unfoldable pub fmt_precise : Metric → Num → Text
  fmt_precise metric v = suffixed metric 1 v

  abbrev chart_w : Num
  chart_w = of_nat 480

  abbrev chart_h : Num
  chart_h = of_nat 140

  abbrev pad : Num
  pad = of_nat 28

  abbrev inner : Num → Num
  inner size = sub size (mul (of_nat 2) pad)

  -- The places of an index and of a value, for `n` buckets and the span of the values.
  unfoldable pub x_of : ℕ → ℕ → Num
  x_of n i =
      add pad (if ltb 1 n then div (mul (of_nat i) (inner chart_w)) (of_nat (n - 1)) else of_nat 0)

  unfoldable pub y_of : Num → Num → Num
  y_of span v = sub (sub chart_h pad) (mul (div (sub v (of_nat 0)) span) (inner chart_h))

  abbrev pub highest : Metric → Bucket Num → List (Bucket Num) → Num
  highest metric b bs = or_one (max_from (max_of metric b) (map (max_of metric) bs))

  pub record Chart : Type 0 where
    pub top_label : Text
    pub bottom_label : Text
    pub area : Text
    pub max_line : Text
    pub avg_line : Text

  unfoldable pub chart_view : Metric → List (Bucket Num) → Option Chart
  unfolding points_from point x_of y_of fmt join
  chart_view metric [] = none
  chart_view metric (b ∷ bs) =
      let n = length (b ∷ bs) in
      let top = highest metric b bs in
      let span = or_one (sub top (of_nat 0)) in
      let line = λ (vs : List Num). points_from (x_of n) (y_of span) 0 vs in
      let avgs = map (avg_of metric) (b ∷ bs) in
      let maxs = map (max_of metric) (b ∷ bs) in
      some (record {
        top_label = fmt metric top;
        bottom_label = fmt metric (of_nat 0);
        area = join (codes " ") (
            line avgs
            ++ point (x_of n (n - 1)) (y_of span (of_nat 0))
              ∷ point (x_of n 0) (y_of span (of_nat 0))
              ∷ []);
        max_line = join (codes " ") (line maxs);
        avg_line = join (codes " ") (line avgs);
      })

  -- `onMove`: the place of the pointer within the data, and the index that it hovers.
  abbrev pub unclamped : (client_x left width : Num) → Num
  unclamped client_x left width =
      let frac = div (sub client_x left) width in
      let from = div pad chart_w in
      let to = div (sub chart_w pad) chart_w in div (sub frac from) (sub to from)

  abbrev pub clamped : Num → Num
  clamped x = max (of_nat 0) (min (of_nat 1) x)

  unfoldable pub on_move : (n : ℕ) → (client_x left width : Num) → Num
  on_move n client_x left width =
      if ltb 1 n
      then round (mul (clamped (unclamped client_x left width)) (of_nat (n - 1)))
      else of_nat 0

  -- `buckets[hover]`.
  abbrev pub bucket_at : ℕ → List (Bucket Num) → Num → Option (Bucket Num)
  bucket_at i [] hover = none
  bucket_at i (b ∷ bs) hover =
      let rest = bucket_at (suc i) bs hover in if eq (of_nat i) hover then some b else rest

  abbrev hovered : List (Bucket Num) → Option Num → Option (Bucket Num)
  hovered buckets none = none
  hovered buckets (some h) = bucket_at 0 buckets h

  abbrev readout_of : (ℕ → Text) → Metric → Option (Bucket Num) → Option Text
  readout_of local_time metric none = none
  readout_of local_time metric (some b) = some (
      fmt_precise metric (avg_of metric b)
      ++ (codes " · peak "
          ++ (fmt_precise metric (max_of metric b) ++ (codes " · " ++ local_time b.ts))))

  -- The text over the chart, if a bucket is hovered.
  unfoldable pub readout :
      (ℕ → Text) → Metric → List (Bucket Num) → (hover : Option Num) → Option Text
  unfolding fmt_precise
  readout local_time metric buckets hover = readout_of local_time metric (hovered buckets hover)
