-- ===== src/Telemetry/Pointer.antt =====
-- The pointer that a metric has under some label values, without curried ones.
use skywalking_satellite.Base.{
  ℕ, zero, suc, ◌+◌, ◌<◌, ◌≡◌, refl, sym, ap, ◌∙◌, Option, none, some, List, [], ◌∷◌, ◌++◌, length,
  get_elem?, drop, if◌then◌else◌, Text, texts_eq, arith,
}
use skywalking_satellite.Telemetry.Labels.{next_label, curried_at, inline_from, inline_label_values}
use native.Mathlib.Numerals.{add-one}
use skywalking_satellite.Telemetry.Inline.{match_label_values-hash_from}
use skywalking_satellite.Telemetry.Vector.{
  MetricWithLabelValues, ok, in_range, ◌>>=◌, find_metric_with_label_values,
}

-- Without curried values the label values are the whole.
drop-step :
    (lvs : List Text) (k : ℕ)
    → k < length lvs
    → (v : Text) × (get_elem? lvs k ≡ some v) × (drop k lvs ≡ v ∷ drop (suc k) lvs)
drop-step [] k h = absurd (omega arith)
drop-step (x ∷ lvs) zero h = (x, refl, refl)
drop-step (x ∷ lvs) (suc k) h = drop-step lvs k (omega arith)

drop-length : (lvs : List Text) → drop (length lvs) lvs ≡ []
drop-length [] = refl
drop-length (x ∷ lvs) = drop-length lvs

inline_from-nil :
    (lvs : List Text) (n i k : ℕ)
    → n + k ≡ length lvs
    → inline_from lvs [] n i 0 k ≡ some (drop k lvs)
unfolding inline_from next_label curried_at
inline_from-nil lvs zero i k e =
    ap some (sym (drop-length lvs) ∙ ap (λ j. drop j lvs) (omega arith))
inline_from-nil lvs (suc n) i k e =
    let (v, found, rest) = drop-step lvs k (omega arith) in
    let next : inline_from lvs [] n (i + 1) 0 (k + 1) ≡ some (drop (suc k) lvs) =
      inline_from-nil lvs n (i + 1) (k + 1) (omega arith)
      ∙ ap (λ j. some (drop j lvs)) (add-one k) in
    ground arith

-- the first metric with these values
abbrev pub pointer : List Text → List MetricWithLabelValues → Option ℕ
pointer ls [] = none
pointer ls (m ∷ metrics) =
    let rest = pointer ls metrics in if texts_eq m.values ls then some m.metric else rest

pub pointer-append :
    (ls : List Text) (ms : List MetricWithLabelValues) (m : MetricWithLabelValues)
    → pointer ls (ms ++ (m ∷ [])) ≡ elim (pointer ls ms) [
      | some p ↦ some p
      | none ↦ if texts_eq m.values ls then some m.metric else none
    ]
pointer-append ls [] m = refl
pointer-append ls (x ∷ ms) m = ground (arith, pointer-append ls ms m)

pub inline_label_values-nil : (lvs : List Text) → inline_label_values lvs [] ≡ some lvs
unfolding inline_label_values
inline_label_values-nil lvs = inline_from-nil lvs (length lvs + 0) 0 0 (omega arith)

pub find_metric-pointer :
    (lvs : List Text) (ms : List MetricWithLabelValues)
    → find_metric_with_label_values lvs [] ms ≡ ok (pointer lvs ms)
unfolding find_metric_with_label_values
find_metric-pointer lvs [] = refl
find_metric-pointer lvs (m ∷ ms) =
    rw
      (
        (match_label_values-hash_from lvs [] lvs (inline_label_values-nil lvs)).0 m.values,
        ◌>>=◌,
        in_range,
      )
      (ground (arith, find_metric-pointer lvs ms))
