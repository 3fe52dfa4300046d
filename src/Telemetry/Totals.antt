-- ===== src/Telemetry/Totals.antt =====
-- What a counter holds after a sequence of additions: for every combination of label values their
-- sum, whatever the hash.
use skywalking_satellite.Base.{
  ℕ, ◌<◌, ◌≡◌, refl, ap, ◌∙◌, Bool, ◌&&◌, Option, none, some, List, [], ◌∷◌, length, ◌==◌, ==_iff,
  if◌then◌else◌, update, Text, texts_eq, texts_eq_iff, arith, inl, inr, Option-cases, Bool-cases,
  ◌-◌,
}
use skywalking_satellite.Telemetry.Labels.{inline_label_values, hash_values, hash_new, hash_from}
use skywalking_satellite.Telemetry.Inline.{match_label_values-hash_from}
use skywalking_satellite.Telemetry.Vector.{
  BaseMetric, Cells, Checked, ok, Hash, ◌>>=◌, find_metric_with_label_values, validate_values,
  validate_label_values, hash_label_values, create_metric, get_or_create,
  get_metric_with_label_values, add, new_base_metric, fnv64a,
}
use skywalking_satellite.Telemetry.Pointer.{
  pointer, inline_label_values-nil, pointer-append, find_metric-pointer,
}

-- The label values that the metric takes.
abbrev pub Fits : (Text → Bool) → List Text → List Text → Type 0
Fits valid_string keys lvs = (length lvs ≡ length keys) × (validate_values valid_string lvs ≡ ok tt)

module _ {V : Type 0} (initial : V) (plus : V → V → V) (valid_string : Text → Bool) where
  -- the numbers of several additions, one after another
  unfoldable pub add_all :
      Hash → List (List Text × V) → BaseMetric → Cells V → Checked (BaseMetric × Cells V)
  add_all hash [] b cells = ok (b, cells)
  add_all hash ((lvs, delta) ∷ ops) b cells = do
    (b', cells') ← add initial plus valid_string hash delta lvs b cells
    add_all hash ops b' cells'

  -- the sum of the numbers that were added under some label values, if there were any
  abbrev pub total_from : List (List Text × V) → List Text → Option V → Option V
  total_from [] ls old = old
  total_from ((lvs, delta) ∷ ops) ls old = total_from ops ls (
      if texts_eq lvs ls then some (plus (elim old [ none ↦ initial | some v ↦ v ]) delta) else old)

  module _ (hash : Hash) (hash_of : List Text → ℕ) (keys : List Text) where
    -- what the metric holds under some label values
    abbrev pub value_at : BaseMetric → Cells V → List Text → Option V
    value_at b cells ls = elim (pointer ls (b.metrics (hash_of ls))) [
      | none ↦ none
      | some p ↦ some (cells.value p)
    ]

    -- the hash has a value on the label values that fit
    abbrev pub Hashes : Type 0
    Hashes =
        (lvs : List Text)
        → Fits valid_string keys lvs
        → hash (length keys) lvs [] ≡ some (hash_of lvs)

    record IsSound (b : BaseMetric) (cells : Cells V) : Type 0 where
      labels : b.label_keys ≡ keys
      plain : b.curry ≡ []
      below : (h : ℕ) (ls : List Text) (p : ℕ) → pointer ls (b.metrics h) ≡ some p → p < cells.next
      apart :
          (h k : ℕ) (ls ms : List Text) (p : ℕ)
          → pointer ls (b.metrics h) ≡ some p
          → pointer ms (b.metrics k) ≡ some p
          → (h ≡ k) × (ls ≡ ms)

    record Added (b : BaseMetric) (cells : Cells V) (lvs : List Text) (delta : V)
        (r : BaseMetric × Cells V) : Type 0 where
      sound : IsSound r.0 r.1
      value :
          (ls : List Text)
          → value_at r.0 r.1 ls ≡ (
              if texts_eq lvs ls
              then some (plus (elim (value_at b cells ls) [ none ↦ initial | some v ↦ v ]) delta)
              else value_at b cells ls)

    hash_label_values-Fits :
        (b : BaseMetric) (lvs : List Text) {cells : Cells V}
        → IsSound b cells
        → Hashes
        → Fits valid_string keys lvs
        → hash_label_values valid_string hash b lvs ≡ ok (hash_of lvs)
    unfolding hash_label_values validate_label_values
    hash_label_values-Fits b lvs sound hashes fits = rw (
      sound.labels,
      sound.plain,
      ◌>>=◌,
      (==_iff (length lvs) (length keys - 0)).1 (omega (arith, fits.0)),
      fits.1,
      hashes lvs fits,
    )

    pointer-create_metric :
        (b : BaseMetric) (cells : Cells V) (h : ℕ) (lvs : List Text) (k : ℕ) (ls : List Text)
        → pointer ls ((create_metric initial h lvs b cells).1.metrics k)
          ≡ elim (pointer ls (b.metrics k)) [
            | some p ↦ some p
            | none ↦ if (h == k) && texts_eq lvs ls then some cells.next else none
          ]
    unfolding create_metric
    pointer-create_metric b cells h lvs k ls = elim (Bool-cases (h == k)) [
      | inl e ↦
          let same = ap b.metrics ((==_iff h k).0 e) in
          ground
            (arith, pointer-append ls (b.metrics h) (record { values = lvs; metric = cells.next }))
      | inr e ↦ rw e (ground arith)
    ]

    look_up :
        (b : BaseMetric) (lvs : List Text) {cells : Cells V}
        → IsSound b cells
        → find_metric_with_label_values lvs b.curry (b.metrics (hash_of lvs))
          ≡ ok (pointer lvs (b.metrics (hash_of lvs)))
    look_up b lvs sound =
        ap (λ c. find_metric_with_label_values lvs c (b.metrics (hash_of lvs))) sound.plain
        ∙ find_metric-pointer lvs (b.metrics (hash_of lvs))

    add-found :
        (b : BaseMetric) (cells : Cells V) (lvs : List Text) (delta : V) (p : ℕ)
        → IsSound b cells
        → Hashes
        → Fits valid_string keys lvs
        → pointer lvs (b.metrics (hash_of lvs)) ≡ some p
        → add initial plus valid_string hash delta lvs b cells
          ≡ ok (b, record cells { value = update cells.value p (plus (cells.value p) delta) })
    unfolding add get_metric_with_label_values get_or_create
    add-found b cells lvs delta p sound hashes fits found =
        rw (hash_label_values-Fits b lvs sound hashes fits, ◌>>=◌, look_up b lvs sound, found)

    add-created :
        (b : BaseMetric) (cells : Cells V) (lvs : List Text) (delta : V)
        → IsSound b cells
        → Hashes
        → Fits valid_string keys lvs
        → pointer lvs (b.metrics (hash_of lvs)) ≡ none
        → add initial plus valid_string hash delta lvs b cells ≡ (
            let (p, b', cells') = create_metric initial (hash_of lvs) lvs b cells in
            ok (b', record cells' { value = update cells'.value p (plus (cells'.value p) delta) }))
    unfolding add get_metric_with_label_values get_or_create
    add-created b cells lvs delta sound hashes fits found = rw (
      hash_label_values-Fits b lvs sound hashes fits,
      ◌>>=◌,
      look_up b lvs sound,
      found,
      ap (inline_label_values lvs) sound.plain ∙ inline_label_values-nil lvs,
    )

    found-Added :
        (b : BaseMetric) (cells : Cells V) (lvs : List Text) (delta : V) (p : ℕ)
        → IsSound b cells
        → pointer lvs (b.metrics (hash_of lvs)) ≡ some p
        → Added b cells lvs delta
            (b, record cells { value = update cells.value p (plus (cells.value p) delta) })
    found-Added b cells lvs delta p sound found = record {
      sound = record {
        labels = sound.labels;
        plain = sound.plain;
        below = sound.below;
        apart = sound.apart;
      };
      value = λ ls. elim (Option-cases (pointer ls (b.metrics (hash_of ls)))) [
        | inl e ↦ ground (arith, texts_eq_iff lvs ls)
        | inr (q, e) ↦
            ground (arith, texts_eq_iff lvs ls, sound.apart (hash_of lvs) (hash_of ls) lvs ls p)
      ];
    }

    created-Added :
        (b : BaseMetric) (cells : Cells V) (lvs : List Text) (delta : V)
        → IsSound b cells
        → pointer lvs (b.metrics (hash_of lvs)) ≡ none
        → Added b cells lvs delta (
            let (p, b', cells') = create_metric initial (hash_of lvs) lvs b cells in
            (b', record cells' { value = update cells'.value p (plus (cells'.value p) delta) }))
    unfolding create_metric
    created-Added b cells lvs delta sound found = record {
      sound = record {
        labels = sound.labels;
        plain = sound.plain;
        below = λ h ls p e.
            ground
              (arith, pointer-create_metric b cells (hash_of lvs) lvs h ls, sound.below h ls p);
        apart = λ h k ls ms p e f. ground (
          arith,
          pointer-create_metric b cells (hash_of lvs) lvs h ls,
          pointer-create_metric b cells (hash_of lvs) lvs k ms,
          sound.apart h k ls ms p,
          sound.below h ls p,
          sound.below k ms p,
          texts_eq_iff lvs ls,
          texts_eq_iff lvs ms,
          ==_iff (hash_of lvs) h,
          ==_iff (hash_of lvs) k,
        );
      };
      value = λ ls. elim (Option-cases (pointer ls (b.metrics (hash_of ls)))) [
        | inl e ↦ ground (
          arith,
          pointer-create_metric b cells (hash_of lvs) lvs (hash_of ls) ls,
          texts_eq_iff lvs ls,
          ap hash_of,
        )
        | inr (q, e) ↦ ground (
          arith,
          pointer-create_metric b cells (hash_of lvs) lvs (hash_of ls) ls,
          texts_eq_iff lvs ls,
          sound.below (hash_of ls) ls q,
        )
      ];
    }

    add-Added :
        (b : BaseMetric) (cells : Cells V) (lvs : List Text) (delta : V)
        → IsSound b cells
        → Hashes
        → Fits valid_string keys lvs
        → (r : BaseMetric × Cells V) × (add initial plus valid_string hash delta lvs b cells ≡ ok r)
          × Added b cells lvs delta r
    add-Added b cells lvs delta sound hashes fits =
        elim (Option-cases (pointer lvs (b.metrics (hash_of lvs)))) [
          | inl e ↦ (
            _,
            add-created b cells lvs delta sound hashes fits e,
            created-Added b cells lvs delta sound e,
          )
          | inr (p, e) ↦ (
            _,
            add-found b cells lvs delta p sound hashes fits e,
            found-Added b cells lvs delta p sound e,
          )
        ]

    abbrev pub AllFit : List (List Text × V) → Type 0
    AllFit [] = Unit {0}
    AllFit ((lvs, delta) ∷ ops) = Fits valid_string keys lvs × AllFit ops

    add_all-IsSound :
        (ops : List (List Text × V)) (b : BaseMetric) (cells : Cells V)
        → IsSound b cells
        → Hashes
        → AllFit ops
        → (r : BaseMetric × Cells V) × (add_all hash ops b cells ≡ ok r)
          × ((ls : List Text) → value_at r.0 r.1 ls ≡ total_from ops ls (value_at b cells ls))
    unfolding add_all
    add_all-IsSound [] b cells sound hashes fit = ((b, cells), refl, λ ls. refl)
    add_all-IsSound ((lvs, delta) ∷ ops) b cells sound hashes fit =
        let ((b', cells'), run, added) = add-Added b cells lvs delta sound hashes fit.0 in
        let (r, rest, totals) = add_all-IsSound ops b' cells' added.sound hashes fit.1 in
        (r, rw (run, ◌>>=◌) rest, λ ls. totals ls ∙ ap (total_from ops ls) (added.value ls))

    -- A new metric takes any additions whose label values fit, and then holds under all label
    -- values the sum of what was added under just these, whatever the hash is and wherever it
    -- collides. The hash has a value on the label values that fit.
    pub add_all-total_from :
        (name : Text) (ops : List (List Text × V)) (value : ℕ → V)
        → Hashes
        → AllFit ops
        → (r : BaseMetric × Cells V) × (add_all hash ops
              (new_base_metric name keys)
              (record { next = 0; value = value })
            ≡ ok r)
          × ((ls : List Text) → value_at r.0 r.1 ls ≡ total_from ops ls none)
    unfolding new_base_metric
    add_all-total_from name ops value hashes fit =
        add_all-IsSound ops (new_base_metric name keys) (record { next = 0; value = value })
          (record {
            labels = refl;
            plain = refl;
            below = λ h ls p e. cc;
            apart = λ h k ls ms p e f. cc;
          })
          hashes fit

-- The hash of the code has a value on the label values that fit.
pub fnv64a-Hashes :
    {V : Type 0} (initial : V) (plus : V → V → V) (valid_string : Text → Bool) (keys : List Text)
    → Hashes initial plus valid_string fnv64a (hash_values hash_new) keys
unfolding fnv64a
fnv64a-Hashes initial plus valid_string keys lvs fits =
    ap (λ n. hash_from lvs [] n 0 0 0 hash_new) (omega (arith, fits.0))
    ∙ (match_label_values-hash_from lvs [] lvs (inline_label_values-nil lvs)).1
