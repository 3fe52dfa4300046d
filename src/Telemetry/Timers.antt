-- ===== src/Telemetry/Timers.antt =====
-- What a new timer registers, and what is written for it.
use skywalking_satellite.Base.{
  ℕ, ◌≡◌, sym, ap, ◌∙◌, false, none, some, List, [], ◌∷◌, ◌++◌, append-nil, Text, text_eq, list_eq,
  arith,
}
use skywalking_satellite.Telemetry.Vector.{BaseMetric, Cells, new_base_metric}
use skywalking_satellite.Telemetry.Server.{
  MetricsAppender, Metric, counter, timer, Server, find_metric, register, new_counter, new_timer,
  sum_name, count_name, is_timer,
}
use skywalking_satellite.Telemetry.Sending.{write_hashes, write_counter, write_metric, write_all}
use skywalking_satellite.Telemetry.Appended.{
  data_of, text_eq-append, bind-some, find_metric-append, write_hashes-appends, text_eq_self,
  some_injective, four_parts,
}

module _ {V : Type 0} where
  module _ (walk : BaseMetric → List ℕ) where
    -- A timer and its two counters that are registered one after the other: when they are written, the
    -- data of both counters are appended, and then once more.
    pub write_all-timer :
        (all : List (Text × Metric V)) (name sum count : Text) (b c : BaseMetric)
        (cells cells' : Cells V) (a a' : MetricsAppender V)
        → find_metric sum all ≡ some (counter b cells)
        → find_metric count all ≡ some (counter c cells')
        → write_all walk all
            ((sum, counter b cells) ∷ (count, counter c cells') ∷ (name, timer sum count) ∷ [])
            a
          ≡ some a'
        → (d e : MetricsAppender V) × (data_of b cells (walk b) a.prefix ≡ some d)
          × (data_of c cells' (walk c) a.prefix ≡ some e)
          × (a'.metrics ≡ a.metrics ++ ((d.metrics ++ e.metrics) ++ (d.metrics ++ e.metrics)))
    unfolding write_all write_metric write_counter
    write_all-timer all name sum count b c cells cells' a a' fs fc h =
        let (a1, e1, h1) = bind-some (write_hashes b cells (walk b) a) _ h in
        let (a2, e2, h2) = bind-some (write_hashes c cells' (walk c) a1) _ h1 in
        let (a3, e3, h3) = bind-some (write_metric walk all (timer sum count) a2) _ h2 in
        let (a4, e4, h4) = bind-some (write_counter walk (find_metric sum all) a2) _ e3 in
        let again : write_hashes b cells (walk b) a2 ≡ some a4 =
          ap (λ m. write_counter walk m a2) (sym fs) ∙ e4 in
        let last : write_hashes c cells' (walk c) a4 ≡ some a3 =
          ap (λ m. write_counter walk m a4) (sym fc) ∙ h4 in
        let (d1, f1, m1, p1) = write_hashes-appends b cells (walk b) a a1 e1 in
        let (d2, f2, m2, p2) = write_hashes-appends c cells' (walk c) a1 a2 e2 in
        let (d3, f3, m3, p3) = write_hashes-appends b cells (walk b) a2 a4 again in
        let (d4, f4, m4, p4) = write_hashes-appends c cells' (walk c) a4 a3 last in
        let same : some d3 ≡ some d1 = sym f3 ∙ ap (data_of b cells (walk b)) (p2 ∙ p1) ∙ f1 in
        let same' : some d4 ≡ some d2 = sym f4 ∙ ap (data_of c cells' (walk c)) (p3 ∙ p2) ∙ f2 in
        (
          d1,
          d2,
          f1,
          ap (data_of c cells' (walk c)) (sym p1) ∙ f2,
          ap (λ (o : MetricsAppender V). o.metrics) (some_injective (sym h3))
              ∙ four_parts a.metrics d1.metrics d2.metrics m1 m2
                  (m3
                    ∙ ap (λ (o : MetricsAppender V). a2.metrics ++ o.metrics) (some_injective same))
                  (m4
                    ∙ ap (λ (o : MetricsAppender V). a4.metrics ++ o.metrics)
                        (some_injective same')),
        )

-- What the names of a new timer lead to.
pub record Registers {V S : Type 0} (name : Text) (labels : List Text) (cells : Cells V)
    (s s' : Server V S) : Type 0 where
  pub sum :
      find_metric (sum_name name) s'.metrics
      ≡ some (counter (new_base_metric (sum_name name) labels) cells)
  pub count :
      find_metric (count_name name) s'.metrics
      ≡ some (counter (new_base_metric (count_name name) labels) cells)
  pub both : find_metric name s'.metrics ≡ some (timer (sum_name name) (count_name name))
  pub others :
      (n : Text) (m : Metric V)
      → find_metric n s.metrics ≡ some m
      → find_metric n s'.metrics ≡ some m
  pub again : new_timer cells name labels s' ≡ some s'

-- NewTimer with fresh names registers the timer and its two counters, keeps what every other name led
-- to, and gives the same timer when it is called again.
pub new_timer-Registers :
    {V S : Type 0} (cells : Cells V) (name : Text) (labels : List Text) (s : Server V S)
    → find_metric name s.metrics ≡ none
    → find_metric (sum_name name) s.metrics ≡ none
    → find_metric (count_name name) s.metrics ≡ none
    → (s' : Server V S) × (new_timer cells name labels s ≡ some s')
      × Registers name labels cells s s'
unfolding new_timer new_counter register find_metric list_eq is_timer
new_timer-Registers {V} {S} cells name labels s fresh fresh_sum fresh_count = (
  s',
  made,
  record {
    sum = found_sum;
    count = found_count;
    both = found;
    others = kept;
    again = rw (new_timer, found, is_timer);
  },
)
  where
    sum_counter : Text × Metric V
    sum_counter = (sum_name name, counter (new_base_metric (sum_name name) labels) cells)

    count_counter : Text × Metric V
    count_counter = (count_name name, counter (new_base_metric (count_name name) labels) cells)

    all : List (Text × Metric V)
    all =
        ((s.metrics ++ (sum_counter ∷ [])) ++ (count_counter ∷ []))
        ++ ((name, timer (sum_name name) (count_name name)) ∷ [])

    s' : Server V S
    s' = record s { metrics = all }

    apart : text_eq (sum_name name) (count_name name) ≡ false
    apart = text_eq-append name _ _

    sum_apart : text_eq (sum_name name) name ≡ false
    sum_apart = ap (text_eq (sum_name name)) (sym (append-nil name)) ∙ text_eq-append name _ []

    count_apart : text_eq (count_name name) name ≡ false
    count_apart = ap (text_eq (count_name name)) (sym (append-nil name)) ∙ text_eq-append name _ []

    in_all :
        (n : Text)
        → find_metric n all ≡ elim (find_metric n s.metrics) [
          | some m ↦ some m
          | none ↦
              find_metric n
                (sum_counter ∷ count_counter ∷ (name, timer (sum_name name) (count_name name)) ∷ [])
        ]
    in_all n = ground (
      arith,
      find_metric-append n ((s.metrics ++ (sum_counter ∷ [])) ++ (count_counter ∷ []))
          ((name, timer (sum_name name) (count_name name)) ∷ []),
      find_metric-append n (s.metrics ++ (sum_counter ∷ [])) (count_counter ∷ []),
      find_metric-append n s.metrics (sum_counter ∷ []),
    )

    found_sum :
        find_metric (sum_name name) all
        ≡ some (counter (new_base_metric (sum_name name) labels) cells)
    found_sum = rw (in_all (sum_name name), fresh_sum, text_eq_self (sum_name name))

    found_count :
        find_metric (count_name name) all
        ≡ some (counter (new_base_metric (count_name name) labels) cells)
    found_count = rw (in_all (count_name name), fresh_count, apart, text_eq_self (count_name name))

    found : find_metric name all ≡ some (timer (sum_name name) (count_name name))
    found = rw (in_all name, fresh, sum_apart, count_apart, text_eq_self name)

    kept : (n : Text) (m : Metric V) → find_metric n s.metrics ≡ some m → find_metric n all ≡ some m
    kept n m h = in_all n ∙ rw h

    middle : find_metric (count_name name) (s.metrics ++ (sum_counter ∷ [])) ≡ none
    middle =
        find_metric-append (count_name name) s.metrics (sum_counter ∷ []) ∙ rw (fresh_count, apart)

    made : new_timer cells name labels s ≡ some s'
    made = ground (arith, middle)
