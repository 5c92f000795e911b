-- ===== src/Server/Metrics/Laws.antt =====
-- `SetMetric` against ten numbers, all 0 until they are set.
use Prim.Native.Nat.{max}
use unity_gaming_services_go.Prelude.{
  ◌↔◌, dec_lt, Bytes-discrete, none, bytes_eq→eq, ℕ, ◌+◌, ◌%◌, ◌≤◌, ◌<◌, ◌≡◌, ◌≢◌, refl, ap, sym,
  ◌∙◌, inl, inr, Bool-cases, true, false, some, ok, err, panic, Slice, elems, length, set, get_or,
  length-set, get_or-take, get_or-set, bytes_eq, leb, ◌==◌, if◌then◌else◌, arith, nil_slice,
}
use unity_gaming_services_go.Sqp.Info.{max_metrics}
use unity_gaming_services_go.Server.Settings.{
  Config, metrics_unsupported, metric_out_of_bounds, query_protocol_sqp,
}
use unity_gaming_services_go.Server.{Server, set_config}
use unity_gaming_services_go.Server.Metrics.{set_metric, write_at, grown, written}
use unity_gaming_services_go.Sqp.Sizes.{IsWindow}

-- What `Start` makes for SQP, and what stays so: capacity ten, and zeros behind the window.
pub record IsReady (m : Slice ℕ) : Type 0 where
  pub capacity : length m.array ≡ max_metrics
  pub within : m.len ≤ max_metrics
  pub zeros : (j : ℕ) → m.len ≤ j → get_or m.array j 0 ≡ 0

-- The metric at an index, 0 where the slice does not reach.
abbrev pub metric : Slice ℕ → ℕ → ℕ
metric m j = get_or (elems m) j 0

metric-array : (m : Slice ℕ) (j : ℕ) → IsReady m → metric m j ≡ get_or m.array j 0
metric-array m j r = ground (arith, get_or-take m.len m.array j 0, r.zeros j)

module _ (m : Slice ℕ) (index value : ℕ) (r : IsReady m) (small : index < max_metrics) where
  stored : Slice ℕ
  stored = record { array = set m.array index value; len = max m.len (index + 1) }

  stored-IsReady : IsReady stored
  unfolding stored
  stored-IsReady = record {
    capacity = length-set m.array index value ∙ r.capacity;
    within = omega (arith, r.within);
    zeros = λ j h. ground (arith, r.capacity, get_or-set m.array index value j 0, r.zeros j);
  }

  stored-metric : (j : ℕ) → metric stored j ≡ (if index == j then value else metric m j)
  stored-metric j =
      metric-array stored j stored-IsReady
      ∙ unfold stored in
        ground (arith, r.capacity, get_or-set m.array index value j 0, metric-array m j r)

  grown-write : ((g : Slice ℕ) × (grown m index ≡ some g) × (write_at g index value ≡ stored))
  unfolding stored
  grown-write =
      (record m { len = max m.len (index + 1) }, ground (arith, r.capacity, r.within), refl)

-- For SQP, with metrics of capacity ten that are zero behind their length, and an index below
-- ten: SetMetric succeeds, the metric at the index is the value, every other one is what it was,
-- the slice grows just to the index, keeps its capacity and stays zero behind its length, and
-- nothing else of the server changes.
pub set_metric-metric :
    (s : Server) (index value : ℕ)
    → s.current_config.query_type ≡ query_protocol_sqp
    → IsReady s.state.metrics
    → index < max_metrics
    → (m : Slice ℕ) × (set_metric s index value
        ≡ (record s { state = record s.state { metrics = m } }, ok tt))
      × IsReady m
      × (m.len ≡ max s.state.metrics.len (index + 1))
      × ((j : ℕ) → metric m j ≡ (if index == j then value else metric s.state.metrics j))
unfolding set_metric stored
set_metric-metric s index value sqp r h =
    let (g, e, w) = grown-write s.state.metrics index value r h in
    (
      stored s.state.metrics index value r h,
      rw (sqp, high, e, w) refl,
      stored-IsReady s.state.metrics index value r h,
      refl,
      stored-metric s.state.metrics index value r h,
    )
  where
    high : leb max_metrics index ≡ false
    high = ground arith

-- For SQP an index of ten or more is refused as out of bounds, for another query type every index
-- as unsupported, and the server stays as it is.
pub set_metric-refused :
    (s : Server) (index value : ℕ)
    → ((s.current_config.query_type ≡ query_protocol_sqp) × (max_metrics ≤ index)
        → set_metric s index value ≡ (s, err metric_out_of_bounds))
      × (s.current_config.query_type ≢ query_protocol_sqp
          → set_metric s index value ≡ (s, err metrics_unsupported))
unfolding set_metric
set_metric-refused s index value = (
  λ h. rw (h.0, reached h.1),
  λ h. elim (Bool-cases (bytes_eq s.current_config.query_type query_protocol_sqp)) [
    | inl same ↦ absurd (h (bytes_eq→eq _ _ same))
    | inr differ ↦ rw differ
  ],
)
  where
    reached : max_metrics ≤ index → leb max_metrics index ≡ true
    reached k = ground arith

-- Within its array a slice grows to an index that the array reaches, and to no other.
grown_within :
    (m : Slice ℕ) (index : ℕ)
    → index < max_metrics
    → index < length m.array
    → (g : Slice ℕ) × (grown m index ≡ some g)
grown_within m index small h = elim (Bool-cases (leb m.len index)) [
  | inl behind ↦ (record m { len = (index + 1) % 256 }, rw behind (ground arith))
  | inr inside ↦ (m, rw inside refl)
]

grown_beyond :
    (m : Slice ℕ) (index : ℕ)
    → IsWindow m
    → index < max_metrics
    → length m.array ≤ index
    → grown m index ≡ none
grown_beyond m index w small h = ground arith

set_metric-written :
    (s : Server) (index value : ℕ)
    → s.current_config.query_type ≡ query_protocol_sqp
    → index < max_metrics
    → set_metric s index value ≡ written s index value (grown s.state.metrics index)
unfolding set_metric
set_metric-written s index value sqp small = rw (sqp, low) refl
  where
    low : leb max_metrics index ≡ false
    low = ground arith

-- With metrics within their array, SetMetric panics exactly if the query type of the
-- configuration is SQP, the index is below ten, and the array ends at or before the index.
pub set_metric-panics_iff :
    (s : Server) (index value : ℕ)
    → IsWindow s.state.metrics
    → ((set_metric s index value).1 ≡ panic) ↔ (
        (s.current_config.query_type ≡ query_protocol_sqp)
        × (index < max_metrics)
        × (length s.state.metrics.array ≤ index))
set_metric-panics_iff s index value w = (
  λ p. elim (Bytes-discrete s.current_config.query_type query_protocol_sqp) [
    | no other ↦
        absurd (let e = sym (ap (λ r. r.1) ((set_metric-refused s index value).1 other)) ∙ p in cc)
    | yes sqp ↦ elim (dec_lt index max_metrics) [
      | no high ↦ absurd (
          let e =
            sym (ap (λ r. r.1) ((set_metric-refused s index value).0 (sqp, omega (arith, high))))
            ∙ p in
          cc)
      | yes small ↦ elim (dec_lt index (length s.state.metrics.array)) [
        | no beyond ↦ (sqp, small, omega (arith, beyond))
        | yes inside ↦
            let (g, e) = grown_within s.state.metrics index small inside in
            absurd (
              let k =
                sym (
                  ap (λ r. r.1)
                    (set_metric-written s index value sqp small ∙ ap (written s index value) e))
                ∙ p in
              cc)
      ]
    ]
  ],
  λ (sqp, small, beyond).
      ap (λ r. r.1)
        (set_metric-written s index value sqp small
          ∙ ap (written s index value) (grown_beyond s.state.metrics index w small beyond)),
)

-- On a server with nil metrics whose configuration is then set to one for SQP, setting a metric
-- below ten panics.
pub set_metric-panics :
    (s : Server) (c : Config) (index value : ℕ)
    → s.state.metrics ≡ nil_slice
    → c.query_type ≡ query_protocol_sqp
    → index < max_metrics
    → (set_metric (set_config c s) index value).1 ≡ panic
unfolding set_metric set_config
set_metric-panics s c index value hn hq h = rw (hq, hn, low, empty, full)
  where
    low : leb max_metrics index ≡ false
    low = ground arith

    empty : leb 0 index ≡ true
    empty = ground arith

    full : leb ((index + 1) % 256) 0 ≡ false
    full = ground arith
