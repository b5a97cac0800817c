-- ===== src/Expose/Init/Registered.antt =====
-- Which gauges `init_metrics` of src/expose_metrics.c registers.
use metrics_monitor.Base.{
  ◌≡◌, ◌≢◌, ◌⊎◌, inl, inr, refl, sym, ap, ◌∙◌, Bool, true, false, Option, List, [], ◌∷◌, ◌++◌,
  String, arith, All, Bool-cases,
}
use mathlib.Core.Path.{subst, fun_ext}
use mathlib.Core.List.{append_assoc, append-nil}
use metrics_monitor.Pairwise.{All-left}
use metrics_monitor.Expose.{Gauge}
use metrics_monitor.Expose.Init.{
  Prom, Spec, Setup, is_made, make, make_optional, make_required, register_all, register_metrics,
  register_order, required_gauges, optional_gauges, start_mutex, start_registry, init_metrics,
}

false-ne-true : false ≢ true
false-ne-true e = cc

module _ (P : Prom) where
  open P use {State, Metric, must_register, gauge_new}

  make-registered : (d : Spec) (s : Setup P) → (make P d s).registered ≡ s.registered
  unfolding make
  make-registered d s = ground arith

  make_optional-registered :
      (ds : List Spec) (s : Setup P) → (make_optional P ds s).registered ≡ s.registered
  unfolding make_optional
  make_optional-registered [] s = refl
  make_optional-registered (d ∷ ds) s =
      make_optional-registered ds (make P d s) ∙ make-registered d s

  make_required-registered :
      (ds : List Spec) (s : Setup P) → (make_required P ds s).1.registered ≡ s.registered
  unfolding make_required
  make_required-registered [] s = refl
  make_required-registered (d ∷ ds) s = elim (Bool-cases (is_made ((make P d s).metrics d.gauge))) [
    | inl made ↦ rw made (make_required-registered ds (make P d s) ∙ make-registered d s)
    | inr failed ↦ rw failed (make-registered d s)
  ]

  -- What is made stays made while no gauge fails.
  make-made :
      (d : Spec) (s : Setup P) (g : Gauge)
      → is_made ((make P d s).metrics d.gauge) ≡ true
      → is_made (s.metrics g) ≡ true
      → is_made ((make P d s).metrics g) ≡ true
  unfolding make
  make-made d s g h k = ground arith

  make_required-keeps :
      (ds : List Spec) (s : Setup P) (g : Gauge)
      → (make_required P ds s).0 ≡ true
      → is_made (s.metrics g) ≡ true
      → is_made ((make_required P ds s).1.metrics g) ≡ true
  unfolding make_required
  make_required-keeps [] s g h k = k
  make_required-keeps (d ∷ ds) s g h k =
      elim (Bool-cases (is_made ((make P d s).metrics d.gauge))) [
        | inl made ↦
            rw made (make_required-keeps ds (make P d s) g (rw made at h) (make-made d s g made k))
        | inr failed ↦ absurd (false-ne-true (rw failed at h))
      ]

  make_required-next :
      (d : Spec) (ds : List Spec) (s : Setup P)
      → is_made ((make P d s).metrics d.gauge) ≡ true
      → make_required P (d ∷ ds) s ≡ make_required P ds (make P d s)
  unfolding make_required
  make_required-next d ds s made = rw made refl

  make_required-first :
      (d : Spec) (ds : List Spec) (s : Setup P)
      → (make_required P (d ∷ ds) s).0 ≡ true
      → is_made ((make P d s).metrics d.gauge) ≡ true
  unfolding make_required
  make_required-first d ds s h = elim (Bool-cases (is_made ((make P d s).metrics d.gauge))) [
    | inl made ↦ made
    | inr failed ↦ absurd (false-ne-true (rw failed at h))
  ]

  make_required-made :
      (ds : List Spec) (s : Setup P)
      → (make_required P ds s).0 ≡ true
      → All (λ (d : Spec). is_made ((make_required P ds s).1.metrics d.gauge) ≡ true) ds
  make_required-made [] s h = tt
  make_required-made (d ∷ ds) s h =
      let made = make_required-first d ds s h in
      let e = make_required-next d ds s made in
      let h' : (make_required P ds (make P d s)).0 ≡ true = rw e at h in
      subst
        (λ (r : Bool × Setup P).
          All (λ (d' : Spec). is_made (r.1.metrics d'.gauge) ≡ true) (d ∷ ds))
        (sym e)
        (make_required-keeps ds (make P d s) d.gauge h' made, make_required-made ds (make P d s) h')

  -- The calls that register: those made before, and a first part of the operands.
  register_all-registered :
      (gs : List Gauge) (s : Setup P)
      → (rest : List Gauge) × ((register_all P gs s).1.registered ++ rest ≡ s.registered ++ gs)
  unfolding register_all
  register_all-registered [] s = ([], refl)
  register_all-registered (g ∷ gs) s =
      let r = must_register (s.metrics g) s.lib in
      let s' : Setup P = record s { lib = r.1; registered = s.registered ++ (g ∷ []) } in
      let ih = register_all-registered gs s' in
      elim (Bool-cases r.0) [
        | inl ok ↦ (ih.0, rw ok (ih.1 ∙ append_assoc s.registered (g ∷ []) gs))
        | inr failed ↦ (gs, rw failed (append_assoc s.registered (g ∷ []) gs))
      ]

  register_all_complete :
      (gs : List Gauge) (s : Setup P)
      → ((m : Option Metric) (t : State) → (must_register m t).0 ≡ true)
      → ((register_all P gs s).0 ≡ true) × ((register_all P gs s).1.registered ≡ s.registered ++ gs)
  unfolding register_all
  register_all_complete [] s ok = (refl, sym (append-nil s.registered))
  register_all_complete (g ∷ gs) s ok =
      let r = must_register (s.metrics g) s.lib in
      let s' : Setup P = record s { lib = r.1; registered = s.registered ++ (g ∷ []) } in
      let ih = register_all_complete gs s' ok in
      rw (ok (s.metrics g) s.lib) (ih.0, ih.1 ∙ append_assoc s.registered (g ∷ []) gs)

  register_metrics-registered :
      (s : Setup P)
      → (register_metrics P s).registered ≡ (register_all P register_order s).1.registered
  unfolding register_metrics
  register_metrics-registered s = ground arith

  register_all-metrics :
      (gs : List Gauge) (s : Setup P) (g : Gauge) → (register_all P gs s).1.metrics g ≡ s.metrics g
  unfolding register_all
  register_all-metrics [] s g = refl
  register_all-metrics (h ∷ gs) s g =
      let r = must_register (s.metrics h) s.lib in
      let s' : Setup P = record s { lib = r.1; registered = s.registered ++ (h ∷ []) } in
      elim (Bool-cases r.0) [
        | inl ok ↦ rw ok (register_all-metrics gs s' g)
        | inr failed ↦ rw failed refl
      ]

  register_metrics-metrics :
      (s : Setup P) (g : Gauge) → (register_metrics P s).metrics g ≡ s.metrics g
  unfolding register_metrics
  register_metrics-metrics s g = elim (Bool-cases (register_all P register_order s).0) [
    | inl ok ↦ rw ok (register_all-metrics register_order s g)
    | inr failed ↦ rw failed (register_all-metrics register_order s g)
  ]

  -- The state in which the required gauges are made.
  abbrev before_required : Setup P → Setup P
  before_required s = make_optional P optional_gauges (start_registry P (start_mutex P s))

  before_required-registered : (s : Setup P) → (before_required s).registered ≡ s.registered
  before_required-registered s =
      make_optional-registered optional_gauges (start_registry P (start_mutex P s)) ∙ ground arith

  -- `init_metrics` stops before the registration, or all required gauges are made.
  init-cases :
      (s : Setup P)
      → (init_metrics P s ≡ (make_required P required_gauges (before_required s)).1)
        ⊎ ((init_metrics P s
              ≡ register_metrics P (make_required P required_gauges (before_required s)).1)
            × ((make_required P required_gauges (before_required s)).0 ≡ true))
  unfolding init_metrics
  init-cases s = elim (Bool-cases (make_required P required_gauges (before_required s)).0) [
    | inl ok ↦ inr (rw ok refl, ok)
    | inr failed ↦ inl (rw failed refl)
  ]

  made_registered :
      (s : Setup P)
      → (make_required P required_gauges (before_required s)).1.registered ≡ s.registered
  made_registered s =
      make_required-registered required_gauges (before_required s) ∙ before_required-registered s

-- Whatever the libraries answer, the calls that register a gauge are a first part of the fifteen
-- operands, in their order: each gauge is registered at most once, and the calls end at the
-- first failure.
pub init_metrics-prefix :
    (P : Prom) (s : Setup P)
    → s.registered ≡ []
    → (rest : List Gauge) × ((init_metrics P s).registered ++ rest ≡ register_order)
init_metrics-prefix P s none_yet = elim (init-cases P s) [
  | inl stopped ↦ (register_order, rw (stopped, made_registered P s, none_yet) refl)
  | inr (went, ok) ↦
      let made = (make_required P required_gauges (before_required P s)).1 in
      let r = register_all-registered P register_order made in
      (
        r.0,
        rw (went, register_metrics-registered P made)
            (r.1 ∙ ap (λ l. l ++ register_order) (made_registered P s ∙ none_yet)),
      )
]

listed : All (λ (g : Gauge). g ≢ Gauge.disk_stats) register_order
listed = (
  λ e. cc,
  (
    λ e. cc,
    (
      λ e. cc,
      (
        λ e. cc,
        (
          λ e. cc,
          (
            λ e. cc,
            (
              λ e. cc,
              (
                λ e. cc,
                (λ e. cc, (λ e. cc, (λ e. cc, (λ e. cc, (λ e. cc, (λ e. cc, (λ e. cc, tt))))))),
              ),
            ),
          ),
        ),
      ),
    ),
  ),
)

-- The gauge of the disk statistics is never registered, whatever the libraries answer.
pub init_metrics-disk_stats :
    (P : Prom) (s : Setup P)
    → s.registered ≡ []
    → All (λ (g : Gauge). g ≢ Gauge.disk_stats) (init_metrics P s).registered
init_metrics-disk_stats P s none_yet =
    let r = init_metrics-prefix P s none_yet in
    All-left (λ (g : Gauge). g ≢ Gauge.disk_stats) (init_metrics P s).registered r.0
      (subst (All (λ (g : Gauge). g ≢ Gauge.disk_stats)) (sym r.1) listed)

-- Nothing is registered unless all nine required gauges were made.
pub init_metrics-all_or_none :
    (P : Prom) (s : Setup P)
    → s.registered ≡ []
    → ((init_metrics P s).registered ≡ [])
      ⊎ All (λ (d : Spec). is_made ((init_metrics P s).metrics d.gauge) ≡ true) required_gauges
init_metrics-all_or_none P s none_yet = elim (init-cases P s) [
  | inl stopped ↦ inl (rw stopped (made_registered P s ∙ none_yet))
  | inr (went, ok) ↦
      let made = (make_required P required_gauges (before_required P s)).1 in
      inr (
        rw (went, fun_ext (register_metrics-metrics P made))
          (make_required-made P required_gauges (before_required P s) ok))
]

make-is_made :
    (P : Prom) (d : Spec) (s : Setup P)
    → ((n h : String) (t : P.State) → is_made (P.gauge_new n h t).0 ≡ true)
    → is_made ((make P d s).metrics d.gauge) ≡ true
unfolding make
make-is_made P d s ok = let made = ok d.name d.help s.lib in ground arith

make_required-all :
    (P : Prom) (ds : List Spec) (s : Setup P)
    → ((n h : String) (t : P.State) → is_made (P.gauge_new n h t).0 ≡ true)
    → (make_required P ds s).0 ≡ true
unfolding make_required
make_required-all P [] s ok = refl
make_required-all P (d ∷ ds) s ok =
    rw (make_required-next P d ds s (make-is_made P d s ok))
      (make_required-all P ds (make P d s) ok)

-- If no gauge fails to be made and no registration fails, all fifteen operands are registered, in
-- their order.
pub init_metrics_complete :
    (P : Prom) (s : Setup P)
    → ((n h : String) (t : P.State) → is_made (P.gauge_new n h t).0 ≡ true)
    → ((m : Option P.Metric) (t : P.State) → (P.must_register m t).0 ≡ true)
    → (init_metrics P s).registered ≡ s.registered ++ register_order
unfolding init_metrics
init_metrics_complete P s makes registers =
    let made = (make_required P required_gauges (before_required P s)).1 in
    rw (make_required-all P required_gauges (before_required P s) makes) (
      register_metrics-registered P made
      ∙ (register_all_complete P register_order made registers).1
      ∙ ap (λ l. l ++ register_order) (made_registered P s))
