-- ===== src/Expose/Main/Signs.antt =====
-- The signs of what src/expose_metrics.c publishes and of what the loop of src/main.c keeps.
use metrics_monitor.Base.{
  ℕ, zero, suc, ◌≡◌, ◌≢◌, ◌==◌, ==-eq_of, refl, sym, ap, ◌∙◌, inl, inr, true, Bool-cases, String,
  Option, none, some, List, [], ◌∷◌, arith, All,
}
use metrics_monitor.Double.{Double}
use mathlib.Core.Path.{subst}
use metrics_monitor.Expose.{
  Gauge, Event, set, error, World, Statics, publish, publish_int, Int32, nonneg, negative,
  update_external_frag_first_fit, update_external_frag_best_fit, update_external_frag_worst_fit,
  update_cpu_gauge, update_memory_gauge, update_disk_gauge, update_network_gauge,
  update_bandwidth_gauge, update_major_page_faults_gauge, update_minor_page_faults_gauge,
  update_memory_avalible_gauge, update_memory_total_gauge, update_memory_2_gauge,
  update_disk_stats_gauge, update_total_processes_gauge, update_change_context_gauge,
}
use metrics_monitor.Expose.Init.{number}
use metrics_monitor.Expose.Round.{Frags, round}
use metrics_monitor.Expose.Updates.{Unsigned}
use metrics_monitor.Expose.Main.{Client, IsClient, set_gauge, set_gauges, Input, rounds}
use metrics_monitor.Expose.Main.Values.{Differ, set_gauge-other, set_gauge_self}

-- An event does not set a negative value.
abbrev pub SetsNonneg : (D : Double) → Event D.Carrier → Type 0
SetsNonneg D (set g x) = D.is_nonneg x ≡ true
SetsNonneg D (error g message) = Unit

module _ (D : Double) where
  open D use {Carrier, is_nonneg}

  publish-SetsNonneg : (g : Gauge) (t : String) (x : Carrier) → SetsNonneg D (publish D g t x)
  publish-SetsNonneg g t x = elim (Bool-cases (is_nonneg x)) [
    | inl shown ↦ rw shown shown
    | inr hidden ↦ rw hidden tt
  ]

  publish_int-SetsNonneg :
      (u : Unsigned D) (g : Gauge) (t : String) (n : Int32) → SetsNonneg D (publish_int D g t n)
  publish_int-SetsNonneg u g t (nonneg n) = u n
  publish_int-SetsNonneg u g t (negative n) = tt

  round-SetsNonneg :
      (u : Unsigned D) (f : Frags Carrier) (w : World) (s : Statics)
      → All (SetsNonneg D) (round D f w s).0
  unfolding round update_external_frag_first_fit update_external_frag_best_fit
      update_external_frag_worst_fit update_cpu_gauge update_memory_gauge update_disk_gauge
      update_network_gauge update_bandwidth_gauge update_major_page_faults_gauge
      update_minor_page_faults_gauge update_memory_avalible_gauge update_memory_total_gauge
      update_memory_2_gauge update_disk_stats_gauge update_total_processes_gauge
      update_change_context_gauge
  round-SetsNonneg u f w s =
      let p = publish-SetsNonneg in
      let i = publish_int-SetsNonneg u in
      (
        p _ _ _,
        (
          p _ _ _,
          (
            p _ _ _,
            (
              p _ _ _,
              (
                p _ _ _,
                (
                  p _ _ _,
                  (
                    p _ _ _,
                    (
                      p _ _ _,
                      (
                        i _ _ _,
                        (
                          i _ _ _,
                          (p _ _ _, (p _ _ _, (p _ _ _, (p _ _ _, (p _ _ _, (p _ _ _, tt)))))),
                        ),
                      ),
                    ),
                  ),
                ),
              ),
            ),
          ),
        ),
      )

-- The entry of a list at a position, the last gauge behind its end.
abbrev at : List Gauge → ℕ → Gauge
at [] n = Gauge.frag_worst_fit
at (g ∷ gs) zero = g
at (g ∷ gs) (suc n) = at gs n

-- The gauge with a number.
abbrev of_number : ℕ → Gauge
of_number = at (
    Gauge.cpu_usage ∷ Gauge.memory_usage ∷ Gauge.disk_usage ∷ Gauge.network_usage
    ∷ Gauge.bandwidth_usage ∷ Gauge.major_page_faults ∷ Gauge.minor_page_faults
    ∷ Gauge.change_context ∷ Gauge.total_processes ∷ Gauge.memory_total ∷ Gauge.memory_avalible
    ∷ Gauge.memory_usage_2 ∷ Gauge.disk_stats ∷ Gauge.frag_first_fit ∷ Gauge.frag_best_fit
    ∷ Gauge.frag_worst_fit ∷ [])

of_number-number : (g : Gauge) → of_number (number g) ≡ g
of_number-number Gauge.cpu_usage = refl
of_number-number Gauge.memory_usage = refl
of_number-number Gauge.disk_usage = refl
of_number-number Gauge.network_usage = refl
of_number-number Gauge.bandwidth_usage = refl
of_number-number Gauge.major_page_faults = refl
of_number-number Gauge.minor_page_faults = refl
of_number-number Gauge.change_context = refl
of_number-number Gauge.total_processes = refl
of_number-number Gauge.memory_total = refl
of_number-number Gauge.memory_avalible = refl
of_number-number Gauge.memory_usage_2 = refl
of_number-number Gauge.disk_stats = refl
of_number-number Gauge.frag_first_fit = refl
of_number-number Gauge.frag_best_fit = refl
of_number-number Gauge.frag_worst_fit = refl

number-injective : (g h : Gauge) → number g ≡ number h → g ≡ h
number-injective g h e = sym (of_number-number g) ∙ ap of_number e ∙ of_number-number h

-- No value, or one that is not negative.
abbrev pub NotNegative : (D : Double) → Option D.Carrier → Type 0
NotNegative D none = Unit
NotNegative D (some x) = D.is_nonneg x ≡ true

-- The gauge holds no negative value.
abbrev pub HoldsNonneg :
    (D : Double) (C : Client D.Carrier) (ptr : Gauge → C.Metric) → C.State → Gauge → Type 0
HoldsNonneg D C ptr v g = NotNegative D (C.value v (ptr g))

module _ (D : Double) (C : Client D.Carrier) (laws : IsClient C) (metrics : Gauge → Option C.Metric)
    (ptr : Gauge → C.Metric) (made : (g : Gauge) → metrics g ≡ some (ptr g))
    (apart : (g h : Gauge) → Differ g h → ptr g ≢ ptr h) where
  open D use {Carrier}
  open C use {State, value}

  set_gauge-HoldsNonneg :
      (e : Event Carrier) (v : State)
      → SetsNonneg D e
      → ((g : Gauge) → HoldsNonneg D C ptr v g)
      → (g : Gauge) → HoldsNonneg D C ptr (set_gauge D C metrics e v) g
  unfolding set_gauge
  set_gauge-HoldsNonneg (error h t) v ok held g = held g
  set_gauge-HoldsNonneg (set h y) v ok held g = elim (Bool-cases (number h == number g)) [
    | inl same ↦
        subst (HoldsNonneg D C ptr (set_gauge D C metrics (set h y) v))
          (number-injective h g (==-eq_of (number h) (number g) same))
          (subst (NotNegative D) (sym (set_gauge_self D C laws metrics ptr made apart (set h y) v))
            ok)
    | inr differs ↦
        subst (NotNegative D)
          (sym (
            set_gauge-other D C laws metrics ptr made apart (set h y) v g
              (λ e. ground (arith, e, differs))))
          (held g)
  ]

  set_gauges-HoldsNonneg :
      (es : List (Event Carrier)) (v : State)
      → All (SetsNonneg D) es
      → ((g : Gauge) → HoldsNonneg D C ptr v g)
      → (g : Gauge) → HoldsNonneg D C ptr (set_gauges D C metrics es v) g
  unfolding set_gauges
  set_gauges-HoldsNonneg [] v ok held = held
  set_gauges-HoldsNonneg (e ∷ es) v ok held =
      set_gauges-HoldsNonneg es (set_gauge D C metrics e v) ok.1
        (set_gauge-HoldsNonneg e v ok.0 held)

-- When `double` has the signs of IEEE 754 for unsigned numbers, the client behaves as documented,
-- every gauge was made at the start, and the pointers of different gauges differ: if no gauge holds
-- a negative value, then none does after any number of turns of the loop, whatever the files, the
-- clocks and the fragmentation values are. So the negative values by which the readers report
-- errors never reach a gauge.
pub rounds-HoldsNonneg :
    (D : Double) (C : Client D.Carrier) (metrics : Gauge → Option C.Metric) (ptr : Gauge → C.Metric)
    (is : List (Input D C metrics)) (v : C.State) (s : Statics)
    → Unsigned D
    → IsClient C
    → ((g : Gauge) → metrics g ≡ some (ptr g))
    → ((g h : Gauge) → Differ g h → ptr g ≢ ptr h)
    → ((g : Gauge) → HoldsNonneg D C ptr v g)
    → (g : Gauge) → HoldsNonneg D C ptr (rounds D C metrics is v s).1 g
unfolding rounds
rounds-HoldsNonneg D C metrics ptr [] v s u laws made apart held = held
rounds-HoldsNonneg D C metrics ptr (i ∷ is) v s u laws made apart held =
    let r = round D i.frags i.world s in
    rounds-HoldsNonneg D C metrics ptr is (set_gauges D C metrics r.0 v) r.1 u laws made apart (
      set_gauges-HoldsNonneg D C laws metrics ptr made apart r.0 v
        (round-SetsNonneg D u i.frags i.world s) held)
