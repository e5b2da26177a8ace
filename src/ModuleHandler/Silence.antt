-- ===== src/ModuleHandler/Silence.antt =====
-- A device that sends nothing: its timer, the calls about other devices, and the checks of
-- `checkTimeoutedMessages`, in any order.
use module_gateway.Common.{
  ℕ, zero, suc, ◌+◌, ◌≤◌, true, false, List, [], ◌∷◌, ◌++◌, Option, none, some, map, leb, All,
  Bool-cases, Option-cases, inl, inr, if◌then◌else◌, ◌≡◌, sym, ap, subst, ◌∙◌, arith,
}
use mathlib.Core.List.{append_assoc, append-nil}
use module_gateway.Common.Dict.{Dict, find, contains, keys}
use module_gateway.Common.Dict.Laws.{find-modify, find_congr, contains_iff_find}
use module_gateway.Structures.Buffer.{empty_buffer}
use module_gateway.Structures.Constants.{status_aggregation_timeout_max_count}
use module_gateway.Structures.ReturnCode.{is_negative}
use module_gateway.Structures.Device.{DeviceIdentification, device_eq}
use module_gateway.Structures.DeviceState.{DeviceState, pop}
use module_gateway.Structures.Module.{ModuleLibraryHandler}
use module_gateway.Structures.Messages.{disconnect_device}
use module_gateway.StatusAggregator.{
  StatusAggregator, get_aggregated_status, get_unique_devices, get_device_timeout_count, tick,
  unset_timeouted_message_ready,
}
use module_gateway.StatusAggregator.Calls
use module_gateway.StatusAggregator.Calls.{Call}
use module_gateway.StatusAggregator.Isolation.{concerns, step-Agrees}
use module_gateway.StatusAggregator.Timeouts.{timer_runs, tick_counts}
use module_gateway.ExternalClient.SentMessages.{any_same}
use module_gateway.ModuleHandler.{Exchange, push_external, status_message}
use module_gateway.ModuleHandler.Timeouted.{
  drain, disconnect_silent, check_device, check_devices, check_timeouted_messages, HasFuel,
  check_timeouted_messages-total,
}

abbrev pub count_in : Dict DeviceIdentification ℕ → DeviceIdentification → ℕ
count_in timeouts d = elim (find device_eq d timeouts) [ none ↦ 0 | some n ↦ n ]

-- The devices whose timers have ended too often.
abbrev pub overdue :
    Dict DeviceIdentification ℕ → List DeviceIdentification → List DeviceIdentification
overdue timeouts [] = []
overdue timeouts (d ∷ ds) =
    if leb status_aggregation_timeout_max_count (count_in timeouts d)
    then d ∷ overdue timeouts ds
    else overdue timeouts ds

any_same-overdue :
    {A : Type 0} (timeouts : Dict DeviceIdentification ℕ) (d : DeviceIdentification)
    (devices : Dict DeviceIdentification A)
    → contains device_eq d devices ≡ true
    → leb status_aggregation_timeout_max_count (count_in timeouts d) ≡ true
    → any_same d (overdue timeouts (keys devices)) ≡ true
unfolding any_same contains
any_same-overdue timeouts d [] h late = cc
any_same-overdue timeouts d ((k, s) ∷ devices) h late = ground (
  arith,
  find_congr device_eq k d timeouts,
  device_eq.same_sym k d,
  any_same-overdue timeouts d devices,
)

-- What happens while a device is silent: its timer ends, at a time; a call that does not concern it; a
-- check, with fuel.
pub data Moment : Type 0 where
  timer_moment check_moment : ℕ → Moment
  call_moment : Call → Moment

-- How often the timer of the device has ended.
abbrev pub timer_moment_of : Moment → ℕ
timer_moment_of (timer_moment now) = 1
timer_moment_of (check_moment fuel) = 0
timer_moment_of (call_moment c) = 0

abbrev pub timer_moments : List Moment → ℕ
timer_moments [] = 0
timer_moments (e ∷ es) = timer_moment_of e + timer_moments es

abbrev pub and_then : (Exchange → Option Exchange) → Option Exchange → Option Exchange
and_then f none = none
and_then f (some x) = f x

abbrev pub OnSome : (Exchange → Type 0) → Option Exchange → Type 0
OnSome P none = Unit {0}
OnSome P (some x) = P x

-- What the checks leave of an aggregator: the timeout counts, and whether a timer runs.
abbrev pub Keeps : StatusAggregator → StatusAggregator → Type 0
Keeps a b =
    (b.device_timeouts ≡ a.device_timeouts)
    × ((d : DeviceIdentification) → timer_runs b d ≡ timer_runs a d)

module _ (m : ModuleLibraryHandler) where
  take-Keeps :
      (a : StatusAggregator) (d : DeviceIdentification)
      → Keeps a (get_aggregated_status m a empty_buffer d).0
  unfolding get_aggregated_status
  take-Keeps a d = (
    ground arith,
    λ j.
        let popped =
          λ (s : DeviceState). record s { aggregated_messages = pop s.aggregated_messages } in
        ground
          (arith, find-modify device_eq j d popped a.devices, find_congr device_eq d j a.devices),
  )

  drain-Keeps :
      (fuel : ℕ) (d : DeviceIdentification) (x y : Exchange)
      → drain m fuel d x ≡ some y
      → (y.to_internal ≡ x.to_internal) × Keeps x.aggregator y.aggregator
  unfolding drain
  drain-Keeps zero d x y e = absurd (ground (arith, e))
  drain-Keeps (suc fuel) d x y e =
      let r = get_aggregated_status m x.aggregator empty_buffer d in
      let next : Exchange =
        push_external (status_message false d r.2) (record x { aggregator = r.0 }) in
      let kept = take-Keeps x.aggregator d in
      elim (Bool-cases (is_negative r.1)) [
        | inl p ↦
            let ended : record x { aggregator = r.0 } ≡ y = ground arith in
            (
              ap (λ z. z.to_internal) (sym ended),
              (
                ap (λ z. z.aggregator.device_timeouts) (sym ended) ∙ kept.0,
                λ j. ap (λ z. timer_runs z.aggregator j) (sym ended) ∙ kept.1 j,
              ),
            )
        | inr p ↦
            let later = drain-Keeps fuel d next y (ground arith) in
            (later.0, (later.1.0 ∙ kept.0, λ j. later.1.1 j ∙ kept.1 j))
      ]

  -- A check of devices orders to disconnect those that are overdue, in their order.
  check_devices-orders :
      (fuel : ℕ) (ds : List DeviceIdentification) (x y : Exchange)
      → check_devices m fuel ds x ≡ some y
      → (y.to_internal
          ≡ x.to_internal ++ map disconnect_device (overdue x.aggregator.device_timeouts ds))
        × Keeps x.aggregator y.aggregator
  unfolding check_devices check_device disconnect_silent get_device_timeout_count
  check_devices-orders fuel [] x y e =
      let same : x ≡ y = ground arith in
      (
        ap (λ z. z.to_internal) (sym same) ∙ sym (append-nil x.to_internal),
        (
          ap (λ z. z.aggregator.device_timeouts) (sym same),
          λ j. ap (λ z. timer_runs z.aggregator j) (sym same),
        ),
      )
  check_devices-orders fuel (d ∷ ds) x y e = elim (Option-cases (drain m fuel d x)) [
    | inl p ↦ absurd (ground (arith, e, p))
    | inr (z, p) ↦
        let (internal, kept) = drain-Keeps fuel d x z p in
        let after = disconnect_silent m d z in
        let (orders, later) = check_devices-orders fuel ds after y (ground (arith, e, p)) in
        let same : after.aggregator ≡ z.aggregator = ground arith in
        let timeouts = ap (λ a. a.device_timeouts) same ∙ kept.0 in
        let rest = map disconnect_device (overdue x.aggregator.device_timeouts ds) in
        let ordered : y.to_internal ≡ after.to_internal ++ rest =
          orders ∙ ap (λ t. after.to_internal ++ map disconnect_device (overdue t ds)) timeouts in
        let counted = ap (λ t. count_in t d) kept.0 in
        (
          ground (
            arith,
            ordered,
            counted,
            internal,
            append_assoc x.to_internal (disconnect_device d ∷ []) rest,
          ),
          (later.0 ∙ timeouts, λ j. later.1 j ∙ ap (λ a. timer_runs a j) same ∙ kept.1 j),
        )
  ]

  check_timeouted_messages-Keeps :
      (fuel : ℕ) (x y : Exchange)
      → check_timeouted_messages m fuel x ≡ some y
      → Keeps x.aggregator y.aggregator
  unfolding check_timeouted_messages get_unique_devices
  check_timeouted_messages-Keeps fuel x y e =
      elim (Bool-cases x.aggregator.timeouted_message_ready) [
        | inr unset ↦
            let same : x ≡ y = ground arith in
            (
              ap (λ z. z.aggregator.device_timeouts) (sym same),
              λ j. ap (λ z. timer_runs z.aggregator j) (sym same),
            )
        | inl set ↦ elim (Option-cases (check_devices m fuel (keys x.aggregator.devices) x)) [
          | inl p ↦ absurd (ground (arith, e, p))
          | inr (z, p) ↦
              let kept = (check_devices-orders fuel (keys x.aggregator.devices) x z p).1 in
              let same : record z { aggregator = unset_timeouted_message_ready z.aggregator } ≡ y =
                ground arith in
              (
                ap (λ w. w.aggregator.device_timeouts) (sym same) ∙ kept.0,
                λ j. ap (λ w. timer_runs w.aggregator j) (sym same) ∙ kept.1 j,
              )
        ]
      ]

  module _ (d : DeviceIdentification) where
    unfoldable pub step_silent : Exchange → Moment → Option Exchange
    step_silent x (timer_moment now) =
        some (record x { aggregator = tick m now false x.aggregator d })
    step_silent x (call_moment c) = some (record x { aggregator = Calls.step m x.aggregator c })
    step_silent x (check_moment fuel) = check_timeouted_messages m fuel x

    -- Up to a check that runs out of fuel.
    unfoldable pub run_silent : List Moment → Exchange → Option Exchange
    run_silent [] x = some x
    run_silent (e ∷ es) x = and_then (run_silent es) (step_silent x e)

    abbrev pub IsSilent : Exchange → Moment → Type 0
    IsSilent x (call_moment c) = concerns x.aggregator c d ≡ false
    IsSilent x _ = Unit {0}

    abbrev pub Silent : List Moment → Exchange → Type 0
    Silent [] x = Unit {0}
    Silent (e ∷ es) x = IsSilent x e × OnSome (Silent es) (step_silent x e)

    -- The device is registered with a running timer, which has ended `n` times at least since its last
    -- status.
    abbrev pub Waits : ℕ → Exchange → Type 0
    Waits n x = (timer_runs x.aggregator d ≡ true) × (n ≤ count_in x.aggregator.device_timeouts d)

    step_silent-Waits :
        (n : ℕ) (e : Moment) (x y : Exchange)
        → Waits n x
        → IsSilent x e
        → step_silent x e ≡ some y
        → Waits (timer_moment_of e + n) y
    unfolding step_silent get_device_timeout_count
    step_silent-Waits n (timer_moment now) x y w s e =
        let (counted, ready, still) = tick_counts m now x.aggregator d w.0 in
        let same : record x { aggregator = tick m now false x.aggregator d } ≡ y = ground arith in
        (
          ap (λ z. timer_runs z.aggregator d) (sym same) ∙ still,
          (let count = ap (λ z. count_in z.aggregator.device_timeouts d) (sym same) ∙ counted in
              omega (arith, w.1, count)),
        )
    step_silent-Waits n (call_moment c) x y w s e =
        let agrees = step-Agrees m x.aggregator c d s in
        let same : record x { aggregator = Calls.step m x.aggregator c } ≡ y = ground arith in
        (
          ap (λ z. timer_runs z.aggregator d) (sym same) ∙ ground (arith, agrees.0, w.0),
          (let count : count_in y.aggregator.device_timeouts d
                  ≡ count_in x.aggregator.device_timeouts d =
                ap (λ z. count_in z.aggregator.device_timeouts d) (sym same)
                ∙ ground (arith, agrees.1) in
              omega (arith, w.1, count)),
        )
    step_silent-Waits n (check_moment fuel) x y w s e =
        let kept = check_timeouted_messages-Keeps fuel x y e in
        let count = ap (λ t. count_in t d) kept.0 in (kept.1 d ∙ w.0, omega (arith, w.1, count))

    run_silent-Waits :
        (n : ℕ) (es : List Moment) (x y : Exchange)
        → Waits n x
        → Silent es x
        → run_silent es x ≡ some y
        → Waits (timer_moments es + n) y
    unfolding run_silent
    run_silent-Waits n [] x y w s e =
        let same : x ≡ y = ground arith in
        let count = ap (λ z. count_in z.aggregator.device_timeouts d) (sym same) in
        (ap (λ z. timer_runs z.aggregator d) (sym same) ∙ w.0, omega (arith, w.1, count))
    run_silent-Waits n (c ∷ es) x y w s e = elim (Option-cases (step_silent x c)) [
      | inl p ↦ absurd (ground (arith, e, p))
      | inr (z, p) ↦
          let first = step_silent-Waits n c x z w s.0 p in
          let silent : Silent es z = subst (OnSome (Silent es)) p s.1 in
          let ran : run_silent es z ≡ some y = sym (ap (and_then (run_silent es)) p) ∙ e in
          let later = run_silent-Waits (timer_moment_of c + n) es z y first silent ran in
          (later.0, omega (arith, later.1))
    ]

    -- A registered device whose timer runs is silent: its timer ends, calls that do not concern it and
    -- checks run, in any order. If its timer then ends again, for the
    -- `status_aggregation_timeout_max_count`th time at least, and there is fuel for the messages of the
    -- devices, the next check of the module, behind its flag, ends and orders devices to be
    -- disconnected, this one among them; the flag is set no more.
    pub check_timeouted_messages-disconnects :
        (es : List Moment) (now fuel : ℕ) (x y : Exchange)
        → timer_runs x.aggregator d ≡ true
        → Silent es x
        → run_silent es x ≡ some y
        → status_aggregation_timeout_max_count ≤ timer_moments es + 1
        → let rung = record y { aggregator = tick m now false y.aggregator d } in
          All (HasFuel m fuel rung.aggregator) (get_unique_devices m rung.aggregator).0
          → (z : Exchange) × (orders : List DeviceIdentification) × (check_timeouted_messages m fuel
                rung
              ≡ some z)
            × (z.to_internal ≡ y.to_internal ++ map disconnect_device orders)
            × (any_same d orders ≡ true)
            × (z.aggregator.timeouted_message_ready ≡ false)
    unfolding check_timeouted_messages get_unique_devices
    check_timeouted_messages-disconnects es now fuel x y runs silent ran often enough =
        let (still, waited) = run_silent-Waits 0 es x y (runs, omega arith) silent ran in
        let (counted, ready, again) = tick_counts m now y.aggregator d still in
        let rung = record y { aggregator = tick m now false y.aggregator d } in
        let devices = rung.aggregator.devices in
        let (z, checked, unset) = check_timeouted_messages-total m fuel rung enough in
        elim (Option-cases (check_devices m fuel (keys devices) rung)) [
          | inl p ↦ absurd (ground (arith, checked, p, ready))
          | inr (w, p) ↦
              let (orders, kept) = check_devices-orders fuel (keys devices) rung w p in
              let number : status_aggregation_timeout_max_count
                  ≤ count_in rung.aggregator.device_timeouts d =
                unfold get_device_timeout_count in omega (arith, counted, waited, often) in
              let late : leb status_aggregation_timeout_max_count
                    (count_in rung.aggregator.device_timeouts d)
                  ≡ true =
                ground (arith, number) in
              let there : contains device_eq d devices ≡ true =
                ground (arith, again, contains_iff_find device_eq d devices) in
              let same : record w { aggregator = unset_timeouted_message_ready w.aggregator } ≡ z =
                ground (arith, checked, p, ready) in
              (
                z,
                overdue rung.aggregator.device_timeouts (keys devices),
                checked,
                ap (λ v. v.to_internal) (sym same) ∙ orders,
                any_same-overdue rung.aggregator.device_timeouts d devices there late,
                unset,
              )
        ]
