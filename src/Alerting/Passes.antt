-- ===== src/Alerting/Passes.antt =====
-- What a pass of the engine leaves firing, and that a fault and its recovery are announced once.
use orchids_2api.Prelude.{
  String, ◌≡◌, refl, sym, ap, ◌∙◌, inl, inr, Bool, true, false, not, ◌&&◌, none, some, List, [],
  ◌∷◌, ◌++◌, map, arith, if◌then◌else◌, Bool-cases, any,
}
use orchids_2api.Prelude.Assoc.{lookup, insert, delete, string_eq, lookup-insert, lookup-delete}
use text.Mathlib.TextEquality.{eq_iff}
use orchids_2api.Alerting.Thresholds.{Rules}
use orchids_2api.Alerting.{
  ChannelSnapshot, Alert, AlertMap, Engine, is_firing, conditions, floor_rules, alerts_without,
  mark_recovered, evaluate, delete_alerts, in_warning_band, insert_alerts, engine_evaluate,
  firing_of, Transition,
}
use orchids_2api.Alerting.Keys.{
  IsKeyed, insert-IsKeyed, delete-IsKeyed, raises, conditions-raises, conditions-IsKeyed,
}
use orchids_2api.Alerting.Sorted.{find_alert, AreDistinct, perm-AreDistinct, sort_alerts-perm}
use mathlib.Core.List.Permᴰ as PermD

is_found : String → List Alert → Bool
is_found key alerts = elim (find_alert key alerts) [ none ↦ false | some alert ↦ true ]

lookup-delete_alerts :
    (key : String) (recovered : List Alert) (alerts : AlertMap)
    → lookup key (delete_alerts recovered alerts)
      ≡ elim (find_alert key recovered) [ none ↦ lookup key alerts | some alert ↦ none ]
unfolding delete_alerts find_alert
lookup-delete_alerts key [] alerts = refl
lookup-delete_alerts key (alert ∷ recovered) alerts = ground (
  arith,
  lookup-delete_alerts key recovered (delete alert.key alerts),
  lookup-delete alert.key key alerts,
)

lookup-insert_alerts :
    (key : String) (firing : List Alert) (alerts : AlertMap)
    → AreDistinct firing
    → lookup key (insert_alerts firing alerts)
      ≡ elim (find_alert key firing) [ none ↦ lookup key alerts | some alert ↦ some alert ]
unfolding insert_alerts find_alert
lookup-insert_alerts key [] alerts h = refl
lookup-insert_alerts key (alert ∷ firing) alerts h = ground (
  arith,
  lookup-insert_alerts key firing (insert alert.key alert alerts) h.1,
  lookup-insert alert.key key alert alerts,
  eq_iff alert.key key,
  h.0,
)

insert_alerts-IsKeyed :
    (firing : List Alert) (alerts : AlertMap)
    → IsKeyed alerts
    → IsKeyed (insert_alerts firing alerts)
unfolding insert_alerts
insert_alerts-IsKeyed [] alerts h = h
insert_alerts-IsKeyed (alert ∷ firing) alerts h =
    insert_alerts-IsKeyed firing _ (insert-IsKeyed alert alerts h)

delete_alerts-IsKeyed :
    (recovered : List Alert) (alerts : AlertMap)
    → IsKeyed alerts
    → IsKeyed (delete_alerts recovered alerts)
unfolding delete_alerts
delete_alerts-IsKeyed [] alerts h = h
delete_alerts-IsKeyed (alert ∷ recovered) alerts h =
    delete_alerts-IsKeyed recovered _ (delete-IsKeyed alert.key alerts h)

tail-IsKeyed :
    (key : String) (alert : Alert) (alerts : AlertMap)
    → IsKeyed ((key, alert) ∷ alerts)
    → IsKeyed alerts
unfolding lookup
tail-IsKeyed key alert alerts h =
    (h.0.1, λ other a found. h.1 other a (ground (arith, eq_iff key other, h.0.0, found)))

head-IsKeyed :
    (key : String) (alert : Alert) (alerts : AlertMap)
    → IsKeyed ((key, alert) ∷ alerts)
    → alert.key ≡ key
unfolding lookup
head-IsKeyed key alert alerts h = h.1 key alert (ground (arith, eq_iff key key))

find_alert-alerts_without :
    (key : String) (others alerts : AlertMap)
    → IsKeyed alerts
    → find_alert key (alerts_without others alerts)
      ≡ (if is_firing key others then none else lookup key alerts)
unfolding find_alert alerts_without lookup
find_alert-alerts_without key others [] h = ground arith
find_alert-alerts_without key others ((k, alert) ∷ alerts) h = ground (
  arith,
  find_alert-alerts_without key others alerts (tail-IsKeyed k alert alerts h),
  head-IsKeyed k alert alerts h,
  h.0.0,
  eq_iff k key,
  eq_iff alert.key key,
)

alerts_without-AreDistinct :
    (others alerts : AlertMap) → IsKeyed alerts → AreDistinct (alerts_without others alerts)
unfolding alerts_without
alerts_without-AreDistinct others [] h = tt
alerts_without-AreDistinct others ((k, alert) ∷ alerts) h =
    let rest = alerts_without-AreDistinct others alerts (tail-IsKeyed k alert alerts h) in
    elim (Bool-cases (is_firing k others)) [
      | inl other ↦ rw other rest
      | inr fresh ↦ rw fresh (
        ground (
          arith,
          find_alert-alerts_without alert.key others alerts (tail-IsKeyed k alert alerts h),
          head-IsKeyed k alert alerts h,
          h.0.0,
        ),
        rest,
      )
    ]

find_alert-mark_recovered :
    (key : String) (alerts : List Alert)
    → is_found key (map mark_recovered alerts) ≡ is_found key alerts
unfolding find_alert is_found mark_recovered
find_alert-mark_recovered key [] = refl
find_alert-mark_recovered key (alert ∷ alerts) =
    ground (arith, find_alert-mark_recovered key alerts)

mark_recovered-AreDistinct :
    (alerts : List Alert) → AreDistinct alerts → AreDistinct (map mark_recovered alerts)
unfolding find_alert is_found mark_recovered
mark_recovered-AreDistinct [] h = tt
mark_recovered-AreDistinct (alert ∷ alerts) h = (
  let same : is_found alert.key (map mark_recovered alerts) ≡ is_found alert.key alerts =
        find_alert-mark_recovered alert.key alerts in
      ground (arith, same, h.0),
  mark_recovered-AreDistinct alerts h.1,
)

-- The key is raised by a channel of the snapshot, by the rules and the firing set of the engine.
abbrev pub is_raised : Engine → List ChannelSnapshot → String → Bool
is_raised e channels key = any (raises (floor_rules e.rules) key (is_firing key e.firing)) channels

-- The alerts that the pass finds.
abbrev pub found_alerts : Engine → List ChannelSnapshot → AlertMap
found_alerts e channels = conditions e.firing (floor_rules e.rules) channels []

found_alerts-IsKeyed :
    (e : Engine) (channels : List ChannelSnapshot) → IsKeyed (found_alerts e channels)
unfolding lookup
found_alerts-IsKeyed e channels =
    conditions-IsKeyed e.firing (floor_rules e.rules) channels []
      (tt, λ key alert found. ground (arith, found))

is_firing-found_alerts :
    (e : Engine) (channels : List ChannelSnapshot) (key : String)
    → is_firing key (found_alerts e channels) ≡ is_raised e channels key
unfolding lookup
is_firing-found_alerts e channels key =
    ground (arith, conditions-raises e.firing (floor_rules e.rules) channels [] key)

-- The announced alerts of a pass have distinct keys: a key is announced if it is raised and was not
-- firing.
find_alert-firing :
    (e : Engine) (channels : List ChannelSnapshot) (key : String)
    → AreDistinct (evaluate channels e.firing e.rules).firing
      × (find_alert key (evaluate channels e.firing e.rules).firing
          ≡ (if is_firing key e.firing then none else lookup key (found_alerts e channels)))
unfolding evaluate
find_alert-firing e channels key =
    let current = found_alerts e channels in
    let new = alerts_without e.firing current in
    let keyed = found_alerts-IsKeyed e channels in
    let sorted =
      perm-AreDistinct (PermD.symm (sort_alerts-perm new))
        (alerts_without-AreDistinct e.firing current keyed) in
    (sorted.0, sym (sorted.1 key) ∙ find_alert-alerts_without key e.firing current keyed)

-- The key of a firing alert is announced as recovered if it is no longer raised.
find_alert-recovered :
    (e : Engine) (channels : List ChannelSnapshot) (key : String)
    → IsKeyed e.firing
    → is_found key (evaluate channels e.firing e.rules).recovered
      ≡ (is_firing key e.firing && not (is_raised e channels key))
unfolding evaluate is_found
find_alert-recovered e channels key h =
    let gone = alerts_without (found_alerts e channels) e.firing in
    let sorted = perm-AreDistinct (PermD.symm (sort_alerts-perm (map mark_recovered gone))) (
      mark_recovered-AreDistinct gone
        (alerts_without-AreDistinct (found_alerts e channels) e.firing h)) in
    ground (
      arith,
      sorted.1 key,
      find_alert-mark_recovered key gone,
      find_alert-alerts_without key (found_alerts e channels) e.firing h,
      is_firing-found_alerts e channels key,
    )

-- After a pass of an engine whose alerts stand under their own keys, they still do; a key is firing
-- exactly if a condition of a channel raises it; and an alert that was firing is kept as it was
-- announced, while a new one is the one the pass found.
pub engine_evaluate-firing :
    (e : Engine) (channels : List ChannelSnapshot)
    → IsKeyed e.firing
    → IsKeyed (firing_of (engine_evaluate channels (some e)).0)
      × ((key : String)
          → (is_firing key (firing_of (engine_evaluate channels (some e)).0)
              ≡ is_raised e channels key)
            × (lookup key (firing_of (engine_evaluate channels (some e)).0) ≡ (
                if is_raised e channels key
                then elim (lookup key e.firing) [
                  | some alert ↦ some alert
                  | none ↦ lookup key (found_alerts e channels)
                ]
                else none)))
unfolding engine_evaluate is_found
engine_evaluate-firing e channels h =
    let transition = evaluate channels e.firing e.rules in
    (
      insert_alerts-IsKeyed transition.firing _
          (delete_alerts-IsKeyed transition.recovered e.firing h),
      λ key.
          let facts : lookup key (firing_of (engine_evaluate channels (some e)).0) ≡ (
              if is_raised e channels key
              then elim (lookup key e.firing) [
                | some alert ↦ some alert
                | none ↦ lookup key (found_alerts e channels)
              ]
              else none) =
            ground (
              arith,
              lookup-insert_alerts key transition.firing
                  (delete_alerts transition.recovered e.firing)
                  (find_alert-firing e channels key).0,
              lookup-delete_alerts key transition.recovered e.firing,
              (find_alert-firing e channels key).1,
              find_alert-recovered e channels key h,
              is_firing-found_alerts e channels key,
            ) in
          (ground (arith, facts, is_firing-found_alerts e channels key), facts),
    )

raises_mono :
    (rules : Rules) (key : String) (channel : ChannelSnapshot)
    → raises rules key false channel ≡ true
    → raises rules key true channel ≡ true
unfolding raises in_warning_band
raises_mono rules key channel h = ground arith

any-raises_mono :
    (rules : Rules) (key : String) (channels : List ChannelSnapshot)
    → any (raises rules key false) channels ≡ true
    → any (raises rules key true) channels ≡ true
any-raises_mono rules key (channel ∷ channels) h =
    ground (arith, raises_mono rules key channel, any-raises_mono rules key channels)
any-raises_mono rules key [] h = h

settled : (g : Bool → Bool) → (g false ≡ true → g true ≡ true) → (b : Bool) → g (g b) ≡ g b
settled g mono true = elim (Bool-cases (g true)) [
  | inl on ↦ ap g on
  | inr off ↦ elim (Bool-cases (g false)) [
    | inl risen ↦ ground (arith, mono risen, off)
    | inr none_raised ↦ ap g off ∙ none_raised ∙ sym off
  ]
]
settled g mono false = elim (Bool-cases (g false)) [
  | inl on ↦ ap g on ∙ mono on ∙ sym on
  | inr off ↦ ap g off
]

-- Whether a key is raised does not change once the firing set is what the pass left.
is_raised-again :
    (rules : Rules) (key : String) (channels : List ChannelSnapshot) (before : Bool)
    → any (raises rules key (any (raises rules key before) channels)) channels
      ≡ any (raises rules key before) channels
is_raised-again rules key channels =
    settled (λ before. any (raises rules key before) channels) (any-raises_mono rules key channels)

nothing_found : (alerts : List Alert) → ((key : String) → is_found key alerts ≡ false) → alerts ≡ []
unfolding is_found find_alert
nothing_found [] h = refl
nothing_found (alert ∷ alerts) h = ground (arith, h alert.key, eq_iff alert.key alert.key)

-- The calls of the record function for a transition.
calls_of : Bool → Transition → List (Alert × Bool)
calls_of records transition =
    if records
    then map (λ alert. (alert, true)) transition.firing
      ++ map (λ alert. (alert, false)) transition.recovered
    else []

no_calls : (records : Bool) → calls_of records (record { firing = []; recovered = [] }) ≡ []
unfolding calls_of
no_calls true = refl
no_calls false = refl

-- A second pass over the same channels announces nothing, neither as firing nor as recovered, and calls
-- the record function not once, whatever was firing before the first.
pub engine_evaluate-again :
    (e : Engine) (channels : List ChannelSnapshot)
    → IsKeyed e.firing
    → ((engine_evaluate channels (engine_evaluate channels (some e)).0).1
        ≡ record { firing = []; recovered = [] })
      × ((engine_evaluate channels (engine_evaluate channels (some e)).0).2 ≡ [])
unfolding engine_evaluate is_found calls_of
engine_evaluate-again e channels h =
    let firing = firing_of (engine_evaluate channels (some e)).0 in
    let after : Engine = record e { firing = firing } in
    let transition = evaluate channels firing e.rules in
    let first = engine_evaluate-firing e channels h in
    let same : (key : String) → is_raised after channels key ≡ is_firing key firing = λ key.
      ap (λ b. any (raises (floor_rules e.rules) key b) channels) (first.1 key).0
      ∙ is_raised-again (floor_rules e.rules) key channels (is_firing key e.firing)
      ∙ sym (first.1 key).0 in
    let quiet : transition ≡ record { firing = []; recovered = [] } = λ i. record {
      firing =
          nothing_found transition.firing
            (λ key. ground (
              arith,
              (find_alert-firing after channels key).1,
              is_firing-found_alerts after channels key,
              same key,
            ))
            i;
      recovered =
          nothing_found transition.recovered
            (λ key. ground (arith, find_alert-recovered after channels key first.0, same key)) i;
    } in
    (quiet, ap (calls_of e.records) quiet ∙ no_calls e.records)
