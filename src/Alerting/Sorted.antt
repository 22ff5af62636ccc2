-- ===== src/Alerting/Sorted.antt =====
-- The order of the alerts that a pass announces.
use orchids_2api.Prelude.{
  String, ◌≡◌, refl, sym, ap, ◌∙◌, subst, inl, inr, true, false, Option, none, some, List, [], ◌∷◌,
  ◌++◌, arith, str_eq, if◌then◌else◌, Bool-cases,
}
use mathlib.Core.List.{Permᴰ, append-nil}
use mathlib.Core.List.Permᴰ as PermD
use text.Mathlib.TextEquality.{eq_iff}
use orchids_2api.Prelude.Order.{str_less, str_less_trans, str_less-asym, str_less-total}
use orchids_2api.Alerting.{Alert, precedes, sift, sort_into, reverse_onto, sort_alerts}

-- The alert of a key, if the list holds one.
unfoldable pub find_alert : String → List Alert → Option Alert
find_alert key [] = none
find_alert key (alert ∷ alerts) = if str_eq alert.key key then some alert else find_alert key alerts

-- No key stands twice.
abbrev pub AreDistinct : List Alert → Type 0
AreDistinct [] = Unit
AreDistinct (alert ∷ alerts) = (find_alert alert.key alerts ≡ none) × AreDistinct alerts

precedes_trans : (a b c : Alert) → precedes a b ≡ true → precedes b c ≡ true → precedes a c ≡ true
unfolding precedes
precedes_trans a b c h g = ground (arith, str_less_trans a.key b.key c.key)

precedes-asym : (a b : Alert) → precedes a b ≡ true → precedes b a ≡ false
unfolding precedes
precedes-asym a b h = ground (arith, str_less-asym a.key b.key)

precedes-total : (a b : Alert) → precedes a b ≡ false → precedes b a ≡ false → a.key ≡ b.key
unfolding precedes
precedes-total a b h g =
    str_less-total a.key b.key (let one : str_less a.key b.key ≡ false = ground arith in one)
      (let other : str_less b.key a.key ≡ false = ground arith in other)

-- Two alerts of different keys may be sifted in either order.
sift_comm :
    (a b : Alert) (sorted : List Alert)
    → str_eq a.key b.key ≡ false
    → sift a (sift b sorted) ≡ sift b (sift a sorted)
unfolding sift
sift_comm a b [] h = ground (arith, precedes-asym a b, precedes-total a b, eq_iff a.key b.key)
sift_comm a b (c ∷ sorted) h = ground (
  arith,
  sift_comm a b sorted,
  precedes-asym a b,
  precedes-asym b a,
  precedes-total a b,
  precedes-total b a,
  precedes-total a c,
  precedes-total b c,
  precedes_trans a c b,
  precedes_trans b c a,
  precedes_trans a b c,
  precedes_trans b a c,
  eq_iff a.key b.key,
)

-- Sorting keeps the alerts.
sift-perm : (alert : Alert) (sorted : List Alert) → Permᴰ (sift alert sorted) (alert ∷ sorted)
unfolding sift
sift-perm alert [] = PermD.refl (alert ∷ [])
sift-perm alert (other ∷ sorted) = elim (Bool-cases (precedes alert other)) [
  | inl down ↦
      rw down (PermD.trans (PermD.cons refl (sift-perm alert sorted)) (PermD.swap refl refl))
  | inr here ↦ rw here (PermD.refl (alert ∷ other ∷ sorted))
]

middle-perm : (alert : Alert) (l r : List Alert) → Permᴰ (l ++ (alert ∷ r)) (alert ∷ (l ++ r))
middle-perm alert [] r = PermD.refl (alert ∷ r)
middle-perm alert (other ∷ l) r =
    PermD.trans (PermD.cons refl (middle-perm alert l r)) (PermD.swap refl refl)

append-perm : (l : List Alert) {k r : List Alert} → Permᴰ k r → Permᴰ (l ++ k) (l ++ r)
append-perm [] p = p
append-perm (alert ∷ l) p = PermD.cons refl (append-perm l p)

reverse_onto-perm : (l r : List Alert) → Permᴰ (reverse_onto r l) (l ++ r)
unfolding reverse_onto
reverse_onto-perm [] r = PermD.refl r
reverse_onto-perm (alert ∷ l) r =
    PermD.trans (reverse_onto-perm l (alert ∷ r)) (middle-perm alert l r)

sort_into-perm : (l sorted : List Alert) → Permᴰ (sort_into sorted l) (l ++ sorted)
unfolding sort_into
sort_into-perm [] sorted = PermD.refl sorted
sort_into-perm (alert ∷ l) sorted =
    PermD.trans (sort_into-perm l (sift alert sorted))
      (PermD.trans (append-perm l (sift-perm alert sorted)) (middle-perm alert l sorted))

pub sort_alerts-perm : (l : List Alert) → Permᴰ (sort_alerts l) l
unfolding sort_alerts
sort_alerts-perm l =
    PermD.trans
      (subst (λ (k : List Alert). Permᴰ (sort_alerts l) k) (append-nil (sort_into [] l))
        (reverse_onto-perm (sort_into [] l) []))
      (subst (λ (k : List Alert). Permᴰ (sort_into [] l) k) (append-nil l) (sort_into-perm l []))

swap-AreDistinct :
    (a b : Alert) (l : List Alert)
    → AreDistinct (a ∷ b ∷ l)
    → AreDistinct (b ∷ a ∷ l)
      × ((key : String) → find_alert key (a ∷ b ∷ l) ≡ find_alert key (b ∷ a ∷ l))
unfolding find_alert
swap-AreDistinct a b l h =
    let apart : str_eq a.key b.key ≡ false =
      ground (arith, h.0, eq_iff a.key b.key, eq_iff b.key a.key) in
    (
      (
        ground (arith, apart, h.1),
        (let fresh : find_alert a.key l ≡ none = ground (arith, h.0) in fresh, h.1.1),
      ),
      λ key. ground (arith, apart, eq_iff a.key key, eq_iff b.key key, eq_iff a.key b.key),
    )

-- A permutation finds the same alerts, and no key twice.
pub perm-AreDistinct :
    {l k : List Alert}
    → Permᴰ l k
    → AreDistinct l
    → AreDistinct k × ((key : String) → find_alert key l ≡ find_alert key k)
unfolding find_alert
perm-AreDistinct PermD.nil h = (tt, λ key. refl)
perm-AreDistinct (PermD.cons {a = a} {b = b} {l₁ = l} {l₂ = k} e d) h =
    let rest = perm-AreDistinct d h.1 in
    (
      (sym (rest.1 b.key) ∙ ap (λ (c : Alert). find_alert c.key l) (sym e) ∙ h.0, rest.0),
      λ key. ground (arith, rest.1 key, e),
    )
perm-AreDistinct (PermD.swap {a = a} {b = b} {a' = a'} {b' = b'} {l = l} e₁ e₂) h =
    subst
      (λ (y : Alert).
        AreDistinct (a' ∷ y ∷ l)
        × ((key : String) → find_alert key (a ∷ b ∷ l) ≡ find_alert key (a' ∷ y ∷ l)))
      e₁
      (subst
        (λ (x : Alert).
          AreDistinct (x ∷ a ∷ l)
          × ((key : String) → find_alert key (a ∷ b ∷ l) ≡ find_alert key (x ∷ a ∷ l)))
        e₂ (swap-AreDistinct a b l h))
perm-AreDistinct (PermD.trans d₁ d₂) h =
    let first = perm-AreDistinct d₁ h in
    let second = perm-AreDistinct d₂ first.0 in (second.0, λ key. first.1 key ∙ second.1 key)

-- Sorting does not depend on the order in which the map was visited.
sort_into-order :
    {l k : List Alert} (sorted : List Alert)
    → Permᴰ l k
    → AreDistinct l
    → sort_into sorted l ≡ sort_into sorted k
unfolding sort_into find_alert
sort_into-order sorted PermD.nil h = refl
sort_into-order sorted (PermD.cons {b = b} {l₁ = l} e d) h =
    ap (λ (alert : Alert). sort_into (sift alert sorted) l) e
    ∙ sort_into-order (sift b sorted) d h.1
sort_into-order sorted (PermD.swap {a = a} {b = b} {a' = a'} {b' = b'} {l = l} e₁ e₂) h =
    ap (λ (alerts : List Alert). sort_into alerts l)
      (sift_comm b a sorted (
        let apart : str_eq b.key a.key ≡ false =
          ground (arith, h.0, eq_iff a.key b.key, eq_iff b.key a.key) in
        apart))
    ∙ ap (λ (alert : Alert). sort_into (sift alert (sift b sorted)) l) e₁
    ∙ ap (λ (alert : Alert). sort_into (sift b' (sift alert sorted)) l) e₂
sort_into-order sorted (PermD.trans d₁ d₂) h =
    sort_into-order sorted d₁ h ∙ sort_into-order sorted d₂ (perm-AreDistinct d₁ h).0

-- sortAlerts gives the same list for every order in which alerts of distinct keys are collected from
-- a map.
pub sort_alerts-order :
    {l k : List Alert} → Permᴰ l k → AreDistinct l → sort_alerts l ≡ sort_alerts k
unfolding sort_alerts
sort_alerts-order p h = ap (reverse_onto []) (sort_into-order [] p h)
